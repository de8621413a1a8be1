-- ===== src/Main/Words.antt =====
-- src/bdl.c: the words of a command.
use blockdevlogger.Base.{
  ℕ, ◌≡◌, ◌≢◌, refl, sym, ap, ◌∙◌, Bool-cases, inl, inr, List, [], ◌∷◌, ◌++◌, append_assoc, ◌==◌,
  ==_iff, arith,
}
use blockdevlogger.Main.{words_from, words}

-- Words with a space behind each.
pub joined : List (List ℕ) → List ℕ
joined [] = []
joined (word ∷ rest) = word ++ b' ' ∷ joined rest

-- There is no space in it.
pub HasNoSpace : List ℕ → Type 0
HasNoSpace [] = Unit
HasNoSpace (letter ∷ word) = (letter ≢ b' ') × HasNoSpace word

pub AllWords : List (List ℕ) → Type 0
AllWords [] = Unit
AllWords (word ∷ rest) = HasNoSpace word × AllWords rest

HasNoSpace-append :
    (word : List ℕ) (letter : ℕ)
    → HasNoSpace word
    → letter ≢ b' '
    → HasNoSpace (word ++ letter ∷ [])
unfolding HasNoSpace
HasNoSpace-append [] letter h ne = (ne, tt)
HasNoSpace-append (x ∷ word) letter h ne = (h.0, HasNoSpace-append word letter h.1 ne)

words_from-joined :
    (cmdline word : List ℕ)
    → HasNoSpace word
    → (joined (words_from word (cmdline ++ b' ' ∷ [])) ≡ word ++ (cmdline ++ b' ' ∷ []))
      × AllWords (words_from word (cmdline ++ b' ' ∷ []))
unfolding joined AllWords words_from HasNoSpace
words_from-joined [] word h = (refl, (h, tt))
words_from-joined (letter ∷ cmdline) word h = elim (Bool-cases (letter == b' ')) [
  | inl space ↦
      let rest = words_from-joined cmdline [] tt in
      let is_space = (==_iff letter b' ').0 space in
      rw space (
        ap (λ ls. word ++ b' ' ∷ ls) rest.0
            ∙ ap (λ l. word ++ l ∷ (cmdline ++ b' ' ∷ [])) (sym is_space),
        (h, rest.1),
      )
  | inr other ↦
      let rest =
        words_from-joined cmdline (word ++ letter ∷ [])
          (HasNoSpace-append word letter h (λ e. ground (arith, other, e))) in
      rw other (rest.0 ∙ append_assoc word (letter ∷ []) (cmdline ++ b' ' ∷ []), rest.1)
]

-- The words of a command, with a space behind each, are the command with a space at its end, and there
-- is no space in a word; so each space of the command separates two words, and two spaces in a row
-- leave an empty one.
pub words-joined :
    (cmdline : List ℕ) → (joined (words cmdline) ≡ cmdline ++ b' ' ∷ []) × AllWords (words cmdline)
unfolding words HasNoSpace
words-joined cmdline = words_from-joined cmdline [] tt
