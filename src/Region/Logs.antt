-- ===== src/Region/Logs.antt =====
-- The logs of the regions of a device, one behind the other.
use blockdevlogger.Base.{
  ℕ, ◌-◌, ◌*◌, ◌≤◌, ◌<◌, ◌≡◌, refl, sym, ap, ◌∙◌, ◌⊎◌, inl, inr, false, Bool-cases, List, [], ◌∷◌,
  ◌++◌, append_assoc, leb, lt→leb, length, arith,
}
use blockdevlogger.Layout.{Header, hintblock_spacing}
use blockdevlogger.Device.{File}
use blockdevlogger.Region.{Entry, selected}
use blockdevlogger.Region.Log.{Increasing, newest}
use blockdevlogger.Region.Find.{hint_place, IsRegionLog, IsRegionLog-seek, base_behind}

-- The entries of several logs, in order.
abbrev pub all_entries : List (List Entry) → List Entry
all_entries [] = []
all_entries (entries ∷ regions) = entries ++ all_entries regions

-- The regions from a base on hold these logs, none of them empty; behind them the hint blocks end, or
-- there is an empty log.
abbrev pub AllLogs : Header → File → ℕ → ℕ → ℕ → List (List Entry) → Type 0
AllLogs header f c loop_end base [] =
    (loop_end ≤ hint_place base) ⊎ (hint_place base < loop_end) × IsRegionLog header f c base []
AllLogs header f c loop_end base (entries ∷ regions) =
    (hint_place base < loop_end)
    × (1 ≤ length entries)
    × IsRegionLog header f c base entries
    × AllLogs header f c loop_end (hint_place base) regions

pub AllLogs-seek :
    (header : Header) (f : File) (c loop_end base q : ℕ) (regions : List (List Entry))
    → AllLogs header f c loop_end base regions
    → AllLogs header (record f { seek = q }) c loop_end base regions
AllLogs-seek header f c loop_end base q [] (inl e) = inl e
AllLogs-seek header f c loop_end base q [] (inr (lt, r)) =
    inr (lt, IsRegionLog-seek header f c base q [] r)
AllLogs-seek header f c loop_end base q (entries ∷ regions) h = (
  h.0,
  h.1,
  IsRegionLog-seek header f c base q entries h.2,
  AllLogs-seek header f c loop_end (hint_place base) q regions h.3,
)

-- There are no more logs than hint blocks.
pub AllLogs-length :
    (header : Header) (f : File) (c loop_end base : ℕ) (regions : List (List Entry))
    → AllLogs header f c loop_end base regions
    → length regions * hintblock_spacing ≤ loop_end - base
AllLogs-length header f c loop_end base [] h = omega arith
AllLogs-length header f c loop_end base (entries ∷ regions) h =
    let rest = AllLogs-length header f c loop_end (hint_place base) regions h.3 in
    omega (arith, rest, h.0)

-- The logs behind the first ones.
pub AllLogs-behind :
    (header : Header) (f : File) (c loop_end base : ℕ) (before after : List (List Entry))
    → AllLogs header f c loop_end base (before ++ after)
    → AllLogs header f c loop_end (base_behind base before) after
AllLogs-behind header f c loop_end base [] after h = h
AllLogs-behind header f c loop_end base (x ∷ before) after h =
    AllLogs-behind header f c loop_end (hint_place base) before after h.3

-- The first logs, up to the hint block behind them.
pub AllLogs-before :
    (header : Header) (f : File) (c loop_end base : ℕ) (before after : List (List Entry))
    → AllLogs header f c loop_end base (before ++ after)
    → (base ≤ base_behind base before)
      × AllLogs header f c (hint_place (base_behind base before)) base before
AllLogs-before header f c loop_end base [] after h = (omega arith, inl (omega arith))
AllLogs-before header f c loop_end base (x ∷ before) after h =
    let rest = AllLogs-before header f c loop_end (hint_place base) before after h.3 in
    (omega (arith, rest.0), (omega (arith, rest.0), h.1, h.2, rest.1))

pub Increasing-split :
    (t : ℕ) (xs ys : List Entry)
    → Increasing t (xs ++ ys)
    → Increasing t xs × Increasing (newest t xs) ys
Increasing-split t [] ys h = (tt, h)
Increasing-split t (x ∷ xs) ys h =
    let rest = Increasing-split x.timestamp xs ys h.1 in ((h.0, rest.0), rest.1)

pub newest-split : (t : ℕ) (xs ys : List Entry) → newest t (xs ++ ys) ≡ newest (newest t xs) ys
newest-split t [] ys = refl
newest-split t (x ∷ xs) ys = newest-split x.timestamp xs ys

pub newest-least : (t : ℕ) (xs : List Entry) → Increasing t xs → t ≤ newest t xs
newest-least t [] h = omega arith
newest-least t (x ∷ xs) h = let rest = newest-least x.timestamp xs h.1 in omega (arith, rest, h.0)

-- A log that is not empty has its newest timestamp whatever came before.
pub newest_any : (t u : ℕ) (xs : List Entry) → 1 ≤ length xs → newest t xs ≡ newest u xs
newest_any t u [] h = absurd (omega (arith, h))
newest_any t u (x ∷ xs) h = refl

-- From a log whose newest timestamp is too old nothing is selected.
pub selected-older :
    (t timestamp_gteq : ℕ) (xs : List Entry)
    → Increasing t xs
    → newest t xs < timestamp_gteq
    → selected timestamp_gteq xs ≡ []
selected-older t timestamp_gteq [] h lt = refl
selected-older t timestamp_gteq (x ∷ xs) h lt =
    let least = newest-least x.timestamp xs h.1 in
    let old : leb timestamp_gteq x.timestamp ≡ false = lt→leb _ _ (omega (arith, least, lt)) in
    rw old (selected-older x.timestamp timestamp_gteq xs h.1 lt)

pub selected-append :
    (timestamp_gteq : ℕ) (xs ys : List Entry)
    → selected timestamp_gteq (xs ++ ys) ≡ selected timestamp_gteq xs ++ selected timestamp_gteq ys
selected-append timestamp_gteq [] ys = refl
selected-append timestamp_gteq (x ∷ xs) ys = elim (Bool-cases (leb timestamp_gteq x.timestamp)) [
  | inl newer ↦ rw newer (ap (λ es. x ∷ es) (selected-append timestamp_gteq xs ys))
  | inr older ↦ rw older (selected-append timestamp_gteq xs ys)
]

pub all_entries-append :
    (xs ys : List (List Entry)) → all_entries (xs ++ ys) ≡ all_entries xs ++ all_entries ys
all_entries-append [] ys = refl
all_entries-append (x ∷ xs) ys =
    ap (λ es. x ++ es) (all_entries-append xs ys)
    ∙ sym (append_assoc x (all_entries xs) (all_entries ys))
