-- ===== src/Device/Contents.antt =====
-- The bytes of a device, as a function of the address, with the effect of `memcpy` on them.
use blockdevlogger.Base.{
  ℕ, zero, suc, ◌+◌, ◌-◌, ◌≤◌, ◌<◌, ◌≡◌, refl, sym, ◌∙◌, ap, ap₂, fun_ext, ◌⊎◌, inl, inr, List, [],
  ◌∷◌, ◌++◌, ◌&&◌, ltb, leb, if◌then◌else◌, length, get_or, length-append, get_or-append_left,
  get_or-append_right, arith,
}

abbrev pub Memory : Type 0
Memory = ℕ → ℕ

unfoldable pub read_bytes : Memory → ℕ → ℕ → List ℕ
read_bytes m p zero = []
read_bytes m p (suc n) = m p ∷ read_bytes m (p + 1) n

unfoldable pub write_bytes : Memory → ℕ → List ℕ → Memory
write_bytes m p bs a = if leb p a && ltb a (p + length bs) then get_or bs (a - p) 0 else m a

pub length-read_bytes : (m : Memory) (p n : ℕ) → length (read_bytes m p n) ≡ n
unfolding read_bytes
length-read_bytes m p zero = refl
length-read_bytes m p (suc n) = ap suc (length-read_bytes m (p + 1) n)

-- A read depends on the bytes of its range alone.
pub read_bytes_ext :
    (m m' : Memory) (p n : ℕ)
    → ((a : ℕ) → p ≤ a → a < p + n → m a ≡ m' a)
    → read_bytes m p n ≡ read_bytes m' p n
unfolding read_bytes
read_bytes_ext m m' p zero h = refl
read_bytes_ext m m' p (suc n) h =
    ap₂ ◌∷◌ (h p (omega arith) (omega arith))
      (read_bytes_ext m m' (p + 1) n (λ a lo hi. h a (omega arith) (omega arith)))

pub read_bytes-append :
    (m : Memory) (p n k : ℕ) → read_bytes m p (n + k) ≡ read_bytes m p n ++ read_bytes m (p + n) k
unfolding read_bytes
read_bytes-append m p zero k = ap₂ (read_bytes m) (omega arith) (omega arith)
read_bytes-append m p (suc n) k =
    ap (read_bytes m p) (let e : suc n + k ≡ suc (n + k) = omega arith in e)
    ∙ ap (◌∷◌ (m p)) (
        read_bytes-append m (p + 1) n k
        ∙ ap (λ q. read_bytes m (p + 1) n ++ read_bytes m q k) (omega arith))

-- Bytes outside the range of a write stay.
pub write_bytes_outside :
    (m : Memory) (p : ℕ) (bs : List ℕ) (a : ℕ)
    → (a < p) ⊎ (p + length bs ≤ a)
    → write_bytes m p bs a ≡ m a
unfolding write_bytes
write_bytes_outside m p bs a h = ground arith

pub write_bytes_inside :
    (m : Memory) (p : ℕ) (bs : List ℕ) (a : ℕ)
    → p ≤ a
    → a < p + length bs
    → write_bytes m p bs a ≡ get_or bs (a - p) 0
unfolding write_bytes
write_bytes_inside m p bs a lo hi = ground arith

-- A read that does not meet the range of a write gives what was there before.
pub read-write_disjoint :
    (m : Memory) (p : ℕ) (bs : List ℕ) (q n : ℕ)
    → (q + n ≤ p) ⊎ (p + length bs ≤ q)
    → read_bytes (write_bytes m p bs) q n ≡ read_bytes m q n
read-write_disjoint m p bs q n h =
    read_bytes_ext _ _ q n (λ a lo hi. write_bytes_outside m p bs a (grind arith))

write_bytes-cons :
    (m : Memory) (p : ℕ) (b : ℕ) (bs : List ℕ) (a : ℕ)
    → p + 1 ≤ a
    → write_bytes m p (b ∷ bs) a ≡ write_bytes m (p + 1) bs a
unfolding write_bytes
write_bytes-cons m p b bs a h =
    let e : a - p ≡ suc (a - (p + 1)) = omega arith in rw e (ground arith)

-- What was written is read back.
pub read-write :
    (m : Memory) (p : ℕ) (bs : List ℕ) → read_bytes (write_bytes m p bs) p (length bs) ≡ bs
unfolding read_bytes
read-write m p [] = refl
read-write m p (b ∷ bs) =
    ap₂ ◌∷◌
      (write_bytes_inside m p (b ∷ bs) p (omega arith) (omega arith)
        ∙ ap (λ i. get_or (b ∷ bs) i 0) (let e : p - p ≡ 0 = omega arith in e))
      (read_bytes_ext _ _ (p + 1) (length bs) (λ a lo hi. write_bytes-cons m p b bs a lo)
        ∙ read-write m (p + 1) bs)

-- Two writes side by side are one.
pub write-write :
    (m : Memory) (p : ℕ) (xs ys : List ℕ)
    → write_bytes (write_bytes m p xs) (p + length xs) ys ≡ write_bytes m p (xs ++ ys)
write-write m p xs ys = fun_ext λ a. elim (where_is a) [
  | inl (inl before) ↦
      write_bytes_outside _ _ ys a (inl (omega arith))
      ∙ write_bytes_outside m p xs a (inl before)
      ∙ sym (write_bytes_outside m p (xs ++ ys) a (inl before))
  | inl (inr beyond) ↦
      write_bytes_outside _ _ ys a (inr (omega (arith, length-append xs ys)))
      ∙ write_bytes_outside m p xs a (inr (omega (arith, length-append xs ys)))
      ∙ sym (write_bytes_outside m p (xs ++ ys) a (inr beyond))
  | inr (inl (lo, first)) ↦
      write_bytes_outside _ _ ys a (inl first)
      ∙ write_bytes_inside m p xs a lo first
      ∙ sym (get_or-append_left xs ys (a - p) 0 (omega arith))
      ∙ sym (write_bytes_inside m p (xs ++ ys) a lo (omega (arith, length-append xs ys)))
  | inr (inr (second, hi)) ↦
      write_bytes_inside _ _ ys a second (omega (arith, length-append xs ys))
      ∙ sym (get_or-append_right xs ys (a - (p + length xs)) 0)
      ∙ ap (λ i. get_or (xs ++ ys) i 0) (omega arith)
      ∙ sym (write_bytes_inside m p (xs ++ ys) a (omega arith) hi)
]
  where
    where_is :
        (a : ℕ)
        → ((a < p) ⊎ (p + length (xs ++ ys) ≤ a))
          ⊎ (((p ≤ a) × (a < p + length xs)) ⊎ ((p + length xs ≤ a) × (a < p + length (xs ++ ys))))
    where_is a = grind arith
