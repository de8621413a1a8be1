-- ===== src/Device/Bytes.antt =====
-- Devices whose memory holds bytes, and the ranges of what is decoded from them.
use native.Mathlib.Nat.{pow-suc}
use blockdevlogger.Base.{
  ℕ, zero, suc, ◌+◌, ◌-◌, ◌/◌, ◌≤◌, ◌<◌, ◌^◌, ◌≡◌, sym, ◌∙◌, ap, inl, List, [], ◌∷◌, ◌++◌, length,
  get_or, take, drop, replicate, le_bytes, le_value, length-take, arith,
}
use blockdevlogger.Crc32.Reference.{IsBytes}
use blockdevlogger.Device.Contents.{
  Memory, read_bytes, write_bytes, write-write, read-write, read-write_disjoint,
}

abbrev pub HoldsBytes : Memory → Type 0
HoldsBytes m = (a : ℕ) → m a < 256

pub append-IsBytes : (xs ys : List ℕ) → IsBytes xs → IsBytes ys → IsBytes (xs ++ ys)
append-IsBytes [] ys v w = w
append-IsBytes (x ∷ xs) ys v w = (v.0, append-IsBytes xs ys v.1 w)

pub le_bytes-IsBytes : (n x : ℕ) → IsBytes (le_bytes n x)
le_bytes-IsBytes zero x = tt
le_bytes-IsBytes (suc n) x = (omega arith, le_bytes-IsBytes n (x / 256))

pub replicate-IsBytes : (n b : ℕ) → b < 256 → IsBytes (replicate n b)
replicate-IsBytes zero b h = tt
replicate-IsBytes (suc n) b h = (h, replicate-IsBytes n b h)

pub take-IsBytes : (n : ℕ) (xs : List ℕ) → IsBytes xs → IsBytes (take n xs)
take-IsBytes zero xs v = tt
take-IsBytes (suc n) [] v = tt
take-IsBytes (suc n) (x ∷ xs) v = (v.0, take-IsBytes n xs v.1)

pub drop-IsBytes : (n : ℕ) (xs : List ℕ) → IsBytes xs → IsBytes (drop n xs)
drop-IsBytes zero xs v = v
drop-IsBytes (suc n) [] v = tt
drop-IsBytes (suc n) (x ∷ xs) v = drop-IsBytes n xs v.1

pub get_or-lt : (bs : List ℕ) (i : ℕ) → IsBytes bs → get_or bs i 0 < 256
get_or-lt [] i v = omega arith
get_or-lt (b ∷ bs) zero v = v.0
get_or-lt (b ∷ bs) (suc i) v = get_or-lt bs i v.1

pub read_bytes-IsBytes : (m : Memory) (p n : ℕ) → HoldsBytes m → IsBytes (read_bytes m p n)
unfolding read_bytes
read_bytes-IsBytes m p zero h = tt
read_bytes-IsBytes m p (suc n) h = (h p, read_bytes-IsBytes m (p + 1) n h)

pub write_bytes-HoldsBytes :
    (m : Memory) (p : ℕ) (bs : List ℕ) → HoldsBytes m → IsBytes bs → HoldsBytes (write_bytes m p bs)
unfolding write_bytes
write_bytes-HoldsBytes m p bs h v a = ground (arith, h a, get_or-lt bs (a - p) v)

-- A field of `n` bytes is below `256 ^ n`.
pub le_value-lt : (n : ℕ) (bs : List ℕ) → IsBytes bs → length bs ≤ n → le_value bs < 256 ^ n
le_value-lt zero [] v h = omega arith
le_value-lt zero (b ∷ bs) v h = absurd (omega arith)
le_value-lt (suc n) [] v h = omega (arith, pow-suc 256 n, le_value-lt n [] tt (omega arith))
le_value-lt (suc n) (b ∷ bs) v h =
    omega (arith, pow-suc 256 n, le_value-lt n bs v.1 (omega arith), v.0)

pub field_at-lt : (off n : ℕ) (bs : List ℕ) → IsBytes bs → le_value (take n (drop off bs)) < 256 ^ n
field_at-lt off n bs v =
    le_value-lt n (take n (drop off bs)) (take-IsBytes n (drop off bs) (drop-IsBytes off bs v))
      (omega (arith, length-take n (drop off bs)))

-- The first part of what was written is read back.
pub read-write_front :
    (m : Memory) (p : ℕ) (xs ys : List ℕ)
    → read_bytes (write_bytes m p (xs ++ ys)) p (length xs) ≡ xs
read-write_front m p xs ys =
    ap (λ m'. read_bytes m' p (length xs)) (sym (write-write m p xs ys))
    ∙ read-write_disjoint (write_bytes m p xs) (p + length xs) ys p (length xs) (inl (omega arith))
    ∙ read-write m p xs
