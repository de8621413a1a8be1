-- ===== src/Crc32/Reference.antt =====
-- The checksum as a division of polynomials, bit by bit, against the table of src/lib/crc32.c.
use native.Mathlib.Nat.{pow-suc, mul_assoc}
use blockdevlogger.Base.{
  ℕ, zero, suc, ◌+◌, ◌-◌, ◌*◌, ◌/◌, ◌%◌, ◌^◌, ◌<◌, bit_xor, ◌≡◌, refl, sym, ◌∙◌, ap, ap₂, List, [],
  ◌∷◌, Bool, true, ◌&&◌, ltb, ◌==◌, get_or, arith,
}
use blockdevlogger.Crc32.Table.{crc_32_tab}
use blockdevlogger.Crc32.{sign_extend, updc32, crc32_from, crc32buf}
use blockdevlogger.Crc32.Xor.{
  bit_xor_half, bit_xor_parity, bit_xor_comm, bit_xor_assoc, bit_xor-zero, bit_xor-div, bit_xor-mod,
  bit_and_mask,
}

abbrev polynomial : ℕ
polynomial = 0xedb88320

-- One bit of the division: a shift, and the feedback if a one falls out.
abbrev feedback : ℕ → ℕ
feedback zero = 0
feedback (suc b) = polynomial

crc_bit : ℕ → ℕ
crc_bit r = bit_xor (r / 2) (feedback (r % 2))

pub crc_bits : ℕ → ℕ → ℕ
crc_bits zero r = r
crc_bits (suc n) r = crc_bits n (crc_bit r)

-- The reference: each byte is added to the low end of the register, then eight bits are shifted out.
pub reference_from : ℕ → List ℕ → ℕ
reference_from r [] = r
reference_from r (octet ∷ buf) = reference_from (crc_bits 8 (bit_xor r octet)) buf

pub reference : List ℕ → ℕ
reference buf = 0xffff_ffff - reference_from 0xffff_ffff buf

feedback-bit_xor :
    (a b : ℕ) → feedback ((a + b) % 2) ≡ bit_xor (feedback (a % 2)) (feedback (b % 2))
feedback-bit_xor a b =
    ap feedback (let e : (a + b) % 2 ≡ (a % 2 + b % 2) % 2 = omega arith in e)
    ∙ parities (a % 2) (b % 2) (omega arith) (omega arith)
  where
    parities :
        (x y : ℕ) → x < 2 → y < 2 → feedback ((x + y) % 2) ≡ bit_xor (feedback x) (feedback y)
    parities zero zero p q = refl
    parities zero (suc zero) p q = refl
    parities zero (suc (suc y)) p q = absurd (omega arith)
    parities (suc zero) zero p q = refl
    parities (suc zero) (suc zero) p q = refl
    parities (suc zero) (suc (suc y)) p q = absurd (omega arith)
    parities (suc (suc x)) y p q = absurd (omega arith)

-- `(a ^ b) ^ (c ^ d)` with the inner two swapped
bit_xor_interchange :
    (a b c d : ℕ) → bit_xor (bit_xor a b) (bit_xor c d) ≡ bit_xor (bit_xor a c) (bit_xor b d)
bit_xor_interchange a b c d =
    bit_xor_assoc a b (bit_xor c d)
    ∙ ap (bit_xor a)
        (sym (bit_xor_assoc b c d) ∙ ap (λ t. bit_xor t d) (bit_xor_comm b c) ∙ bit_xor_assoc c b d)
    ∙ sym (bit_xor_assoc a c (bit_xor b d))

-- A step of the division is linear.
crc_bit-bit_xor : (a b : ℕ) → crc_bit (bit_xor a b) ≡ bit_xor (crc_bit a) (crc_bit b)
unfolding crc_bit
crc_bit-bit_xor a b =
    rw (bit_xor_half a b, bit_xor_parity a b, feedback-bit_xor a b)
      (bit_xor_interchange (a / 2) (b / 2) (feedback (a % 2)) (feedback (b % 2)))

crc_bits-bit_xor : (n a b : ℕ) → crc_bits n (bit_xor a b) ≡ bit_xor (crc_bits n a) (crc_bits n b)
unfolding crc_bits
crc_bits-bit_xor zero a b = refl
crc_bits-bit_xor (suc n) a b = rw (crc_bit-bit_xor a b) (crc_bits-bit_xor n (crc_bit a) (crc_bit b))

crc_bit_even : (r q : ℕ) → r ≡ q * 2 → crc_bit r ≡ q
unfolding crc_bit
crc_bit_even r q e = ap₂ bit_xor half (ap feedback even) ∙ bit_xor-zero q
  where
    half : r / 2 ≡ q
    half = omega arith

    even : r % 2 ≡ 0
    even = omega arith

even : (h n : ℕ) → crc_bit (h * 2 ^ suc n) ≡ h * 2 ^ n
even h n = crc_bit_even _ _ (rw pow-suc (sym (mul_assoc h (2 ^ n) 2)))

-- Zeros at the low end are shifted out with no feedback.
crc_bits_shift : (n h : ℕ) → crc_bits n (h * 2 ^ n) ≡ h
unfolding crc_bits
crc_bits_shift zero h = omega arith
crc_bits_shift (suc n) h = ap (crc_bits n) (even h n) ∙ crc_bits_shift n h

-- The table holds the division of each byte.
every_below : (ℕ → Bool) → ℕ → Bool
every_below test zero = true
every_below test (suc bound) = every_below test bound && test bound

every_below-true :
    (test : ℕ → Bool) (bound octet : ℕ)
    → octet < bound
    → every_below test bound ≡ true
    → test octet ≡ true
unfolding every_below
every_below-true test zero octet inside all = absurd (omega arith)
every_below-true test (suc bound) octet inside all =
    ground (arith, every_below-true test bound octet)

-- The entry of a byte is its division, of 32 bits.
entry_is_right : ℕ → Bool
entry_is_right octet =
    (get_or crc_32_tab octet 0 == crc_bits 8 octet) && ltb (crc_bits 8 octet) (2 ^ 32)

table_checked : every_below entry_is_right 256 ≡ true
unfolding every_below entry_is_right crc_32_tab crc_bits crc_bit
table_checked = refl

table_lem : (x : ℕ) → x < 256 → (get_or crc_32_tab x 0 ≡ crc_bits 8 x) × (crc_bits 8 x < 2 ^ 32)
unfolding entry_is_right
table_lem x h = ground (arith, every_below-true entry_is_right 256 x h table_checked)

-- A number is the exclusive or of its low byte and the rest.
split_byte : (x : ℕ) → bit_xor (x % 2 ^ 8) (x / 2 ^ 8 * 2 ^ 8) ≡ x
split_byte x = by_parts _ _ high low
  where
    by_parts : (a b : ℕ) → a / 2 ^ 8 ≡ b / 2 ^ 8 → a % 2 ^ 8 ≡ b % 2 ^ 8 → a ≡ b
    by_parts a b p q = omega arith

    high : bit_xor (x % 2 ^ 8) (x / 2 ^ 8 * 2 ^ 8) / 2 ^ 8 ≡ x / 2 ^ 8
    high =
        bit_xor-div 8 (x % 2 ^ 8) (x / 2 ^ 8 * 2 ^ 8)
        ∙ ap₂ bit_xor (omega arith) (omega arith)
        ∙ bit_xor_comm 0 (x / 2 ^ 8)
        ∙ bit_xor-zero (x / 2 ^ 8)

    low : bit_xor (x % 2 ^ 8) (x / 2 ^ 8 * 2 ^ 8) % 2 ^ 8 ≡ x % 2 ^ 8
    low =
        bit_xor-mod 8 (x % 2 ^ 8) (x / 2 ^ 8 * 2 ^ 8)
        ∙ ap₂ bit_xor (omega arith) (omega arith)
        ∙ bit_xor-zero (x % 2 ^ 8)

-- Eight steps of the division are one step by the table.
table_step : (x : ℕ) → crc_bits 8 x ≡ bit_xor (get_or crc_32_tab (x % 2 ^ 8) 0) (x / 2 ^ 8)
table_step x =
    ap (crc_bits 8) (sym (split_byte x))
    ∙ crc_bits-bit_xor 8 (x % 2 ^ 8) (x / 2 ^ 8 * 2 ^ 8)
    ∙ ap₂ bit_xor (sym (table_lem (x % 2 ^ 8) (omega arith)).0) (crc_bits_shift 8 (x / 2 ^ 8))

-- The sign bits of the widened `char` do not reach the table's index.
index_lem : (r o : ℕ) → o < 256 → bit_xor r (sign_extend o) % 2 ^ 8 ≡ bit_xor r o % 2 ^ 8
index_lem r o h =
    bit_xor-mod 8 r (sign_extend o)
    ∙ ap (bit_xor (r % 2 ^ 8)) (ground arith)
    ∙ sym (bit_xor-mod 8 r o)

high_lem : (r o : ℕ) → o < 256 → bit_xor r o / 2 ^ 8 ≡ r / 2 ^ 8
high_lem r o h =
    bit_xor-div 8 r o ∙ ap (bit_xor (r / 2 ^ 8)) (omega arith) ∙ bit_xor-zero (r / 2 ^ 8)

updc32-eq-crc_bits : (o r : ℕ) → o < 256 → updc32 o r ≡ crc_bits 8 (bit_xor r o)
unfolding updc32
updc32-eq-crc_bits o r h =
    ap₂ bit_xor
      (ap (λ i. get_or crc_32_tab i 0)
        (bit_and_mask 8 (bit_xor r (sign_extend o)) ∙ index_lem r o h))
      (sym (high_lem r o h))
    ∙ sym (table_step (bit_xor r o))

-- Every number of a list is a byte.
abbrev pub IsBytes : List ℕ → Type 0
IsBytes [] = Unit {0}
IsBytes (b ∷ bs) = (b < 256) × IsBytes bs

crc32_from-reference_from :
    (r : ℕ) (buf : List ℕ) → IsBytes buf → crc32_from r buf ≡ reference_from r buf
unfolding crc32_from reference_from
crc32_from-reference_from r [] v = refl
crc32_from-reference_from r (o ∷ buf) v =
    ap (λ t. crc32_from t buf) (updc32-eq-crc_bits o r v.0)
    ∙ crc32_from-reference_from (crc_bits 8 (bit_xor r o)) buf v.1

-- On every buffer of bytes, the table-driven `crc32buf` is the bit-by-bit division by the
-- reflected polynomial 0xedb88320.
pub crc32buf-reference : (buf : List ℕ) → IsBytes buf → crc32buf buf ≡ reference buf
unfolding crc32buf reference
crc32buf-reference buf v = ap (λ t. 0xffff_ffff - t) (crc32_from-reference_from 0xffff_ffff buf v)

-- The checksum fits the `uint32_t` of the structs.
pub crc32buf-lt : (buf : List ℕ) → crc32buf buf < 2 ^ 32
unfolding crc32buf
crc32buf-lt buf = omega arith
