-- ===== src/Io/Open/Size.antt =====
-- src/lib/io.c: the size of an open device, and the size behind the `@`.
use blockdevlogger.Base.{
  ℕ, suc, ◌+◌, ◌-◌, ◌*◌, ◌^◌, ◌≤◌, ◌<◌, ◌≡◌, refl, sym, ap, ◌∙◌, Bool, true, false, Bool-cases, ◌⊎◌,
  inl, inr, Option, none, some, List, [], ◌∷◌, ◌++◌, leb, ltb, ltb→le, ◌==◌, ◌&&◌, ◌||◌,
  if◌then◌else◌, length, u64, arith,
}
use mathlib.Core.Option
use native.Mathlib.Nat.{pow-suc, add-mul, mul_assoc}
use blockdevlogger.Device.{Host, File, Memory}
use blockdevlogger.Io.Open.{
  Os, io_get_file_size, split_at_sign, is_digit, digits_from, is_space, skip_spaces, signed_digits,
  as_unsigned_long, strtoul, multiplier, multiplied, custom_size, chosen_size, mapped, io_open,
}

-- The file, if there is one, is no larger than what was reported.
pub IsWithin : Option ℕ → Option File → Type 0
IsWithin reported none = Unit
IsWithin none (some f) = ⊥
IsWithin (some n) (some f) = f.size ≤ n

mapped-IsWithin :
    (os : Os) (path : List ℕ) (no_mmap : Bool) (opened : Host × Memory) (custom : Option (List ℕ))
    (n : ℕ)
    → IsWithin (some n) (Option.map (mapped os path no_mmap opened) (chosen_size custom n))
unfolding IsWithin chosen_size mapped
mapped-IsWithin os path no_mmap opened none n = omega arith
mapped-IsWithin os path no_mmap opened (some text) n = of_custom (custom_size text)
  where
    of_custom :
        (c : Option ℕ)
        → IsWithin (some n) (
            Option.map (mapped os path no_mmap opened) (elim c as (λ x. Option ℕ) [
              | none ↦ none
              | some custom ↦ if ltb n custom then none else some custom
            ]))
    of_custom none = tt
    of_custom (some custom) = elim (Bool-cases (ltb n custom)) [
      | inl large ↦ rw large tt
      | inr small ↦ rw small (ltb→le n custom small)
    ]

-- A device that is opened never gets a size above the one that the system reports for its path
-- without the `@` part; it is not opened where the system reports none.
pub io_open-IsWithin :
    (os : Os) (path : List ℕ) (no_mmap : Bool)
    → IsWithin (io_get_file_size os (split_at_sign path).0) (io_open os path no_mmap)
unfolding io_open IsWithin
io_open-IsWithin os path no_mmap = of_opened (os.fopen new_path) (io_get_file_size os new_path)
  where
    new_path : List ℕ
    new_path = (split_at_sign path).0

    of_opened :
        (o : Option (Host × Memory)) (r : Option ℕ)
        → IsWithin r (elim o as (λ x. Option File) [
          | none ↦ none
          | some opened ↦ elim r as (λ x. Option File) [
            | none ↦ none
            | some size ↦
                Option.map
                  (mapped os new_path no_mmap opened)
                  (chosen_size (split_at_sign path).1 size)
          ]
        ])
    of_opened none none = tt
    of_opened none (some n) = tt
    of_opened (some opened) none = tt
    of_opened (some opened) (some n) =
        mapped-IsWithin os new_path no_mmap opened (split_at_sign path).1 n

-- The value of decimal digits, the highest one first.
unfoldable pub decimal : List ℕ → ℕ
decimal [] = 0
decimal (c ∷ digits) = (c - b'0') * 10 ^ length digits + decimal digits

unfoldable pub AllDigits : List ℕ → Type 0
AllDigits [] = Unit
AllDigits (c ∷ digits) = (b'0' ≤ c) × (c ≤ b'9') × AllDigits digits

tenfold : (n : ℕ) → 10 ^ suc n ≡ 10 * 10 ^ n
tenfold n = omega (arith, pow-suc 10 n)

digits_from-decimal :
    (digits rest : List ℕ) (n : ℕ)
    → AllDigits digits
    → ((k : ℕ) → digits_from k rest ≡ (k, rest))
    → digits_from n (digits ++ rest) ≡ (n * 10 ^ length digits + decimal digits, rest)
unfolding digits_from decimal AllDigits is_digit
digits_from-decimal [] rest n h stops = stops n ∙ ap (λ (k : ℕ). (k, rest)) (omega arith)
digits_from-decimal (c ∷ digits) rest n h stops =
    let digit : (leb b'0' c && leb c b'9') ≡ true = ground (arith, h.0, h.1) in
    let shift : (n * 10 + (c - b'0')) * 10 ^ length digits + decimal digits
        ≡ n * 10 ^ suc (length digits) + ((c - b'0') * 10 ^ length digits + decimal digits) =
      omega (
        arith,
        add-mul (n * 10) (c - b'0') (10 ^ length digits),
        mul_assoc n 10 (10 ^ length digits),
        ap (λ k. n * k) (tenfold (length digits)),
      ) in
    rw digit (
      digits_from-decimal digits rest (n * 10 + (c - b'0')) h.2 stops
      ∙ ap (λ (k : ℕ). (k, rest)) shift)

skip_spaces-digit : (c : ℕ) (text : List ℕ) → b'0' ≤ c → skip_spaces (c ∷ text) ≡ c ∷ text
unfolding skip_spaces is_space
skip_spaces-digit c text h =
    let other : (c == b' ' || (leb 9 c && leb c 13)) ≡ false = ground (arith, h) in rw other refl

signed_digits-value :
    (c : ℕ) (text rest : List ℕ) (n : ℕ)
    → b'0' ≤ c
    → c ≤ b'9'
    → digits_from 0 (c ∷ text) ≡ (n, rest)
    → n < 2 ^ 64
    → signed_digits false (c ∷ text) ≡ some (n, rest)
unfolding signed_digits is_digit as_unsigned_long
signed_digits-value c text rest n low high value small =
    let digit : (leb b'0' c && leb c b'9') ≡ true = ground (arith, low, high) in
    let fits : leb (2 ^ 64) n ≡ false = ground (arith, small) in rw digit (rw value (rw fits refl))

strtoul-decimal :
    (c : ℕ) (digits suffix : List ℕ)
    → AllDigits (c ∷ digits)
    → decimal (c ∷ digits) < 2 ^ 64
    → ((k : ℕ) → digits_from k suffix ≡ (k, suffix))
    → strtoul (c ∷ (digits ++ suffix)) ≡ some (decimal (c ∷ digits), suffix)
unfolding strtoul AllDigits
strtoul-decimal c digits suffix h small stops =
    let minus : (c == b'-') ≡ false = ground (arith, h.0) in
    let plus : (c == b'+') ≡ false = ground (arith, h.0) in rw (strtoul, skips, minus, plus) signed
  where
    value : digits_from 0 (c ∷ (digits ++ suffix)) ≡ (decimal (c ∷ digits), suffix)
    value =
        digits_from-decimal (c ∷ digits) suffix 0 h stops
        ∙ ap (λ (k : ℕ). (k, suffix)) (omega arith)

    skips : skip_spaces (c ∷ (digits ++ suffix)) ≡ c ∷ (digits ++ suffix)
    skips = skip_spaces-digit c (digits ++ suffix) h.0

    signed : signed_digits false (c ∷ (digits ++ suffix)) ≡ some (decimal (c ∷ digits), suffix)
    signed =
        signed_digits-value c (digits ++ suffix) suffix (decimal (c ∷ digits)) h.0 h.1 value small

-- The power of two that a suffix stands for: `K`, `M` and `G` for 2^10, 2^20 and 2^30, in either case,
-- and 1 for no suffix. Any other suffix is a syntax error.
unfoldable pub unit_exponent : List ℕ → Option ℕ
unit_exponent [] = some 0
unit_exponent (c ∷ []) =
    if c == b'K' || c == b'k'
    then some 10
    else if c == b'M' || c == b'm'
    then some 20
    else if c == b'G' || c == b'g'
    then some 30
    else none
unit_exponent (c ∷ d ∷ rest) = none

-- The digits end where the suffix begins.
unfoldable pub StartsNoDigit : List ℕ → Type 0
StartsNoDigit [] = Unit
StartsNoDigit (c ∷ rest) = (c < b'0') ⊎ (b'9' < c)

-- What a text stands for: the value times the unit, as a 64-bit number.
abbrev pub in_units : ℕ → Option ℕ → Option ℕ
in_units n exponent = Option.map (λ e. u64 (n * 2 ^ e)) exponent

stops : (suffix : List ℕ) (k : ℕ) → StartsNoDigit suffix → digits_from k suffix ≡ (k, suffix)
unfolding StartsNoDigit digits_from is_digit
stops [] k h = refl
stops (c ∷ rest) k h =
    let no_digit : (leb b'0' c && leb c b'9') ≡ false = ground (arith, h) in rw no_digit refl

-- What is left behind the multiplier decides whether there is a size.
multiplied_by :
    (n : ℕ) (suffix : List ℕ) (m : ℕ × List ℕ)
    → multiplier suffix ≡ m
    → multiplied (n, suffix)
      ≡ (elim m.1 as (λ x. Option ℕ) [ [] ↦ some (u64 (n * m.0)) | _ ∷ _ ↦ none ])
unfolding multiplied
multiplied_by n suffix m e =
    ap
      (λ (k : ℕ × List ℕ). elim k.1 as (λ x. Option ℕ) [ [] ↦ some (u64 (n * k.0)) | _ ∷ _ ↦ none ])
      e

multiplier_letter :
    (c : ℕ) (rest : List ℕ)
    → ((e : ℕ) × (multiplier (c ∷ rest) ≡ (2 ^ e, rest)) × (unit_exponent (c ∷ []) ≡ some e))
      ⊎ (multiplier (c ∷ rest) ≡ (1, c ∷ rest)) × (unit_exponent (c ∷ []) ≡ none)
unfolding multiplier unit_exponent
multiplier_letter c rest = elim (Bool-cases (c == b'G' || c == b'g')) [
  | inl giga ↦
      let k : (c == b'K' || c == b'k') ≡ false = ground (arith, giga) in
      let m : (c == b'M' || c == b'm') ≡ false = ground (arith, giga) in
      inl (30, rw giga refl, rw (k, m, giga) refl)
  | inr g ↦ elim (Bool-cases (c == b'M' || c == b'm')) [
    | inl mega ↦
        let k : (c == b'K' || c == b'k') ≡ false = ground (arith, mega) in
        inl (20, rw (g, mega) refl, rw (k, mega) refl)
    | inr m ↦ elim (Bool-cases (c == b'K' || c == b'k')) [
      | inl kilo ↦ inl (10, rw (g, m, kilo) refl, rw kilo refl)
      | inr k ↦ inr (rw (g, m, k) refl, rw (k, m, g) refl)
    ]
  ]
]

multiplied-units :
    (n : ℕ) (suffix : List ℕ) → multiplied (n, suffix) ≡ in_units n (unit_exponent suffix)
unfolding multiplier unit_exponent
multiplied-units n [] = multiplied_by n [] (1, []) refl
multiplied-units n (c ∷ []) = elim (multiplier_letter c []) [
  | inl (e, unit, exponent) ↦
      multiplied_by n (c ∷ []) (2 ^ e, []) unit ∙ sym (ap (in_units n) exponent)
  | inr (other, no_exponent) ↦
      multiplied_by n (c ∷ []) (1, c ∷ []) other ∙ sym (ap (in_units n) no_exponent)
]
multiplied-units n (c ∷ d ∷ rest) = elim (multiplier_letter c (d ∷ rest)) [
  | inl (e, unit, exponent) ↦ multiplied_by n (c ∷ d ∷ rest) (2 ^ e, d ∷ rest) unit
  | inr (other, no_exponent) ↦ multiplied_by n (c ∷ d ∷ rest) (1, c ∷ d ∷ rest) other
]

-- A size of decimal digits, whose value fits 64 bits, with any text behind them that does not begin
-- with a digit: with no text it is the value, with `K`, `M` or `G` in either case the value times
-- 2^10, 2^20 or 2^30 as a 64-bit number, which may wrap, and with any other text it is refused.
pub custom_size-decimal :
    (c : ℕ) (digits suffix : List ℕ)
    → AllDigits (c ∷ digits)
    → decimal (c ∷ digits) < 2 ^ 64
    → StartsNoDigit suffix
    → custom_size (c ∷ (digits ++ suffix)) ≡ in_units (decimal (c ∷ digits)) (unit_exponent suffix)
unfolding custom_size
custom_size-decimal c digits suffix h small ends =
    rw (custom_size, strtoul-decimal c digits suffix h small (λ k. stops suffix k ends))
      (multiplied-units (decimal (c ∷ digits)) suffix)
