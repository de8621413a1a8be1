-- ===== src/Crc32/Xor.antt =====
-- The laws of `^` and `&`, from the one-digit equation of the native operations.
use Prim.Native.Nat.{digits, bitwise, bit_and-bitwise, bit_xor-bitwise, differ}
use native.Mathlib.Nat.{
  le_refl, le_trans, pow-suc, mul_comm, div-div-eq-div-mul, mod-eq-sub-div-mul, div-mul-le_self,
  one-le-pow,
}
use blockdevlogger.Base.{
  ℕ, zero, suc, ◌+◌, ◌-◌, ◌*◌, ◌/◌, ◌%◌, ◌^◌, ◌≤◌, ◌<◌, min, bit_and, bit_xor, ◌≡◌, refl, sym, ◌∙◌,
  ap, ap₂, arith,
}

-- The native operations run over the digits on fuel; enough of it never shows in the result.
module _ (last : ℕ → ℕ) (digit : ℕ → ℕ → ℕ) where
  digits_fuel : (x y k l : ℕ) → x ≤ k → x ≤ l → digits last digit k x y ≡ digits last digit l x y
  digits_fuel zero y zero zero h i = refl
  digits_fuel zero y zero (suc l) h i = refl
  digits_fuel zero y (suc k) zero h i = refl
  digits_fuel zero y (suc k) (suc l) h i = refl
  digits_fuel (suc x) y zero l h i = absurd (omega arith)
  digits_fuel (suc x) y (suc k) zero h i = absurd (omega arith)
  digits_fuel (suc x) y (suc k) (suc l) h i =
      let below : suc x / 2 ≤ x = omega arith in
      rw (
        digits_fuel (suc x / 2) (y / 2) k l (le_trans below (omega arith))
          (le_trans below (omega arith)))

  one_digit :
      (x y : ℕ)
      → bitwise last digit (suc x) y
        ≡ bitwise last digit (suc x / 2) (y / 2) * 2 + digit (suc x % 2) (y % 2)
  one_digit x y =
      let half = suc x / 2 in
      let below : half ≤ x = omega arith in
      omega (arith, digits_fuel half (y / 2) x half below (le_refl half))

differ_parity : (a b : ℕ) → a < 2 → b < 2 → differ a b ≡ (a + b) % 2
differ_parity zero zero p q = refl
differ_parity zero (suc zero) p q = refl
differ_parity zero (suc (suc b)) p q = absurd (omega arith)
differ_parity (suc zero) zero p q = refl
differ_parity (suc zero) (suc zero) p q = refl
differ_parity (suc zero) (suc (suc b)) p q = absurd (omega arith)
differ_parity (suc (suc a)) b p q = absurd (omega arith)

zero-bit_xor : (b : ℕ) → bit_xor 0 b ≡ b
zero-bit_xor b = simp bit_xor-bitwise

bit_xor_step : (a b : ℕ) → bit_xor a b ≡ bit_xor (a / 2) (b / 2) * 2 + (a + b) % 2
bit_xor_step zero b = omega (arith, zero-bit_xor b, zero-bit_xor (b / 2))
bit_xor_step (suc a) b = simp bit_xor-bitwise (
    one_digit (λ y. y) differ a b
    ∙ omega (arith, differ_parity (suc a % 2) (b % 2) (omega arith) (omega arith)))

bit_and_digit : (x y : ℕ) → bit_and x y ≡ min (x % 2) (y % 2) + 2 * bit_and (x / 2) (y / 2)
bit_and_digit zero y = simp bit_and-bitwise (omega arith)
bit_and_digit (suc x) y = simp bit_and-bitwise (omega (arith, one_digit (λ rest. 0) min x y))

-- Half and parity of an exclusive or.
pub bit_xor_half : (a b : ℕ) → bit_xor a b / 2 ≡ bit_xor (a / 2) (b / 2)
bit_xor_half a b = omega (arith, bit_xor_step a b)

pub bit_xor_parity : (a b : ℕ) → bit_xor a b % 2 ≡ (a + b) % 2
bit_xor_parity a b = omega (arith, bit_xor_step a b)

-- Two numbers with the same half and parity are equal.
halves : (x y : ℕ) → x / 2 ≡ y / 2 → x % 2 ≡ y % 2 → x ≡ y
halves x y p q = omega arith

bit_xor_comm_up_to : (n a b : ℕ) → a ≤ n → b ≤ n → bit_xor a b ≡ bit_xor b a
bit_xor_comm_up_to zero zero zero p q = refl
bit_xor_comm_up_to zero (suc a) b p q = absurd (omega arith)
bit_xor_comm_up_to zero zero (suc b) p q = absurd (omega arith)
bit_xor_comm_up_to (suc n) a b p q = omega (
  arith,
  bit_xor_step a b,
  bit_xor_step b a,
  bit_xor_comm_up_to n (a / 2) (b / 2) (omega arith) (omega arith),
)

pub bit_xor_comm : (a b : ℕ) → bit_xor a b ≡ bit_xor b a
bit_xor_comm a b = bit_xor_comm_up_to (a + b) a b (omega arith) (omega arith)

bit_xor_self_up_to : (n a : ℕ) → a ≤ n → bit_xor a a ≡ 0
bit_xor_self_up_to zero zero p = refl
bit_xor_self_up_to zero (suc a) p = absurd (omega arith)
bit_xor_self_up_to (suc n) a p =
    omega (arith, bit_xor_step a a, bit_xor_self_up_to n (a / 2) (omega arith))

pub bit_xor_self : (a : ℕ) → bit_xor a a ≡ 0
bit_xor_self a = bit_xor_self_up_to a a (le_refl a)

bit_and-zero_below : (n a : ℕ) → a ≤ n → bit_and a 0 ≡ 0
bit_and-zero_below zero zero h = refl
bit_and-zero_below zero (suc a) h = absurd (omega arith)
bit_and-zero_below (suc n) a h =
    omega (arith, bit_and_digit a 0, bit_and-zero_below n (a / 2) (omega arith))

bit_and-zero : (x : ℕ) → bit_and x 0 ≡ 0
bit_and-zero x = bit_and-zero_below x x (le_refl x)

bit_xor_assoc_up_to :
    (n a b c : ℕ) → a ≤ n → b ≤ n → c ≤ n → bit_xor (bit_xor a b) c ≡ bit_xor a (bit_xor b c)
bit_xor_assoc_up_to zero zero b c p q r = rw (zero-bit_xor b, zero-bit_xor (bit_xor b c))
bit_xor_assoc_up_to zero (suc a) b c p q r = absurd (omega arith)
bit_xor_assoc_up_to (suc n) a b c p q r =
    halves _ _
      (rw
        (
          bit_xor_half (bit_xor a b) c,
          bit_xor_half a b,
          bit_xor_half a (bit_xor b c),
          bit_xor_half b c,
        )
        (bit_xor_assoc_up_to n (a / 2) (b / 2) (c / 2) (omega arith) (omega arith) (omega arith)))
      (omega (
        arith,
        bit_xor_parity (bit_xor a b) c,
        bit_xor_parity a b,
        bit_xor_parity a (bit_xor b c),
        bit_xor_parity b c,
      ))

pub bit_xor_assoc : (a b c : ℕ) → bit_xor (bit_xor a b) c ≡ bit_xor a (bit_xor b c)
bit_xor_assoc a b c =
    bit_xor_assoc_up_to (a + b + c) a b c (omega arith) (omega arith) (omega arith)

pub bit_xor-zero : (a : ℕ) → bit_xor a 0 ≡ a
bit_xor-zero a = bit_xor_comm a 0 ∙ zero-bit_xor a

-- An exclusive or needs no more digits than its operands.
pub bit_xor-lt : (k a b : ℕ) → a < 2 ^ k → b < 2 ^ k → bit_xor a b < 2 ^ k
bit_xor-lt zero zero zero p q = omega (arith, bit_xor-zero 0)
bit_xor-lt zero (suc a) b p q = absurd (omega arith)
bit_xor-lt zero zero (suc b) p q = absurd (omega arith)
bit_xor-lt (suc k) a b p q = omega (
  arith,
  pow-suc 2 k,
  bit_xor_step a b,
  bit_xor-lt k (a / 2) (b / 2) (omega (arith, pow-suc 2 k)) (omega (arith, pow-suc 2 k)),
)

-- Division and remainder by twice a number, one binary digit first.
div_double : (n m : ℕ) → n / (m * 2) ≡ n / 2 / m
div_double n m = rw mul_comm (sym (div-div-eq-div-mul n 2 m))

mod_double : (n m : ℕ) → n % (m * 2) ≡ n / 2 % m * 2 + n % 2
mod_double n m = omega (
  arith,
  div_double n m,
  mod-eq-sub-div-mul n (m * 2),
  mod-eq-sub-div-mul (n / 2) m,
  ap (λ (q : ℕ). q * m) (div_double n m),
  div-mul-le_self (n / 2) m,
)

-- The low `k` digits of an exclusive or, and the rest.
pub bit_xor-div : (k a b : ℕ) → bit_xor a b / 2 ^ k ≡ bit_xor (a / 2 ^ k) (b / 2 ^ k)
bit_xor-div zero a b = rw (by_one a, by_one b, by_one (bit_xor a b))
  where
    by_one : (n : ℕ) → n / 2 ^ 0 ≡ n
    by_one n = omega arith
bit_xor-div (suc k) a b =
    rw
      (
        pow-suc 2 k,
        div_double (bit_xor a b) (2 ^ k),
        div_double a (2 ^ k),
        div_double b (2 ^ k),
        bit_xor_half a b,
      )
      (bit_xor-div k (a / 2) (b / 2))

half_mod_double : (n m : ℕ) → n % (m * 2) / 2 ≡ n / 2 % m
half_mod_double n m = omega (arith, mod_double n m)

mod_double_xor :
    (m a b : ℕ)
    → bit_xor (a / 2) (b / 2) % m ≡ bit_xor (a / 2 % m) (b / 2 % m)
    → bit_xor a b % (m * 2) ≡ bit_xor (a % (m * 2)) (b % (m * 2))
mod_double_xor m a b ih =
    halves _ _
      (rw
        (
          bit_xor_half (a % (m * 2)) (b % (m * 2)),
          half_mod_double (bit_xor a b) m,
          half_mod_double a m,
          half_mod_double b m,
          bit_xor_half a b,
        )
        ih)
      (omega (
        arith,
        mod_double (bit_xor a b) m,
        mod_double a m,
        mod_double b m,
        bit_xor_parity a b,
        bit_xor_parity (a % (m * 2)) (b % (m * 2)),
      ))

pub bit_xor-mod : (k a b : ℕ) → bit_xor a b % 2 ^ k ≡ bit_xor (a % 2 ^ k) (b % 2 ^ k)
bit_xor-mod zero a b = omega (arith, bit_xor-zero 0, ap₂ bit_xor (by_one a) (by_one b))
  where
    by_one : (n : ℕ) → n % 2 ^ 0 ≡ 0
    by_one n = omega arith
bit_xor-mod (suc k) a b =
    rw (pow-suc 2 k) (mod_double_xor (2 ^ k) a b (bit_xor-mod k (a / 2) (b / 2)))

-- A mask of `k` ones is the remainder by `2 ^ k`.
pub bit_and_mask : (k a : ℕ) → bit_and a (2 ^ k - 1) ≡ a % 2 ^ k
bit_and_mask zero a = omega (arith, bit_and-zero a)
bit_and_mask (suc k) a = omega (
  arith,
  pow-suc 2 k,
  one-le-pow k 2,
  bit_and_digit a (2 ^ suc k - 1),
  ap (bit_and (a / 2)) half_mask,
  bit_and_mask k (a / 2),
  mod_double a (2 ^ k),
  ap (λ (t : ℕ). a % t) (pow-suc 2 k),
)
  where
    half_mask : (2 ^ suc k - 1) / 2 ≡ 2 ^ k - 1
    half_mask = omega (arith, pow-suc 2 k, one-le-pow k 2)
