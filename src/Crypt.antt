-- ===== src/Crypt.antt =====
-- src/lib/crypt.c: the choice of the checksum algorithm, and the comparison with a stored checksum.
use blockdevlogger.Base.{
  ℕ, ◌<◌, ◌^◌, ◌≡◌, refl, ◌↔◌, ◌||◌, Option, none, some, List, [], ◌∷◌, ltb, ◌==◌, if◌then◌else◌,
  length, get_or, sub32, arith,
}
use blockdevlogger.Crc32.{crc32buf}
use blockdevlogger.Crc32.Reference.{crc32buf-lt}

-- The names as lists of characters; the unused last one is empty.
abbrev algorithm_names : List (List ℕ)
algorithm_names = (b'C' ∷ b'R' ∷ b'C' ∷ b'3' ∷ b'2' ∷ []) ∷ [] ∷ []

abbrev hash_algorithm_max : ℕ
hash_algorithm_max = 0

abbrev pub hash_algorithm_crc32 : ℕ
hash_algorithm_crc32 = 0

-- `none` is NULL. Only the first character is looked at.
pub crypt_get_algorithm_name : ℕ → Option (List ℕ)
crypt_get_algorithm_name algorithm =
    let name = get_or algorithm_names algorithm [] in
    if ltb hash_algorithm_max algorithm || (length name == 0) then none else some name

-- `none` is the status 1. The `int` length of the C function is the length of the list, which is not cut here: it
-- stands for lengths below 2^31, and an accepted block size is 8192 at most.
pub crypt_hash_data : List ℕ → ℕ → Option ℕ
unfolding crypt_get_algorithm_name
crypt_hash_data bytes algorithm = elim (crypt_get_algorithm_name algorithm) [
  | none ↦ none
  | some name ↦ if algorithm == hash_algorithm_crc32 then some (crc32buf bytes) else none
]

-- The result is the difference of the two checksums, as the bit pattern of an `int`.
pub crypt_check_hash : List ℕ → ℕ → ℕ → Option ℕ
crypt_check_hash bytes algorithm hash = elim (crypt_hash_data bytes algorithm) [
  | none ↦ none
  | some test ↦ some (sub32 hash test)
]

-- Algorithm 0 is CRC32.
pub crypt_hash_data_crc32 : (bytes : List ℕ) → crypt_hash_data bytes 0 ≡ some (crc32buf bytes)
unfolding crypt_hash_data
crypt_hash_data_crc32 bytes = refl

pub crypt_hash_data_unknown :
    (bytes : List ℕ) (algorithm : ℕ) → 0 < algorithm → crypt_hash_data bytes algorithm ≡ none
unfolding crypt_hash_data
crypt_hash_data_unknown bytes algorithm h = ground arith

pub crypt_check_hash_crc32 :
    (bytes : List ℕ) (hash : ℕ) → crypt_check_hash bytes 0 hash ≡ some (sub32 hash (crc32buf bytes))
unfolding crypt_check_hash
crypt_check_hash_crc32 bytes hash = rw (crypt_hash_data_crc32 bytes, crypt_check_hash) refl

pub crypt_hash_data_of_zero :
    (bytes : List ℕ) (algorithm : ℕ)
    → algorithm ≡ 0
    → crypt_hash_data bytes algorithm ≡ some (crc32buf bytes)
crypt_hash_data_of_zero bytes algorithm e = rw e (crypt_hash_data_crc32 bytes)

pub crypt_check_hash_of_zero :
    (bytes : List ℕ) (algorithm hash : ℕ)
    → algorithm ≡ 0
    → crypt_check_hash bytes algorithm hash ≡ some (sub32 hash (crc32buf bytes))
crypt_check_hash_of_zero bytes algorithm hash e = rw e (crypt_check_hash_crc32 bytes hash)

-- The difference of two checksums is 0 exactly when they are equal.
pub sub32-eq-zero : (a b : ℕ) → a < 2 ^ 32 → b < 2 ^ 32 → (sub32 a b ≡ 0) ↔ (a ≡ b)
sub32-eq-zero a b h k = (λ e. omega arith, λ e. omega arith)

-- With algorithm 0, a 32-bit checksum is accepted (result 0) exactly when it is the CRC32 of the
-- bytes.
pub crypt_check_hash_iff :
    (bytes : List ℕ) (hash : ℕ)
    → hash < 2 ^ 32
    → (crypt_check_hash bytes 0 hash ≡ some 0) ↔ (hash ≡ crc32buf bytes)
crypt_check_hash_iff bytes hash h =
    rw (crypt_check_hash_crc32 bytes hash)
      (ground (arith, sub32-eq-zero hash (crc32buf bytes) h (crc32buf-lt bytes)))
