-- ===== src/Base/Bytes.antt =====
-- Little-endian fields, as the structs of the program are laid out in memory and on the device.
use Prim.Native.Nat.{ℕ, zero, suc, ◌+◌, ◌*◌, ◌/◌, ◌%◌, ◌^◌, ◌<◌}
use mathlib.Core.Path.{◌≡◌, refl, ap}
use mathlib.Core.List.{List, [], ◌∷◌, ◌++◌}
use native.Mathlib.Omega.{arith}
use native.Mathlib.Nat.{pow-suc}
use blockdevlogger.Base.Lists.{length, take, drop}

-- The `n` low bytes of `x`, lowest first.
abbrev pub le_bytes : ℕ → ℕ → List ℕ
le_bytes zero x = []
le_bytes (suc n) x = x % 256 ∷ le_bytes n (x / 256)

abbrev pub le_value : List ℕ → ℕ
le_value [] = 0
le_value (b ∷ bs) = b + 256 * le_value bs

pub length-le_bytes : (n x : ℕ) → length (le_bytes n x) ≡ n
length-le_bytes zero x = refl
length-le_bytes (suc n) x = ap suc (length-le_bytes n (x / 256))

pub le_value-le_bytes : (n x : ℕ) → x < 256 ^ n → le_value (le_bytes n x) ≡ x
le_value-le_bytes zero x h = omega arith
le_value-le_bytes (suc n) x h =
    omega (arith, le_value-le_bytes n (x / 256) (omega (arith, pow-suc 256 n)), pow-suc 256 n)

-- The field of `n` bytes at offset `off`, read as a number.
abbrev pub field_at : ℕ → ℕ → List ℕ → ℕ
field_at off n bs = le_value (take n (drop off bs))

-- A store of `n` bytes at offset `off`.
unfoldable pub put_field : ℕ → ℕ → ℕ → List ℕ → List ℕ
put_field off n x bs = take off bs ++ le_bytes n x ++ drop (off + n) bs
