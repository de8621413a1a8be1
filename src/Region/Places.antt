-- ===== src/Region/Places.antt =====
-- The places of the entries of a region: in order, and apart from each other and from the backup.
use native.Mathlib.Nat.{mul-le-mul_right}
use blockdevlogger.Base.{ℕ, suc, ◌+◌, ◌*◌, ◌≤◌, ◌<◌, ◌≡◌, ◌≢◌, ◌⊎◌, inl, inr, arith}
use blockdevlogger.Write.Place.{blocks_apart}
use blockdevlogger.Region.{slot}

pub slot-ne : (c n : ℕ) → slot c n ≢ c
unfolding slot
slot-ne c n = ground arith

-- The next entry is in the next block, or behind the backup if that is there.
pub slot-suc :
    (c n : ℕ)
    → (slot c (suc n) ≡ slot c n + 1) × (slot c n + 1 ≢ c)
      ⊎ (slot c (suc n) ≡ slot c n + 2) × (slot c n + 1 ≡ c)
unfolding slot
slot-suc c n = ground arith

slot-lt : (c n k : ℕ) → n < k → slot c n < slot c k
unfolding slot
slot-lt c n k h = ground arith

-- An earlier entry ends before a later one begins.
pub slots_apart : (c n k bs : ℕ) → n < k → slot c n * bs + bs ≤ slot c k * bs
slots_apart c n k bs h =
    let wide : (slot c n + 1) * bs ≤ slot c k * bs =
      mul-le-mul_right bs (omega (arith, slot-lt c n k h)) in
    omega arith

pub slots_le : (c n k bs : ℕ) → n ≤ k → slot c n * bs ≤ slot c k * bs
unfolding slot
slots_le c n k bs h = mul-le-mul_right bs (ground (arith, h))

-- An entry is not in the place of the backup.
pub not_backup : (c n bs : ℕ) → 1 ≤ bs → slot c n * bs ≢ c * bs
not_backup c n bs h e = elim (blocks_apart bs (slot c n) c h (slot-ne c n)) [
  | inl before ↦ omega (arith, before, e, h)
  | inr behind ↦ omega (arith, behind, e, h)
]

pub slot-zero : (c : ℕ) → 1 ≤ c → slot c 0 ≡ 0
unfolding slot
slot-zero c h = ground arith
