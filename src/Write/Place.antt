-- ===== src/Write/Place.antt =====
-- src/lib/write.c: where the next block goes, and its timestamp.
use blockdevlogger.Base.{
  ℕ, ap, ◌+◌, ◌*◌, ◌^◌, ◌≤◌, ◌<◌, ◌≡◌, ◌≢◌, ◌⊎◌, inl, inr, Bool-cases, ltb→lt, ltb→le, true, false,
  ltb, arith,
}
use native.Mathlib.Nat.{mul-le-mul_right}
use blockdevlogger.Layout.{Header}
use blockdevlogger.Device.{File}
use blockdevlogger.Blocks.{BlockLocation, HintblockState}
use blockdevlogger.Write.PutAt.{IsApart, IsPlaced}
use blockdevlogger.Write.{next_block, write_check_free_hintblock}

pub blocks_apart : (bs a c : ℕ) → 1 ≤ bs → a ≢ c → (a * bs + bs ≤ c * bs) ⊎ (c * bs + bs ≤ a * bs)
blocks_apart bs a c h ne = elim (Bool-cases (ltb a c)) [
  | inl lt ↦
      let wider : (a + 1) * bs ≤ c * bs = mul-le-mul_right bs (omega (arith, ltb→lt a c lt)) in
      inl (omega arith)
  | inr le ↦
      let wider : (c + 1) * bs ≤ a * bs = mul-le-mul_right bs (omega (arith, ltb→le a c le)) in
      inr (omega arith)
]

-- A region of whole blocks on the device `f`, with its hint block at the end, and with its backup
-- hint block at the block `c`, not the first one nor the last one. The last block that was written
-- is the block `a`. All positions lie below 2^31.
pub record IsRegion (header : Header) (f : File) (state : HintblockState) (a c : ℕ) : Type 0 where
  pub positive : 1 ≤ header.block_size
  pub largest : header.block_size ≤ 8192
  pub backup : state.backup_location ≡ state.blockstart_min + c * header.block_size
  pub behind : 1 ≤ c
  pub inside : state.backup_location + header.block_size ≤ state.blockstart_max
  pub hint : state.location ≡ state.blockstart_max + header.block_size
  pub low : state.location < 2 ^ 31
  pub room : state.location + header.block_size < f.size
  pub last :
      state.valid ≡ true
      → state.hintblock.previous_block_pos ≡ state.blockstart_min + a * header.block_size
  pub last_in : state.valid ≡ true → state.hintblock.previous_block_pos ≤ state.blockstart_max

module _ (header : Header) (f : File) (location : BlockLocation) (a c : ℕ)
    (r : IsRegion header f location.hintblock_state a c) where
  state : HintblockState
  state = location.hintblock_state

  chosen : ℕ
  chosen = ((write_check_free_hintblock header location).location).block_location

  place_in_region :
      (write_check_free_hintblock header location).result ≡ 0
      → (state.valid ≡ false) × (chosen ≡ state.blockstart_min)
        ⊎ (state.valid ≡ true)
          × (chosen ≡ state.hintblock.previous_block_pos + header.block_size)
          × (chosen ≢ state.backup_location)
          × (chosen ≤ state.blockstart_max)
        ⊎ (state.valid ≡ true)
          × (chosen ≡ state.hintblock.previous_block_pos + 2 * header.block_size)
          × (state.hintblock.previous_block_pos + header.block_size ≡ state.backup_location)
  unfolding chosen state write_check_free_hintblock next_block
  place_in_region free =
      ground (arith, r.positive, r.largest, r.backup, r.behind, r.inside, r.hint, r.low, r.last_in)

  -- The chosen place is a block of the region, not the backup's, and behind the last block.
  IsNext : ℕ → Type 0
  IsNext n =
      (chosen ≡ state.blockstart_min + n * header.block_size)
      × (n ≢ c)
      × (chosen ≤ state.blockstart_max)
      × (state.valid ≡ true → a < n)

  IsNext-in_region : (write_check_free_hintblock header location).result ≡ 0 → (n : ℕ) × IsNext n
  unfolding IsNext state
  IsNext-in_region free = elim (place_in_region free) [
    | inl (v, e) ↦ (
      0,
      (
        omega (arith, e),
        λ q. omega (arith, q, r.behind),
        omega (arith, e, r.inside, r.backup),
        λ w. ground (arith, v, w),
      ),
    )
    | inr (inl (v, e, ne, le)) ↦ (
      a + 1,
      (
        omega (arith, e, r.last v),
        λ q. ne (omega (arith, e, r.last v, r.backup, ap (λ n. n * header.block_size) q)),
        le,
        λ w. omega arith,
      ),
    )
    | inr (inr (v, e, at)) ↦ (
      a + 2,
      (
        omega (arith, e, r.last v),
        λ q. omega (arith, at, r.positive, r.last v, r.backup, ap (λ n. n * header.block_size) q),
        omega (arith, e, at, r.inside),
        λ w. omega arith,
      ),
    )
  ]

  -- In a region of whole blocks below 2^31, with its backup hint block neither first nor last, a place
  -- that is found free lies on the device, apart from the hint block and from the backup.
  pub write_check_free_hintblock-IsPlaced :
      (write_check_free_hintblock header location).result ≡ 0
      → IsPlaced header f
          ((write_check_free_hintblock header location).location).block_location
          location.hintblock_state.location
          location.hintblock_state.backup_location
  unfolding IsNext chosen state
  write_check_free_hintblock-IsPlaced free =
      let next : (n : ℕ) × IsNext n = IsNext-in_region free in
      let apart : IsApart header.block_size (next.0 * header.block_size) (c * header.block_size) =
        blocks_apart header.block_size next.0 c r.positive next.1.1 in
      record {
        low = omega (arith, next.1.2, r.hint, r.low);
        low_hint = r.low;
        low_backup = omega (arith, r.inside, r.hint, r.low);
        room = omega (arith, next.1.2, r.hint, r.room);
        room_hint = r.room;
        room_backup = omega (arith, r.inside, r.hint, r.room);
        block_hint = inl (omega (arith, next.1.2, r.hint));
        block_backup = grind (arith, apart, next.1.0, r.backup);
        hint_backup = inr (omega (arith, r.inside, r.hint));
      }
