-- ===== src/Hint/Laws.antt =====
-- src/lib/blocks.c: the state of a hint block that is accepted in its own place.
use blockdevlogger.Base.{
  ℕ, ◌+◌, ◌^◌, ◌≤◌, ◌<◌, ◌≡◌, ◌∙◌, true, le→ltb, if◌then◌else◌, ◌==◌, not, arith,
}
use blockdevlogger.Layout.{Header}
use blockdevlogger.Device.{File, Memory, ok, Works, bind_return_ok}
use blockdevlogger.Io.Block.{FitsSize}
use blockdevlogger.Validate.Laws.{hint_result}
use blockdevlogger.Blocks.{
  HintblockState, block_get_valid_hintblock, block_hintblock_get_last_block,
}
use blockdevlogger.Blocks.Laws.{
  hint_at, read_hint, read_block_at, block_get_valid_hintblock_lem,
  block_hintblock_get_last_block_lem,
}
use blockdevlogger.Hint.{
  initial_state, check_last_block, state_from_primary, block_get_hintblock_state,
}

-- The hint block at `h` is valid, and names a block in its region.
pub record IsIntact (m : Memory) (h blockstart_min blockstart_max : ℕ) : Type 0 where
  pub valid : hint_result (hint_at m h) ≡ 0
  pub low : blockstart_min ≤ (hint_at m h).previous_block_pos
  pub high : (hint_at m h).previous_block_pos ≤ blockstart_max

-- The state with its hint block, before the last block is looked at.
abbrev pub found_state : Memory → ℕ → ℕ → ℕ → HintblockState
found_state m h blockstart_min blockstart_max =
    record (initial_state h blockstart_min blockstart_max) { hintblock = hint_at m h }

-- The state of an intact hint block: it is valid if its last block is, and then has the timestamp
-- of that block.
abbrev pub intact_state : Memory → Header → ℕ → ℕ → ℕ → HintblockState
intact_state m header h blockstart_min blockstart_max =
    let block = read_block_at m (hint_at m h).previous_block_pos header in
    let found = found_state m h blockstart_min blockstart_max in
    if not (block.result == 0)
    then found
    else record found { valid = true; highest_timestamp = (block.block_header).timestamp }

-- A device of a size that the positions of the code can hold, read with algorithm 0.
pub record IsReadable (f : File) (header : Header) : Type 0 where
  pub works : Works f
  pub fits : FitsSize f
  pub algorithm : header.default_hash_algorithm ≡ 0
  pub narrow : header.block_size < 2 ^ 32

check_last_block_lem :
    (h lo hi : ℕ) (header : Header) (f : File)
    → IsReadable f header
    → (hint_at f.contents h).previous_block_pos + header.block_size < f.size
    → check_last_block (found_state f.contents h lo hi) header f ≡ (
      ok (intact_state f.contents header h lo hi),
      record f { seek = (hint_at f.contents h).previous_block_pos },
    )
unfolding check_last_block
check_last_block_lem h lo hi header f r room =
    bind_return_ok 1 (block_hintblock_get_last_block (found_state f.contents h lo hi) header) _ f
      (record f { seek = (hint_at f.contents h).previous_block_pos })
      (read_block_at f.contents (hint_at f.contents h).previous_block_pos header)
      (block_hintblock_get_last_block_lem (found_state f.contents h lo hi) header f r.works r.fits
        room r.narrow r.algorithm)
    ∙ ground arith

-- The state of an intact hint block, found without its backup.
pub block_get_hintblock_state_lem :
    (h lo hi : ℕ) (header : Header) (f : File)
    → IsReadable f header
    → IsIntact f.contents h lo hi
    → h + 24 < f.size
    → hi + header.block_size < f.size
    → block_get_hintblock_state h header lo hi f ≡ (
      ok (intact_state f.contents header h lo hi),
      record f { seek = (hint_at f.contents h).previous_block_pos },
    )
unfolding block_get_hintblock_state state_from_primary
block_get_hintblock_state_lem h lo hi header f r i room room' =
    bind_return_ok 1 (block_get_valid_hintblock h header) _ f (record f { seek = h })
      (read_hint f.contents h)
      (block_get_valid_hintblock_lem h header f r.works r.fits room r.algorithm)
    ∙ rw (i.valid, le→ltb _ _ i.low, le→ltb _ _ i.high)
        (check_last_block_lem h lo hi header (record f { seek = h })
          (record { works = r.works; fits = r.fits; algorithm = r.algorithm; narrow = r.narrow })
          (omega (arith, i.high)))
