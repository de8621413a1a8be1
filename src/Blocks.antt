-- ===== src/Blocks.antt =====
-- src/lib/blocks.h and blocks.c: where blocks and hint blocks lie, and reading one with its checks.
pub mod Laws
pub mod Termination
use blockdevlogger.Base.{
  ℕ, ◌≡◌, Bool, true, false, Option, none, some, List, ltb, if◌then◌else◌, drop,
}
use blockdevlogger.Layout.{
  Header, BlockHeader, HintBlock, size_of_header, size_of_block_header, size_of_hint_block,
  blank_block_header, blank_hint_block, decode_header, decode_block_header, decode_hint_block,
}
use blockdevlogger.Device.{File, Ret, M, pure, ◌>>=◌, and_then, or_return, fail, leave}
use blockdevlogger.Io.{io_read_block}
use blockdevlogger.Validate.{validate_block, validate_hintblock, validate_header}

-- struct bdl_hintblock_state; `valid` is 0 or 1 there.
pub record HintblockState : Type 0 where
  pub valid : Bool
  pub blockstart_min : ℕ
  pub blockstart_max : ℕ
  pub location : ℕ
  pub backup_location : ℕ
  pub highest_timestamp : ℕ
  pub hintblock : HintBlock

-- struct bdl_block_location
pub record BlockLocation : Type 0 where
  pub block_location : ℕ
  pub hintblock_state : HintblockState

-- What `memset(…, '\0', …)` leaves.
abbrev pub blank_state : HintblockState
blank_state = record {
  valid = false;
  blockstart_min = 0;
  blockstart_max = 0;
  location = 0;
  backup_location = 0;
  highest_timestamp = 0;
  hintblock = blank_hint_block;
}

abbrev pub blank_location : BlockLocation
blank_location = record { block_location = 0; hintblock_state = blank_state }

-- A block as it was read: the result of its validation, its header, and the bytes behind it.
pub record ReadBlock : Type 0 where
  pub result : ℕ
  pub block_header : BlockHeader
  pub block_data : List ℕ

pub record ReadHintBlock : Type 0 where
  pub result : ℕ
  pub hintblock : HintBlock

pub record ReadHeader : Type 0 where
  pub result : ℕ
  pub header : Header

-- A failed checksum computation counts as an invalid block here; the header is then not stored, and
-- not looked at.
pub block_hintblock_get_last_block : HintblockState → Header → M ReadBlock
block_hintblock_get_last_block state master_header = do
  bytes ← or_return 1 (io_read_block state.hintblock.previous_block_pos master_header.block_size)
  elim (validate_block bytes master_header) [
    | none ↦ pure (record { result = 1; block_header = blank_block_header; block_data = bytes })
    | some result ↦ pure (record {
      result = result;
      block_header = decode_block_header bytes;
      block_data = drop size_of_block_header bytes;
    })
  ]

-- `data_length` is the size of the caller's buffer.
pub block_get_validate_block : ℕ → Header → ℕ → M ReadBlock
block_get_validate_block pos master_header data_length =
    if ltb data_length master_header.block_size then leave else do
      bytes ← or_return 1 (io_read_block pos master_header.block_size)
      elim (validate_block bytes master_header) [
        | none ↦ fail 1
        | some result ↦ pure (record {
          result = result;
          block_header = decode_block_header bytes;
          block_data = drop size_of_block_header bytes;
        })
      ]

pub block_get_valid_hintblock : ℕ → Header → M ReadHintBlock
block_get_valid_hintblock pos master_header = do
  bytes ← or_return 1 (io_read_block pos size_of_hint_block)
  let hintblock = decode_hint_block bytes
  elim (validate_hintblock hintblock master_header) [
    | none ↦ fail 1
    | some result ↦ pure (record { result = result; hintblock = hintblock })
  ]

-- The size of the file goes to `validate_header` as an `int`.
pub block_get_validate_master_header : M ReadHeader
block_get_validate_master_header f =
    (do
      bytes ← or_return 1 (io_read_block 0 size_of_header)
      let header = decode_header bytes
      elim (validate_header header f.size) [
        | none ↦ fail 1
        | some result ↦ pure (record { result = result; header = header })
      ])
      f
