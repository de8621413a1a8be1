-- ===== src/Put.antt =====
-- src/lib/write.c: putting a padded block, a hint block with its backup, and a data block.
pub mod Laws
pub mod Termination
pub mod ReadBack
pub mod Block
use blockdevlogger.Base.{
  ℕ, ◌-◌, ◌%◌, ◌^◌, Bool, true, false, Option, none, some, List, ◌++◌, ◌==◌, if◌then◌else◌, length,
  replicate, u32, int_to_u64,
}
use blockdevlogger.Layout.{
  Header, BlockHeader, HintBlock, blank_hint_block, encode_block_header, encode_hint_block,
}
use blockdevlogger.Device.{File, Ret, M, pure, ◌>>=◌, ◌>>◌, and_then, or_return, fail}
use blockdevlogger.Io.{io_write_block}
use blockdevlogger.Crypt.{crypt_hash_data}
use blockdevlogger.Blocks.{ReadHintBlock, block_get_valid_hintblock}

-- `pos` is an `int`, which `io_write_block` takes as `unsigned long`. The callers see to it that the
-- data is no longer than `total_size`.
pub write_put_and_pad_block : ℕ → List ℕ → ℕ → ℕ → M (Unit {0})
write_put_and_pad_block pos bytes pad total_size =
    let padding = replicate (total_size - length bytes) pad in
    or_return 1 (io_write_block (int_to_u64 pos) bytes padding)

-- The fields of the new hint block: those of a valid old one are kept.
pub new_hint_block : ReadHintBlock → ℕ → ℕ → HintBlock
new_hint_block old block_position previous_tagged_block_pos =
    let kept = if old.result == 0 then old.hintblock else blank_hint_block in
    record kept {
      previous_block_pos = block_position;
      previous_tagged_block_pos =
          if previous_tagged_block_pos == 0
          then kept.previous_tagged_block_pos
          else previous_tagged_block_pos;
      hash = 0;
    }

-- `write_update_hintblock` for one position, without the backup.
pub put_hintblock : ℕ → ℕ → ℕ → Header → M (Unit {0})
put_hintblock block_position previous_tagged_block_pos hintblock_position header = do
  old ← or_return 1 (block_get_valid_hintblock hintblock_position header)
  let hint_block = new_hint_block old block_position previous_tagged_block_pos
  elim (crypt_hash_data (encode_hint_block hint_block) header.default_hash_algorithm) [
    | none ↦ fail 1
    | some hash ↦ or_return 1 (
        write_put_and_pad_block hintblock_position
          (encode_hint_block (record hint_block { hash = hash })) header.pad_character
          header.block_size)
  ]

-- The call for the backup has the same two positions, so that it writes no backup of its own.
pub write_update_hintblock : ℕ → ℕ → ℕ → ℕ → Header → M (Unit {0})
write_update_hintblock block_position previous_tagged_block_pos hintblock_position
      hintblock_backup_position header =
    do
      put_hintblock block_position previous_tagged_block_pos hintblock_position header
      if hintblock_backup_position == hintblock_position
          then pure tt
          else or_return 1 (
              put_hintblock block_position previous_tagged_block_pos hintblock_backup_position
                header)

-- `block_position` is an `unsigned int`.
pub write_checksum_and_put_block : BlockHeader → List ℕ → Header → ℕ → M (Unit {0})
write_checksum_and_put_block block_header bytes header block_position =
    elim (crypt_hash_data (encode_block_header (record block_header { hash = 0 }) ++ bytes)
      header.default_hash_algorithm) [
        | none ↦ fail 1
        | some hash ↦ or_return 1 (
            write_put_and_pad_block (u32 block_position)
              (encode_block_header (record block_header { hash = hash }) ++ bytes)
              header.pad_character header.block_size)
      ]
