-- ===== src/Clear.antt =====
-- src/lib/clear.c: clearing a device by blanking its hint blocks, but not their backups.
use blockdevlogger.Base.{ℕ, not, none, ◌==◌, if◌then◌else◌}
use blockdevlogger.Layout.{Header, blank_hint_block, encode_hint_block}
use blockdevlogger.Device.{M, pure, ◌>>=◌, ◌>>◌, or_return}
use blockdevlogger.Blocks.{block_get_validate_master_header}
use blockdevlogger.Put.{write_put_and_pad_block}
use blockdevlogger.Loop.{HintCallback, block_loop_hintblocks_large_device}

-- The hint block of zeros is written over the one that was found; the loop goes on.
pub clear_hintblocks_loop_callback : Header → HintCallback (Unit {0})
clear_hintblocks_loop_callback master_header view s = do
  or_return 1 (
      write_put_and_pad_block view.hintblock_position (encode_hint_block blank_hint_block)
        master_header.pad_character master_header.block_size)
  pure s

-- The value is `*result`: 0, or what the master header was refused with.
pub clear_dev : M ℕ
clear_dev = do
  master ← or_return 1 block_get_validate_master_header
  if not (master.result == 0) then pure master.result else do
    s ← or_return 1 (
        block_loop_hintblocks_large_device master.header
          (clear_hintblocks_loop_callback master.header) none tt)
    pure s.result
