-- ===== src/Update.antt =====
-- src/lib/update.c: changing the application data of the blocks that a function of the caller picks.
use blockdevlogger.Base.{ℕ, ◌||◌, not, some, List, take, ltb, ◌==◌, if◌then◌else◌, add64, bit_and}
use blockdevlogger.Layout.{Header}
use blockdevlogger.Device.{M, pure, ◌>>=◌, ◌>>◌, or_return, fail}
use blockdevlogger.Blocks.{BlockLocation, block_get_validate_master_header}
use blockdevlogger.Put.{write_checksum_and_put_block}
use blockdevlogger.Loop.{
  HintCallback, BlockView, BlockCallback, loop_ok, loop_break, block_loop_hintblocks_large_device,
  block_loop_blocks, block_find_oldest_hintblock,
}
use blockdevlogger.Write.{write_err_io, write_err_corrupt}

-- struct bdl_update_info
pub record UpdateInfo : Type 0 where
  pub do_update : ℕ
  pub do_break : ℕ
  pub new_appdata : ℕ

-- struct bdl_update_callback_data; `block_data`, `data` there, points to the whole rest of the block.
pub record UpdateCallbackData : Type 0 where
  pub timestamp : ℕ
  pub application_data : ℕ
  pub data_length : ℕ
  pub block_data : List ℕ

-- struct update_block_loop_data, but for the function `test`, a parameter of what follows.
pub record UpdateLoop : Type 0 where
  pub timestamp_gteq : ℕ
  pub application_data_and : ℕ
  pub result_count : ℕ

module _ (test : UpdateCallbackData → UpdateInfo) where
  -- The write of one block, if `test` asks for it.
  pub update_block : Header → BlockView → UpdateInfo → UpdateLoop → M UpdateLoop
  update_block header view info loop_data =
      if info.do_update == 1
      then or_return 1 (
          write_checksum_and_put_block (record (view.block) { application_data = info.new_appdata })
            (take (view.block).data_length view.block_data) header view.block_position)
        >> pure (record loop_data { result_count = add64 loop_data.result_count 1 })
      else pure loop_data

  pub update_block_loop_callback : Header → BlockCallback UpdateLoop
  update_block_loop_callback header view s =
      let block = view.block in
      let loop_data = s.argument in
      if ltb block.timestamp loop_data.timestamp_gteq
        || bit_and block.application_data loop_data.application_data_and == 0
      then pure (record s { result = loop_ok })
      else let info = test (record {
        timestamp = block.timestamp;
        application_data = block.application_data;
        data_length = block.data_length;
        block_data = view.block_data;
      }) in
        update_block header view info loop_data >>= λ loop_data'. pure (record {
          argument = loop_data';
          result = if info.do_break == 1 then loop_break else loop_ok;
        })

  pub update_hintblock_loop_callback : Header → HintCallback UpdateLoop
  update_hintblock_loop_callback master_header view s =
      let state = s.location.hintblock_state in
      if not state.valid
      then pure (record s { result = loop_break })
      else if ltb state.highest_timestamp (s.argument).timestamp_gteq
      then pure (record s { result = loop_ok })
      else do
        blocks ← or_return 1 (
            block_loop_blocks master_header state (update_block_loop_callback master_header)
              master_header.block_size s.argument)
        pure (record s { argument = blocks.argument; result = blocks.result })

  pub update_from : Header → ℕ → ℕ → BlockLocation → M ℕ
  update_from header timestamp_min application_data_and oldest_location =
      if not oldest_location.hintblock_state.valid then pure 0 else do
        s ← or_return 1 (
            block_loop_hintblocks_large_device header (update_hintblock_loop_callback header)
              (some oldest_location)
              (record {
                timestamp_gteq = timestamp_min;
                application_data_and = application_data_and;
                result_count = 0;
              }))
        pure (s.argument).result_count

  -- The number of blocks that were written, as `*result_final` before it is cut to an `int`.
  pub update_application_data : ℕ → ℕ → M ℕ
  update_application_data timestamp_min application_data_and = do
    master ← or_return write_err_io block_get_validate_master_header
    if not (master.result == 0) then fail write_err_corrupt else do
      oldest_location ← or_return 1 (block_find_oldest_hintblock master.header timestamp_min)
      update_from master.header timestamp_min application_data_and oldest_location
