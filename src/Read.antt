-- ===== src/Read.antt =====
-- src/lib/read.c: reading the blocks from a timestamp on, oldest region first.
pub mod Limit
use blockdevlogger.Base.{
  ℕ, ◌&&◌, not, some, List, [], ◌∷◌, ◌++◌, ltb, leb, ◌==◌, if◌then◌else◌, add64,
}
use blockdevlogger.Layout.{Header, BlockHeader}
use blockdevlogger.Device.{M, pure, ◌>>=◌, or_return, fail, leave}
use blockdevlogger.Blocks.{BlockLocation, block_get_validate_master_header}
use blockdevlogger.Loop.{
  HintLoop, HintCallback, BlockLoop, BlockView, BlockCallback, loop_ok, loop_break,
  block_loop_hintblocks_large_device, block_loop_blocks, block_find_oldest_hintblock,
}

-- What `block_dump` is given to print.
pub record Dump : Type 0 where
  pub block : BlockHeader
  pub block_position : ℕ
  pub block_data : List ℕ

-- struct read_block_loop_data, and what has been printed.
pub record ReadLoop : Type 0 where
  pub timestamp_gteq : ℕ
  pub limit : ℕ
  pub result_count : ℕ
  pub dumped : List Dump

-- The block is printed if it is new enough.
unfoldable pub dump_block : BlockView → ReadLoop → ReadLoop
dump_block view loop_data =
    if leb loop_data.timestamp_gteq (view.block).timestamp
    then record loop_data {
      result_count = add64 loop_data.result_count 1;
      dumped =
          loop_data.dumped
          ++ record {
            block = view.block;
            block_position = view.block_position;
            block_data = view.block_data;
          }
            ∷ [];
    }
    else loop_data

unfoldable pub read_block_loop_callback : BlockCallback ReadLoop
read_block_loop_callback view s =
    let loop_data = dump_block view s.argument in
    pure (record {
      argument = loop_data;
      result =
          if not (loop_data.limit == 0) && loop_data.result_count == loop_data.limit
          then loop_break
          else s.result;
    })

-- The result of the loop over blocks, unless the limit is reached.
unfoldable pub check_limit : HintLoop ReadLoop → BlockLoop ReadLoop → M (HintLoop ReadLoop)
check_limit s blocks =
    let loop_data = blocks.argument in
    if not (loop_data.limit == 0) && leb loop_data.limit loop_data.result_count
    then if ltb loop_data.limit loop_data.result_count
      then leave
      else pure (record s { argument = loop_data; result = loop_break })
    else pure (record s { argument = loop_data; result = blocks.result })

unfoldable pub read_hintblock_loop_callback : Header → HintCallback ReadLoop
read_hintblock_loop_callback master_header view s =
    let state = s.location.hintblock_state in
    if not state.valid
    then pure (record s { result = loop_break })
    else if ltb state.highest_timestamp (s.argument).timestamp_gteq
    then pure (record s { result = loop_ok })
    else or_return 1 (
        block_loop_blocks master_header state read_block_loop_callback master_header.block_size
          s.argument)
      >>= check_limit s

-- The read proper, from the oldest region on.
unfoldable pub read_from : Header → ℕ → ℕ → BlockLocation → M (List Dump)
read_from master_header timestamp_gteq limit oldest_location =
    if not oldest_location.hintblock_state.valid then pure [] else do
      s ← or_return 1 (
          block_loop_hintblocks_large_device master_header
            (read_hintblock_loop_callback master_header) (some oldest_location)
            (record {
              timestamp_gteq = timestamp_gteq;
              limit = limit;
              result_count = 0;
              dumped = [];
            }))
      pure (s.argument).dumped

-- The blocks that are printed by a read that succeeds.
unfoldable pub read_blocks : ℕ → ℕ → M (List Dump)
read_blocks timestamp_gteq limit = do
  master ← or_return 1 block_get_validate_master_header
  if not (master.result == 0) then fail 1 else do
    oldest_location ← or_return 1 (block_find_oldest_hintblock master.header timestamp_gteq)
    read_from master.header timestamp_gteq limit oldest_location
