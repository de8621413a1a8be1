-- ===== src/Write.antt =====
-- src/lib/write.c: where the next block goes, and writing it.
pub mod PutAt
pub mod Found
pub mod Stamp
pub mod Place
use blockdevlogger.Base.{
  ℕ, ◌+◌, ◌-◌, ◌%◌, ◌^◌, Bool, true, false, not, Option, none, some, List, ltb, leb, ◌==◌,
  if◌then◌else◌, length, u64, add64, sub64,
}
use blockdevlogger.Layout.{
  Header, BlockHeader, blank_block_header, size_of_block_header, small_size_threshold,
}
use blockdevlogger.Device.{File, Ret, M, pure, ◌>>=◌, ◌>>◌, and_then, or_return, fail, leave}
use blockdevlogger.Blocks.{
  HintblockState, BlockLocation, ReadHeader, blank_state, block_get_validate_master_header,
}
use blockdevlogger.Put.{write_checksum_and_put_block, write_update_hintblock}
use blockdevlogger.Loop.{
  HintLoop, HintView, HintCallback, loop_ok, loop_break, block_loop_hintblocks_large_device,
}

-- The statuses of src/include/bdl.h.
abbrev pub write_err : ℕ
write_err = 1

abbrev pub write_err_timestamp : ℕ
write_err_timestamp = 2

abbrev pub write_err_size : ℕ
write_err_size = 3

abbrev pub write_err_io : ℕ
write_err_io = 4

abbrev pub write_err_corrupt : ℕ
write_err_corrupt = 5

pub record CheckedFree : Type 0 where
  pub result : ℕ
  pub location : BlockLocation

-- The block behind the last one, past the backup hint block if that is there.
unfoldable pub next_block : Header → HintblockState → ℕ
next_block master_header state =
    let next = add64 state.hintblock.previous_block_pos master_header.block_size in
    if next == state.backup_location then add64 next master_header.block_size else next

-- Result 0: the region has room, at `block_location`; 1: it is full.
unfoldable pub write_check_free_hintblock : Header → BlockLocation → CheckedFree
write_check_free_hintblock master_header location =
    let state = location.hintblock_state in
    if not state.valid
    then record { result = 0; location = record location { block_location = state.blockstart_min } }
    else if leb (add64 state.hintblock.previous_block_pos master_header.block_size)
        state.blockstart_max
    then record {
      result = 0;
      location = record location { block_location = next_block master_header state };
    }
    else record { result = 1; location = record location { block_location = state.blockstart_min } }

-- struct hintblock_timestamp
pub record HintblockTimestamp : Type 0 where
  pub state : HintblockState
  pub initialized : Bool
  pub min_timestamp : ℕ

unfoldable pub write_hintblock_check_timestamps : HintCallback HintblockTimestamp
write_hintblock_check_timestamps view s =
    let state = s.location.hintblock_state in
    let timestamp = s.argument in
    pure (record s {
      argument =
          if ltb state.highest_timestamp timestamp.min_timestamp
          then record { state = state; initialized = true; min_timestamp = state.highest_timestamp }
          else timestamp;
      result = loop_ok;
    })

-- The argument is `argument_int`: 1 after a full region.
unfoldable pub write_hintblock_check_free_callback : Header → HintCallback ℕ
write_hintblock_check_free_callback master_header view s =
    let checked = write_check_free_hintblock master_header s.location in
    if checked.result == 0
    then pure (record { argument = 0; location = checked.location; result = loop_break })
    else if checked.result == 1
    then pure (record { argument = 1; location = checked.location; result = loop_ok })
    else pure
        (record { argument = s.argument; location = checked.location; result = checked.result })

-- The region with the lowest timestamp is given up. `state` is not set there before it is found.
unfoldable pub write_find_oldest : Header → M BlockLocation
write_find_oldest header = do
  s ← or_return 1 (
      block_loop_hintblocks_large_device header write_hintblock_check_timestamps none (record {
        state = blank_state;
        initialized = false;
        min_timestamp = 0xffff_ffff_ffff_ffff;
      }))
  if s.argument.initialized
      then pure (record {
        block_location = s.argument.state.blockstart_min;
        hintblock_state = s.argument.state;
      })
      else leave

-- A device below 256 MiB ends the program (`write_find_location_small`).
unfoldable pub write_find_location : Header → M BlockLocation
write_find_location header f =
    if ltb f.size small_size_threshold
    then (Ret.exit, f)
    else (do
      s ← or_return 1 (
          block_loop_hintblocks_large_device header (write_hintblock_check_free_callback header)
            none 0)
      if s.argument == 0 then pure s.location else write_find_oldest header)
        f

-- The timestamp of the new block, or the status of a refused one. A timestamp of 0 stands for the
-- time `now` of `time_get_64`.
pub choose_timestamp : ℕ → ℕ → ℕ → ℕ → M ℕ
choose_timestamp now highest_timestamp timestamp faketimestamp =
    let wanted = if timestamp == 0 then now else timestamp in
    if leb wanted highest_timestamp
    then if faketimestamp == 0
      then fail write_err
      else if ltb faketimestamp (highest_timestamp - wanted)
      then fail write_err_timestamp
      else pure (add64 highest_timestamp 1)
    else pure wanted

-- The checks between the choice of the location and the write.
pub check_put : Header → BlockLocation → ℕ → M (Unit {0})
check_put header location data_length =
    if ltb (sub64 header.block_size size_of_block_header) data_length
    then fail write_err_size
    else if ltb location.block_location header.header_size
    then leave
    else if ltb location.hintblock_state.location (add64 header.header_size header.block_size)
    then leave
    else if location.block_location == location.hintblock_state.backup_location
    then leave
    else pure tt

-- The write proper: the block, then its hint block with the backup.
pub put_at : Header → BlockLocation → BlockHeader → List ℕ → M (Unit {0})
put_at header location block_header bytes = do
  or_return 1 (write_checksum_and_put_block block_header bytes header location.block_location)
  or_return 1 (
      write_update_hintblock location.block_location 0 location.hintblock_state.location
        location.hintblock_state.backup_location header)

abbrev pub new_block_header : ℕ → ℕ → ℕ → BlockHeader
new_block_header timestamp appdata data_length = record blank_block_header {
  timestamp = timestamp;
  application_data = appdata;
  data_length = data_length;
}

pub put_found : ℕ → List ℕ → ℕ → ℕ → ℕ → Header → BlockLocation → M (Unit {0})
put_found now bytes appdata timestamp faketimestamp header location = do
  stamp ← choose_timestamp now location.hintblock_state.highest_timestamp timestamp faketimestamp
  check_put header location (length bytes)
  put_at header location (new_block_header stamp appdata (length bytes)) bytes

-- `now` is what `time_get_64` returns.
unfoldable pub write_put_block : ℕ → List ℕ → ℕ → ℕ → ℕ → M (Unit {0})
write_put_block now bytes appdata timestamp faketimestamp = do
  master ← or_return write_err_io block_get_validate_master_header
  if not (master.result == 0) then fail write_err_corrupt else do
    location ← or_return 1 (write_find_location master.header)
    put_found now bytes appdata timestamp faketimestamp master.header location
