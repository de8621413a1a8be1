-- ===== src/Hint.antt =====
-- src/lib/blocks.c: the state of a hint block, with recovery from its backup.
pub mod Laws
pub mod State
pub mod Fresh
pub mod Termination
use blockdevlogger.Base.{
  ℕ, ◌+◌, ◌-◌, ◌%◌, ◌^◌, Bool, true, false, ◌||◌, not, ltb, ◌==◌, if◌then◌else◌, add64, sub64,
}
use blockdevlogger.Layout.{Header, blank_hint_block, backup_distance}
use blockdevlogger.Device.{File, Ret, ok, M, pure, ◌>>=◌, ◌>>◌, and_then, or_return}
use blockdevlogger.Io.{io_sync}
use blockdevlogger.Blocks.{
  HintblockState, ReadBlock, ReadHintBlock, block_get_valid_hintblock,
  block_hintblock_get_last_block,
}
use blockdevlogger.Put.{write_update_hintblock}

pub record Recovered : Type 0 where
  pub result : ℕ
  pub state : HintblockState

-- A call for the effect on the file, which always succeeds.
abbrev sync : M (Unit {0})
sync f = (ok tt, io_sync f)

-- The valid backup is written to the hint block's place.
-- The backup of the restored hint block is written at `location - BDL_HINTBLOCK_BACKUP_POSITION`,
-- and the constant is negative.
pub restore : Header → HintblockState → M Recovered
restore master_header state = do
  or_return 1 (
      write_update_hintblock state.hintblock.previous_block_pos
        state.hintblock.previous_tagged_block_pos state.location
        (add64 state.location backup_distance) master_header)
  sync
  pure (record { result = 0; state = state })

pub block_hintblock_recover_backup : Header → HintblockState → M Recovered
block_hintblock_recover_backup master_header state = do
  backup ← or_return 1 (block_get_valid_hintblock state.backup_location master_header)
  let state' : HintblockState = record state { hintblock = backup.hintblock }
  if not (backup.result == 0)
      then pure (record { result = backup.result; state = state' })
      else restore master_header state'

-- The last block that the hint block names decides whether it is valid.
pub check_last_block : HintblockState → Header → M HintblockState
check_last_block state master_header = do
  block ← or_return 1 (block_hintblock_get_last_block state master_header)
  if not (block.result == 0)
      then pure state
      else pure (record state { valid = true; highest_timestamp = block.block_header.timestamp })

-- The fields that are set before anything is read.
abbrev pub initial_state : ℕ → ℕ → ℕ → HintblockState
initial_state pos blockstart_min blockstart_max = record {
  valid = false;
  blockstart_min = blockstart_min;
  blockstart_max = blockstart_max;
  location = pos;
  backup_location = sub64 pos backup_distance;
  highest_timestamp = 0;
  hintblock = blank_hint_block;
}

-- After a successful recovery the hint block is read again, and not checked again.
pub reread : ℕ → Header → Recovered → M HintblockState
reread pos master_header recovered = do
  restored ← or_return 1 (block_get_valid_hintblock pos master_header)
  check_last_block (record (recovered.state) { hintblock = restored.hintblock }) master_header

pub state_from_backup : ℕ → Header → HintblockState → M HintblockState
state_from_backup pos master_header state = do
  recovered ← or_return 1 (block_hintblock_recover_backup master_header state)
  if recovered.result == 0 then reread pos master_header recovered else pure recovered.state

pub state_from_primary : Header → HintblockState → M HintblockState
state_from_primary master_header state =
    if ltb state.blockstart_max state.hintblock.previous_block_pos
      || ltb state.hintblock.previous_block_pos state.blockstart_min
    then pure state
    else check_last_block state master_header

pub block_get_hintblock_state : ℕ → Header → ℕ → ℕ → M HintblockState
block_get_hintblock_state pos master_header blockstart_min blockstart_max = do
  primary ← or_return 1 (block_get_valid_hintblock pos master_header)
  let state : HintblockState = record (initial_state pos blockstart_min blockstart_max) {
    hintblock = primary.hintblock;
  }
  if not (primary.result == 0)
      then state_from_backup pos master_header state
      else state_from_primary master_header state
