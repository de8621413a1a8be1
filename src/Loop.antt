-- ===== src/Loop.antt =====
-- src/lib/blocks.c: the loops over the hint blocks of a device and over the blocks of a region, with
-- their callbacks, and the search for the oldest hint block.
pub mod Termination
pub mod Regions
pub mod Steps
pub mod HintSteps
use blockdevlogger.Base.{
  ℕ, zero, suc, ◌+◌, ◌-◌, ◌/◌, true, false, ◌&&◌, not, Option, none, some, List, ltb, leb, ◌==◌,
  if◌then◌else◌, add64, sub64,
}
use blockdevlogger.Layout.{Header, BlockHeader, hintblock_spacing}
use blockdevlogger.Device.{Ret, out_of_fuel, M, pure, ◌>>=◌, or_return, fail, leave}
use blockdevlogger.Blocks.{
  HintblockState, BlockLocation, blank_state, blank_location, block_get_validate_block,
}
use blockdevlogger.Hint.{block_get_hintblock_state}

abbrev pub loop_ok : ℕ
loop_ok = 0

abbrev pub loop_err : ℕ
loop_err = 1

abbrev pub loop_break : ℕ
loop_break = 2

-- What the loop over hint blocks passes on: the caller's arguments, `*location` and `*result`.
pub record HintLoop (A : Type 0) : Type 0 where
  pub argument : A
  pub location : BlockLocation
  pub result : ℕ

-- struct bdl_hintblock_loop_callback_data, but for the pointers.
pub record HintView : Type 0 where
  pub hintblock_position : ℕ
  pub blockstart_min : ℕ
  pub blockstart_max : ℕ

abbrev pub HintCallback : Type 0 → Type 0
HintCallback A = HintView → HintLoop A → M (HintLoop A)

-- What the loop over blocks passes on.
pub record BlockLoop (A : Type 0) : Type 0 where
  pub argument : A
  pub result : ℕ

-- struct bdl_block_loop_callback_data, but for the pointers.
pub record BlockView : Type 0 where
  pub block_position : ℕ
  pub block : BlockHeader
  pub block_data : List ℕ

abbrev pub BlockCallback : Type 0 → Type 0
BlockCallback A = BlockView → BlockLoop A → M (BlockLoop A)

module _ {A : Type 0} (header : Header) (callback : HintCallback A) where
  -- One round: the state of the hint block, and the callback.
  pub hintblock_round : ℕ → ℕ → HintLoop A → M (HintLoop A)
  hintblock_round i blockstart_min s = do
    let blockstart_max = sub64 i header.block_size
    state ← or_return 1 (block_get_hintblock_state i header blockstart_min blockstart_max)
    or_return 1 (
        callback
          (record {
            hintblock_position = i;
            blockstart_min = blockstart_min;
            blockstart_max = blockstart_max;
          })
          (record s { location = record (s.location) { hintblock_state = state } }))

  -- The loop, from the position `i` on.
  pub hintblock_rounds : ℕ → ℕ → ℕ → ℕ → ℕ → HintLoop A → M (HintLoop A)
  hintblock_rounds zero loop_end loop_spacing i blockstart_min s f = (out_of_fuel, f)
  hintblock_rounds (suc fuel) loop_end loop_spacing i blockstart_min s f = elim (ltb i loop_end) [
    | false ↦ (Ret.ok s, f)
    | true ↦ elim (ltb blockstart_min header.header_size) [
      | true ↦ (Ret.exit, f)
      | false ↦
          (hintblock_round i blockstart_min s >>= λ s'. elim (s'.result == loop_break) [
            | true ↦ pure s'
            | false ↦ elim (s'.result == loop_err) [
              | true ↦ fail 1
              | false ↦
                  hintblock_rounds fuel loop_end loop_spacing (add64 i loop_spacing)
                    (add64 i header.block_size) s'
            ]
          ])
            f
    ]
  ]

  -- Rounds enough for the positions from `loop_begin` up to `loop_end`.
  abbrev pub rounds_fuel : ℕ → ℕ → ℕ → ℕ
  rounds_fuel loop_begin loop_end loop_spacing = (loop_end - loop_begin) / loop_spacing + 2

  pub block_loop_hintblocks_worker : ℕ → ℕ → ℕ → HintLoop A → M (HintLoop A)
  block_loop_hintblocks_worker loop_begin loop_end loop_spacing s f =
      if ltb f.size loop_end
      then (Ret.exit, f)
      else hintblock_rounds (rounds_fuel loop_begin loop_end loop_spacing) loop_end loop_spacing
          loop_begin (add64 (sub64 loop_begin loop_spacing) header.block_size) s f

  -- The second round looks at what a first one that began later has skipped.
  pub second_round : ℕ → ℕ → HintLoop A → M (HintLoop A)
  second_round loop_begin loop_begin_orig s =
      if not (loop_begin == loop_begin_orig) && not (s.result == loop_break)
      then or_return 1 (block_loop_hintblocks_worker loop_begin_orig loop_begin hintblock_spacing s)
      else pure s

  loop_from : ℕ → A → M (HintLoop A)
  loop_from loop_begin argument f =
      (do
        s ← or_return 1 (
            block_loop_hintblocks_worker loop_begin f.size hintblock_spacing
              (record { argument = argument; location = blank_location; result = loop_ok }))
        second_round loop_begin (add64 header.header_size hintblock_spacing) s)
        f

  -- `first_location` is `none` for NULL.
  pub block_loop_hintblocks_large_device : Option BlockLocation → A → M (HintLoop A)
  unfolding loop_from
  block_loop_hintblocks_large_device none argument =
      loop_from (add64 header.header_size hintblock_spacing) argument
  block_loop_hintblocks_large_device (some first_location) argument =
      if not first_location.hintblock_state.valid
      then leave
      else loop_from first_location.hintblock_state.location argument

module _ {A : Type 0} (header : Header) (state : HintblockState) (callback : BlockCallback A) where
  -- One round of the loop over blocks. A result of 1 from the validation ends the loop.
  pub block_round : ℕ → ℕ → BlockLoop A → M (BlockLoop A)
  block_round block_data_length i s = do
    block ← or_return 1 (block_get_validate_block i header block_data_length)
    if block.result == 1
        then pure (record s { result = loop_break })
        else or_return 1 (
            callback
              (record {
                block_position = i;
                block = block.block_header;
                block_data = block.block_data;
              })
              (record s { result = block.result }))

  -- The loop, from the position `i` on. It skips the place of the backup hint block.
  pub block_rounds : ℕ → ℕ → ℕ → BlockLoop A → M (BlockLoop A)
  block_rounds zero block_data_length i s f = (out_of_fuel, f)
  block_rounds (suc fuel) block_data_length i s f =
      elim (leb i state.blockstart_max && leb i state.hintblock.previous_block_pos) [
        | false ↦ (Ret.ok s, f)
        | true ↦ elim (i == state.backup_location) [
          | true ↦ block_rounds fuel block_data_length (add64 i header.block_size) s f
          | false ↦
              (block_round block_data_length i s >>= λ s'. elim (s'.result == loop_break) [
                | true ↦ pure s'
                | false ↦ elim (s'.result == loop_err) [
                  | true ↦ fail 1
                  | false ↦ block_rounds fuel block_data_length (add64 i header.block_size) s'
                ]
              ])
                f
        ]
      ]

  abbrev pub blocks_fuel : ℕ
  blocks_fuel = (state.blockstart_max - state.blockstart_min) / header.block_size + 2

  pub block_loop_blocks : ℕ → A → M (BlockLoop A)
  block_loop_blocks block_data_length argument =
      if ltb block_data_length header.block_size
      then leave
      else block_rounds blocks_fuel block_data_length state.blockstart_min
          (record { argument = argument; result = loop_ok })

-- struct block_find_smallest_hintblock_loop_data
pub record FindSmallest : Type 0 where
  pub timestamp_gteq : ℕ
  pub smallest_timestamp : ℕ
  pub smallest_state : HintblockState

unfoldable pub block_find_oldest_hintblock_loop_callback : HintCallback FindSmallest
block_find_oldest_hintblock_loop_callback view s =
    let state = s.location.hintblock_state in
    let found = s.argument in
    if not state.valid
    then pure (record s { result = loop_break })
    else if ltb state.highest_timestamp found.timestamp_gteq
    then pure (record s { result = loop_ok })
    else if ltb state.highest_timestamp found.smallest_timestamp
    then pure (record s {
      argument = record found {
        smallest_timestamp = state.highest_timestamp;
        smallest_state = state;
      };
    })
    else pure s

-- The location, with the state of the oldest hint block that was found.
unfoldable pub block_find_oldest_hintblock : Header → ℕ → M BlockLocation
block_find_oldest_hintblock master_header timestamp_gteq = do
  s ← or_return 1 (
      block_loop_hintblocks_large_device master_header block_find_oldest_hintblock_loop_callback
        none
        (record {
          timestamp_gteq = timestamp_gteq;
          smallest_timestamp = 0xffff_ffff_ffff_ffff;
          smallest_state = blank_state;
        }))
  pure (record (s.location) { hintblock_state = s.argument.smallest_state })
