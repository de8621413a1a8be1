-- ===== src/Blocks/Termination.antt =====
-- src/lib/blocks.c: the readers always end.
use blockdevlogger.Base.{ℕ, ltb, arith}
use blockdevlogger.Layout.{Header}
use blockdevlogger.Device.{leave, AlwaysEnds, Ends-call, Ends-if}
use blockdevlogger.Io.{io_read_block}
use blockdevlogger.Io.Termination.{Any, io_read_block-Ends}
use blockdevlogger.Blocks.{
  HintblockState, block_get_valid_hintblock, block_hintblock_get_last_block,
  block_get_validate_block,
}

module _ (header : Header) where
  pub block_get_valid_hintblock-Ends :
      (pos : ℕ) → AlwaysEnds Any (block_get_valid_hintblock pos header)
  unfolding block_get_valid_hintblock
  block_get_valid_hintblock-Ends pos =
      Ends-call Any Any 1 (io_read_block pos 24) _ (io_read_block-Ends pos 24)
        (λ bytes h f. ground arith)

  pub block_hintblock_get_last_block-Ends :
      (state : HintblockState) → AlwaysEnds Any (block_hintblock_get_last_block state header)
  unfolding block_hintblock_get_last_block
  block_hintblock_get_last_block-Ends state =
      Ends-call Any Any 1 (io_read_block state.hintblock.previous_block_pos header.block_size) _
        (io_read_block-Ends _ header.block_size) (λ bytes h f. ground arith)

  pub block_get_validate_block-Ends :
      (pos data_length : ℕ) → AlwaysEnds Any (block_get_validate_block pos header data_length)
  unfolding block_get_validate_block
  block_get_validate_block-Ends pos data_length =
      Ends-if Any (ltb data_length header.block_size) leave _ (λ f. tt)
        (Ends-call Any Any 1 (io_read_block pos header.block_size) _
          (io_read_block-Ends pos header.block_size) (λ bytes h f. ground arith))
