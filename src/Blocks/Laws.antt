-- ===== src/Blocks/Laws.antt =====
-- What the readers of src/lib/blocks.c return on a device that works, for checksum algorithm 0.
use blockdevlogger.Base.{ℕ, ◌+◌, ◌<◌, ◌^◌, ◌≡◌, refl, subst, ◌∙◌, some, List, le→ltb, drop, arith}
use blockdevlogger.Layout.{Header, HintBlock, decode_header, decode_block_header, decode_hint_block}
use blockdevlogger.Device.{File, Memory, ok, Works, read_bytes, bind_return_ok}
use blockdevlogger.Io.{io_read_block}
use blockdevlogger.Io.Block.{FitsSize, io_read_block_lem}
use blockdevlogger.Validate.{validate_header}
use blockdevlogger.Validate.Laws.{
  validate_hintblock_result, validate_block_result, hint_result, block_result,
}
use blockdevlogger.Blocks.{
  HintblockState, ReadBlock, ReadHintBlock, block_get_valid_hintblock, block_get_validate_block,
  block_hintblock_get_last_block, block_get_validate_master_header,
}

-- The hint block that is stored at a position.
abbrev pub hint_at : Memory → ℕ → HintBlock
hint_at m pos = decode_hint_block (read_bytes m pos 24)

abbrev pub read_hint : Memory → ℕ → ReadHintBlock
read_hint m pos = record { result = hint_result (hint_at m pos); hintblock = hint_at m pos }

pub block_get_valid_hintblock_lem :
    (pos : ℕ) (header : Header) (f : File)
    → Works f
    → FitsSize f
    → pos + 24 < f.size
    → header.default_hash_algorithm ≡ 0
    → block_get_valid_hintblock pos header f
      ≡ (ok (read_hint f.contents pos), record f { seek = pos })
unfolding block_get_valid_hintblock
block_get_valid_hintblock_lem pos header f w v h a =
    bind_return_ok 1 (io_read_block pos 24) _ f (record f { seek = pos })
      (read_bytes f.contents pos 24) (io_read_block_lem pos 24 f w v h (omega arith))
    ∙ rw (validate_hintblock_result (hint_at f.contents pos) header a) refl

-- What the readers return for the bytes of a block.
abbrev pub block_of : List ℕ → Header → ReadBlock
block_of bytes header = record {
  result = block_result bytes header;
  block_header = decode_block_header bytes;
  block_data = drop 32 bytes;
}

-- The block whose bytes are stored at a position.
abbrev pub read_block_at : Memory → ℕ → Header → ReadBlock
read_block_at m pos header = block_of (read_bytes m pos header.block_size) header

pub block_hintblock_get_last_block_lem :
    (state : HintblockState) (header : Header) (f : File)
    → Works f
    → FitsSize f
    → state.hintblock.previous_block_pos + header.block_size < f.size
    → header.block_size < 2 ^ 32
    → header.default_hash_algorithm ≡ 0
    → block_hintblock_get_last_block state header f ≡ (
      ok (read_block_at f.contents state.hintblock.previous_block_pos header),
      record f { seek = state.hintblock.previous_block_pos },
    )
unfolding block_hintblock_get_last_block
block_hintblock_get_last_block_lem state header f w v h b a =
    bind_return_ok 1 (io_read_block pos header.block_size) _ f (record f { seek = pos })
      (read_bytes f.contents pos header.block_size)
      (io_read_block_lem pos header.block_size f w v h b)
    ∙ rw (validate_block_result (read_bytes f.contents pos header.block_size) header a) refl
  where
    pos : ℕ
    pos = state.hintblock.previous_block_pos

pub block_get_validate_block_lem :
    (pos : ℕ) (header : Header) (f : File)
    → Works f
    → FitsSize f
    → pos + header.block_size < f.size
    → header.block_size < 2 ^ 32
    → header.default_hash_algorithm ≡ 0
    → block_get_validate_block pos header header.block_size f
      ≡ (ok (read_block_at f.contents pos header), record f { seek = pos })
unfolding block_get_validate_block
block_get_validate_block_lem pos header f w v h b a =
    rw (le→ltb header.block_size header.block_size (omega arith)) (
      bind_return_ok 1 (io_read_block pos header.block_size) _ f (record f { seek = pos })
        (read_bytes f.contents pos header.block_size)
        (io_read_block_lem pos header.block_size f w v h b)
      ∙ rw (validate_block_result (read_bytes f.contents pos header.block_size) header a) refl)

pub block_get_validate_master_header_lem :
    (header : Header) (result : ℕ) (f : File)
    → Works f
    → FitsSize f
    → 64 < f.size
    → decode_header (read_bytes f.contents 0 64) ≡ header
    → validate_header header f.size ≡ some result
    → block_get_validate_master_header f
      ≡ (ok (record { result = result; header = header }), record f { seek = 0 })
unfolding block_get_validate_master_header
block_get_validate_master_header_lem header result f w v h e r =
    subst
      (λ x.
        validate_header x f.size ≡ some result
        → block_get_validate_master_header f
          ≡ (ok (record { result = result; header = x }), record f { seek = 0 }))
      e
      (λ r'.
        bind_return_ok 1 (io_read_block 0 64) _ f (record f { seek = 0 })
          (read_bytes f.contents 0 64) (io_read_block_lem 0 64 f w v h (omega arith))
        ∙ rw r' refl)
      r
