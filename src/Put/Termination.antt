-- ===== src/Put/Termination.antt =====
-- src/lib/write.c: storing a hint block always ends.
use blockdevlogger.Base.{ℕ, Option, none, some, List, replicate, ◌-◌, length, ◌==◌, int_to_u64}
use blockdevlogger.Layout.{Header, HintBlock, encode_hint_block}
use blockdevlogger.Crypt.{crypt_hash_data}
use blockdevlogger.Device.{
  M, pure, fail, AlwaysEnds, Ends-call, Ends-if, Ends-bind, Ends-or_return, or_return,
}
use blockdevlogger.Io.{io_write_block}
use blockdevlogger.Io.Termination.{Any, io_write_block-Ends}
use blockdevlogger.Blocks.{block_get_valid_hintblock}
use blockdevlogger.Blocks.Termination.{block_get_valid_hintblock-Ends}
use blockdevlogger.Put.{
  write_put_and_pad_block, new_hint_block, put_hintblock, write_update_hintblock,
}

pub write_put_and_pad_block-Ends :
    (pos : ℕ) (bytes : List ℕ) (pad total : ℕ)
    → AlwaysEnds Any (write_put_and_pad_block pos bytes pad total)
unfolding write_put_and_pad_block
write_put_and_pad_block-Ends pos bytes pad total =
    Ends-or_return Any 1
      (io_write_block (int_to_u64 pos) bytes (replicate (total - length bytes) pad))
      (io_write_block-Ends _ _ _)

module _ (header : Header) where
  put_hashed-Ends :
      (new : HintBlock) (pos : ℕ) (hash : Option ℕ)
      → AlwaysEnds Any (elim hash as (λ x. M (Unit {0})) [
        | none ↦ fail 1
        | some h ↦ or_return 1 (
            write_put_and_pad_block pos
              (encode_hint_block (record new { hash = h }))
              header.pad_character
              header.block_size)
      ])
  put_hashed-Ends new pos none f = tt
  put_hashed-Ends new pos (some h) f =
      Ends-or_return Any 1 (write_put_and_pad_block pos _ _ _)
        (write_put_and_pad_block-Ends pos _ _ _) f

  put_hintblock-Ends : (p t pos : ℕ) → AlwaysEnds Any (put_hintblock p t pos header)
  unfolding put_hintblock
  put_hintblock-Ends p t pos =
      Ends-call Any Any 1 (block_get_valid_hintblock pos header) _
        (block_get_valid_hintblock-Ends header pos)
        (λ old h. put_hashed-Ends (new_hint_block old p t) pos (
          crypt_hash_data (encode_hint_block (new_hint_block old p t))
            header.default_hash_algorithm))

  pub write_update_hintblock-Ends :
      (p t pos backup : ℕ) → AlwaysEnds Any (write_update_hintblock p t pos backup header)
  unfolding write_update_hintblock
  write_update_hintblock-Ends p t pos backup =
      Ends-bind Any Any (put_hintblock p t pos header) _ (put_hintblock-Ends p t pos) (λ a h.
        Ends-if Any (backup == pos) (pure tt) _ (λ f. tt)
          (Ends-or_return Any 1 (put_hintblock p t backup header) (put_hintblock-Ends p t backup)))
