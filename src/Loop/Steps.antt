-- ===== src/Loop/Steps.antt =====
-- src/lib/blocks.c: the steps of the loop over the blocks of a region.
use native.Mathlib.Nat.{div-add-mod, mod-lt}
use blockdevlogger.Base.{
  ◌-◌, ◌*◌, ℕ, suc, ◌+◌, ◌≤◌, ◌<◌, ◌≡◌, ◌≢◌, refl, ◌∙◌, ◌⊎◌, true, false, ◌&&◌, leb, le→ltb, ==_iff,
  ◌==◌, add64, arith,
}
use blockdevlogger.Layout.{Header}
use blockdevlogger.Device.{File, ok, bind_ok, bind_return_ok, return_ok}
use blockdevlogger.Blocks.{HintblockState, block_get_validate_block}
use blockdevlogger.Blocks.Laws.{read_block_at, block_get_validate_block_lem}
use blockdevlogger.Hint.Laws.{IsReadable}
use blockdevlogger.Loop.{
  BlockLoop, BlockView, BlockCallback, loop_break, loop_err, block_round, block_rounds,
  block_loop_blocks, blocks_fuel,
}

module _ {A : Type 0} (header : Header) (state : HintblockState) (callback : BlockCallback A) where
  pub block_rounds_stop :
      (fuel length i : ℕ) (s : BlockLoop A) (f : File)
      → (state.blockstart_max < i) ⊎ (state.hintblock.previous_block_pos < i)
      → block_rounds header state callback (suc fuel) length i s f ≡ (ok s, f)
  unfolding block_rounds
  block_rounds_stop fuel length i s f h =
      let over : (leb i state.blockstart_max && leb i state.hintblock.previous_block_pos) ≡ false =
        ground arith in
      rw (block_rounds, over) refl

  -- The position is one that the loop looks at.
  pub record IsInside (i : ℕ) : Type 0 where
    pub before_hint : i ≤ state.blockstart_max
    pub before_last : i ≤ state.hintblock.previous_block_pos

  in_loop :
      (i : ℕ)
      → IsInside i
      → (leb i state.blockstart_max && leb i state.hintblock.previous_block_pos) ≡ true
  in_loop i h = ground (arith, h.before_hint, h.before_last)

  pub block_rounds_skip :
      (fuel length i : ℕ) (s : BlockLoop A) (f : File)
      → IsInside i
      → i ≡ state.backup_location
      → block_rounds header state callback (suc fuel) length i s f
        ≡ block_rounds header state callback fuel length (add64 i header.block_size) s f
  unfolding block_rounds
  block_rounds_skip fuel length i s f h e =
      rw (block_rounds, in_loop i h, (==_iff i state.backup_location).1 e) refl

  -- What the callback is shown.
  abbrev pub view_at : File → ℕ → BlockView
  view_at f i =
      let block = read_block_at f.contents i header in
      record { block_position = i; block = block.block_header; block_data = block.block_data }

  pub block_rounds_read :
      (fuel i : ℕ) (s s' : BlockLoop A) (f f' : File)
      → IsReadable f header
      → IsInside i
      → i ≢ state.backup_location
      → i + header.block_size < f.size
      → (read_block_at f.contents i header).result ≡ 0
      → callback (view_at f i) (record s { result = 0 }) (record f { seek = i }) ≡ (ok s', f')
      → s'.result ≡ 0
      → block_rounds header state callback (suc fuel) header.block_size i s f
        ≡ block_rounds header state callback fuel header.block_size
            (add64 i header.block_size)
            s'
            f'
  unfolding block_rounds block_round
  block_rounds_read fuel i s s' f f' r h ne room valid called on =
      let other : (i == state.backup_location) ≡ false = ground (arith, ne) in
      let not_break : (s'.result == loop_break) ≡ false = ground (arith, on) in
      let not_err : (s'.result == loop_err) ≡ false = ground (arith, on) in
      rw (block_rounds, in_loop i h, other)
        (bind_ok (block_round header state callback header.block_size i s) _ f f' s' one_round
          ∙ rw (not_break, not_err) refl)
    where
      one_round : block_round header state callback header.block_size i s f ≡ (ok s', f')
      one_round =
          let fine : ((read_block_at f.contents i header).result == 1) ≡ false =
            ground (arith, valid) in
          bind_return_ok 1 (block_get_validate_block i header header.block_size) _ f
            (record f { seek = i }) (read_block_at f.contents i header)
            (block_get_validate_block_lem i header f r.works r.fits room r.narrow r.algorithm)
          ∙ rw fine (
              return_ok 1
                (callback (view_at f i)
                  (record s { result = (read_block_at f.contents i header).result }))
                (record f { seek = i }) f' s' (rw valid called))

  pub block_loop_blocks_lem :
      (argument : A) (f : File)
      → block_loop_blocks header state callback header.block_size argument f
        ≡ block_rounds header state callback
            (blocks_fuel header state callback)
            header.block_size
            state.blockstart_min
            (record { argument = argument; result = 0 })
            f
  unfolding block_loop_blocks
  block_loop_blocks_lem argument f =
      rw (block_loop_blocks, le→ltb header.block_size header.block_size (omega arith)) refl

  -- The fuel covers the blocks from the first one on.
  pub blocks_enough :
      1 ≤ header.block_size
      → state.blockstart_max + 1 + header.block_size
        ≤ state.blockstart_min + blocks_fuel header state callback * header.block_size
  blocks_enough positive = omega (
    arith,
    div-add-mod (state.blockstart_max - state.blockstart_min) header.block_size,
    mod-lt (state.blockstart_max - state.blockstart_min) positive,
  )
