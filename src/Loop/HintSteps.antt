-- ===== src/Loop/HintSteps.antt =====
-- src/lib/blocks.c: the rounds of the loop over hint blocks, one by one.
use blockdevlogger.Base.{
  ℕ, suc, ◌+◌, ◌≤◌, ◌<◌, ◌^◌, ◌≡◌, refl, ap, ◌∙◌, ◌⊎◌, inl, inr, Bool-cases, true, false, some, not,
  ltb, lt→ltb, le→ltb, ◌==◌, ◌&&◌, none, add64, sub64, arith,
}
use blockdevlogger.Layout.{Header, hintblock_spacing}
use blockdevlogger.Device.{File, ok, bind_ok, bind_return_ok, return_ok}
use blockdevlogger.Blocks.{HintblockState, BlockLocation, blank_location}
use blockdevlogger.Hint.{block_get_hintblock_state}
use blockdevlogger.Loop.{
  HintLoop, HintCallback, loop_ok, loop_break, hintblock_round, hintblock_rounds, rounds_fuel,
  block_loop_hintblocks_worker, second_round, loop_from, block_loop_hintblocks_large_device,
}

module _ {A : Type 0} (header : Header) (callback : HintCallback A) where
  -- A round with a state that is found, and a callback that returns.
  pub hintblock_round_lem :
      (i lo : ℕ) (s s' : HintLoop A) (f f' f'' : File) (state : HintblockState)
      → block_get_hintblock_state i header lo (sub64 i header.block_size) f ≡ (ok state, f')
      → callback
          (record {
            hintblock_position = i;
            blockstart_min = lo;
            blockstart_max = sub64 i header.block_size;
          })
          (record s { location = record (s.location) { hintblock_state = state } })
          f'
        ≡ (ok s', f'')
      → hintblock_round header callback i lo s f ≡ (ok s', f'')
  unfolding hintblock_round
  hintblock_round_lem i lo s s' f f' f'' state found called =
      bind_return_ok 1 (block_get_hintblock_state i header lo (sub64 i header.block_size)) _ f f'
        state found
      ∙ return_ok 1
          (callback
            (record {
              hintblock_position = i;
              blockstart_min = lo;
              blockstart_max = sub64 i header.block_size;
            })
            (record s { location = record (s.location) { hintblock_state = state } }))
          f' f'' s' called

  pub hintblock_rounds_stop :
      (fuel loop_end spacing i lo : ℕ) (s : HintLoop A) (f : File)
      → loop_end ≤ i
      → hintblock_rounds header callback (suc fuel) loop_end spacing i lo s f ≡ (ok s, f)
  unfolding hintblock_rounds
  hintblock_rounds_stop fuel loop_end spacing i lo s f le =
      rw (hintblock_rounds, le→ltb i loop_end le) refl

  -- A round whose callback ends the loop.
  pub hintblock_rounds_break :
      (fuel loop_end spacing i lo : ℕ) (s s' : HintLoop A) (f f' : File)
      → i < loop_end
      → header.header_size ≤ lo
      → hintblock_round header callback i lo s f ≡ (ok s', f')
      → s'.result ≡ loop_break
      → hintblock_rounds header callback (suc fuel) loop_end spacing i lo s f ≡ (ok s', f')
  unfolding hintblock_rounds
  hintblock_rounds_break fuel loop_end spacing i lo s s' f f' lt le runs ends =
      let test : (s'.result == loop_break) ≡ true = ground (arith, ends) in
      rw (hintblock_rounds, lt→ltb i loop_end lt, le→ltb lo header.header_size le)
        (bind_ok (hintblock_round header callback i lo s) _ f f' s' runs ∙ rw test refl)

  -- A round that goes on to the next hint block.
  pub hintblock_rounds_next :
      (fuel loop_end spacing i lo : ℕ) (s s' : HintLoop A) (f f' : File)
      → i < loop_end
      → header.header_size ≤ lo
      → hintblock_round header callback i lo s f ≡ (ok s', f')
      → s'.result ≡ loop_ok
      → hintblock_rounds header callback (suc fuel) loop_end spacing i lo s f
        ≡ hintblock_rounds header callback fuel loop_end spacing
            (add64 i spacing)
            (add64 i header.block_size)
            s'
            f'
  unfolding hintblock_rounds
  hintblock_rounds_next fuel loop_end spacing i lo s s' f f' lt le runs goes =
      let test : (s'.result == loop_break) ≡ false = ground (arith, goes) in
      let test' : (s'.result == 1) ≡ false = ground (arith, goes) in
      rw (hintblock_rounds, lt→ltb i loop_end lt, le→ltb lo header.header_size le)
        (bind_ok (hintblock_round header callback i lo s) _ f f' s' runs ∙ rw (test, test') refl)

  -- A loop from the first hint block on has one round over the device.
  pub block_loop_hintblocks_none :
      (argument : A) (s : HintLoop A) (f f' : File)
      → header.header_size + hintblock_spacing < 2 ^ 64
      → header.block_size < 2 ^ 64
      → hintblock_rounds header callback
          (rounds_fuel header callback
            (header.header_size + hintblock_spacing)
            f.size
            hintblock_spacing)
          f.size
          hintblock_spacing
          (header.header_size + hintblock_spacing)
          (add64
            (sub64 (header.header_size + hintblock_spacing) hintblock_spacing)
            header.block_size)
          (record { argument = argument; location = blank_location; result = loop_ok })
          f
        ≡ (ok s, f')
      → block_loop_hintblocks_large_device header callback none argument f ≡ (ok s, f')
  unfolding block_loop_hintblocks_large_device loop_from block_loop_hintblocks_worker second_round
  block_loop_hintblocks_none argument s f f' small narrow runs =
      let orig : add64 header.header_size hintblock_spacing
          ≡ header.header_size + hintblock_spacing =
        omega arith in
      let start : HintLoop A = record {
        argument = argument;
        location = blank_location;
        result = loop_ok;
      } in
      let at_end : ltb f.size f.size ≡ false = le→ltb f.size f.size (omega arith) in
      let once : (not
              (header.header_size + hintblock_spacing == header.header_size + hintblock_spacing)
            && not (s.result == loop_break))
          ≡ false =
        ground arith in
      rw orig (
        bind_return_ok 1
          (block_loop_hintblocks_worker header callback (header.header_size + hintblock_spacing)
            f.size hintblock_spacing start)
          _ f f' s (rw at_end runs)
        ∙ rw once refl)

  -- The second round over the hint blocks before the first one looked at: it is left out, or it runs.
  pub second_round_lem :
      (loop_begin orig : ℕ) (s s' : HintLoop A) (f f' : File)
      → loop_begin ≤ f.size
      → hintblock_rounds header callback
          (rounds_fuel header callback orig loop_begin hintblock_spacing)
          loop_begin
          hintblock_spacing
          orig
          (add64 (sub64 orig hintblock_spacing) header.block_size)
          s
          f
        ≡ (ok s', f')
      → (second_round header callback loop_begin orig s f ≡ (ok s, f))
        ⊎ (second_round header callback loop_begin orig s f ≡ (ok s', f'))
  unfolding second_round block_loop_hintblocks_worker
  second_round_lem loop_begin orig s s' f f' le runs =
      elim (Bool-cases (not (loop_begin == orig) && not (s.result == loop_break))) [
        | inr never ↦ inl (rw never refl)
        | inl again ↦ inr (
            rw again (
              return_ok 1
                (block_loop_hintblocks_worker header callback orig loop_begin hintblock_spacing s) f
                f' s' (rw (le→ltb f.size loop_begin le) runs)))
      ]

  -- A loop from a given hint block on, to the end of the device, and then from the first one on.
  pub block_loop_hintblocks_some :
      (location : BlockLocation) (argument : A) (s s' : HintLoop A) (f f' f'' : File)
      → location.hintblock_state.valid ≡ true
      → hintblock_rounds header callback
          (rounds_fuel header callback location.hintblock_state.location f.size hintblock_spacing)
          f.size
          hintblock_spacing
          location.hintblock_state.location
          (add64 (sub64 location.hintblock_state.location hintblock_spacing) header.block_size)
          (record { argument = argument; location = blank_location; result = loop_ok })
          f
        ≡ (ok s, f')
      → second_round header callback location.hintblock_state.location
          (add64 header.header_size hintblock_spacing)
          s
          f'
        ≡ (ok s', f'')
      → block_loop_hintblocks_large_device header callback (some location) argument f ≡ (ok s', f'')
  unfolding block_loop_hintblocks_large_device loop_from block_loop_hintblocks_worker
  block_loop_hintblocks_some location argument s s' f f' f'' valid runs again =
      let start : HintLoop A = record {
        argument = argument;
        location = blank_location;
        result = loop_ok;
      } in
      let at_end : ltb f.size f.size ≡ false = le→ltb f.size f.size (omega arith) in
      let test : not location.hintblock_state.valid ≡ false = ap not valid in
      rw test (
        bind_return_ok 1
          (block_loop_hintblocks_worker header callback location.hintblock_state.location f.size
            hintblock_spacing start)
          (λ t.
            second_round header callback location.hintblock_state.location
              (add64 header.header_size hintblock_spacing) t)
          f f' s (rw at_end runs)
        ∙ again)
