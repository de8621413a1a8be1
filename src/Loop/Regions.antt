-- ===== src/Loop/Regions.antt =====
-- src/lib/blocks.c: the loops over the hint blocks of a device have fuel enough, and keep what their
-- callbacks keep.
use blockdevlogger.Base.{
  ℕ, zero, suc, ◌+◌, ◌-◌, ◌*◌, ◌^◌, ◌≤◌, ◌<◌, ◌≡◌, refl, ◌∙◌, inl, inr, false, ◌&&◌, not,
  Bool-cases, ltb, ltb→lt, ◌==◌, add64, sub64, Option, none, some, arith,
}
use blockdevlogger.Layout.{Header, hintblock_spacing}
use blockdevlogger.Device.{
  File, pure, fail, Ends, AlwaysEnds, Ends-call, Ends-bind, Ends-if, Ends-or_return, Ends-weaken,
}
use blockdevlogger.Blocks.{HintblockState, BlockLocation, blank_location}
use blockdevlogger.Hint.{block_get_hintblock_state}
use blockdevlogger.Hint.Termination.{InRegion, block_get_hintblock_state-Ends}
use blockdevlogger.Loop.{
  HintLoop, HintView, HintCallback, loop_ok, loop_err, loop_break, hintblock_round,
  hintblock_rounds, rounds_fuel, block_loop_hintblocks_worker, second_round, loop_from,
  block_loop_hintblocks_large_device,
}
use blockdevlogger.Loop.Termination.{Behind, Ends-elim}

-- The region that a round of the loop over hint blocks shows to its callback.
pub record IsShown (header : Header) (view : HintView) (state : HintblockState) : Type 0 where
  pub location : state.location ≡ view.hintblock_position
  pub low : hintblock_spacing ≤ view.hintblock_position
  pub high : view.hintblock_position < 2 ^ 63
  pub blockstart_max : state.blockstart_max ≡ view.hintblock_position - header.block_size

module _ {A : Type 0} (header : Header) (callback : HintCallback A) (Strong : A → Type 0)
    (Weak : A → Type 0) (weaken : (a : A) → Strong a → Weak a)
    (kept : (view : HintView) (s : HintLoop A)
      → IsShown header view s.location.hintblock_state
      → Strong s.argument
      → AlwaysEnds
          (λ (s' : HintLoop A). Behind Strong Weak s'.argument s'.result)
          (callback view s))
    (largest : header.block_size ≤ 8192) where
  AfterHint : HintLoop A → Type 0
  AfterHint s = Behind Strong Weak s.argument s.result

  hintblock_round-Ends :
      (i lo : ℕ) (s : HintLoop A)
      → hintblock_spacing ≤ i
      → i < 2 ^ 63
      → Strong s.argument
      → AlwaysEnds AfterHint (hintblock_round header callback i lo s)
  unfolding hintblock_round AfterHint
  hintblock_round-Ends i lo s low high h =
      Ends-call (InRegion i lo (sub64 i header.block_size)) AfterHint 1
        (block_get_hintblock_state i header lo (sub64 i header.block_size)) _
        (block_get_hintblock_state-Ends header i lo (sub64 i header.block_size))
        (λ state r. Ends-or_return AfterHint 1 (callback _ _) (
          kept _ (record s { location = record (s.location) { hintblock_state = state } })
            (record { location = r.0; low = low; high = high; blockstart_max = r.2 ∙ below }) h))
    where
      below : sub64 i header.block_size ≡ i - header.block_size
      below = omega (arith, largest)

  hintblock_rounds-Ends :
      (fuel loop_end i lo : ℕ) (s : HintLoop A)
      → 1 ≤ fuel
      → loop_end < 2 ^ 63
      → hintblock_spacing ≤ i
      → loop_end + hintblock_spacing ≤ i + fuel * hintblock_spacing
      → Strong s.argument
      → AlwaysEnds AfterHint
          (hintblock_rounds header callback fuel loop_end hintblock_spacing i lo s)
  unfolding hintblock_rounds AfterHint
  hintblock_rounds-Ends zero loop_end i lo s pos small low enough h f = absurd (omega arith)
  hintblock_rounds-Ends (suc fuel) loop_end i lo s pos small low enough h f =
      elim (Bool-cases (ltb i loop_end)) [
        | inr e ↦ rw (hintblock_rounds, e) (inr h)
        | inl e ↦
            let lt = ltb→lt i loop_end e in
            let next : add64 i hintblock_spacing ≡ i + hintblock_spacing = omega (arith, lt) in
            elim (Bool-cases (ltb lo header.header_size)) [
              | inl e' ↦ rw (hintblock_rounds, e, e') tt
              | inr e' ↦
                  rw (hintblock_rounds, e, e')
                    (Ends-bind AfterHint AfterHint (hintblock_round header callback i lo s) _
                      (hintblock_round-Ends i lo s low (omega (arith, lt)) h)
                      (λ s' after.
                        Ends-elim AfterHint (s'.result == loop_break) (pure s') _ (λ q g. after)
                          (λ q.
                            Ends-elim AfterHint (s'.result == loop_err) (fail 1) _ (λ r g. tt)
                              (λ r.
                                hintblock_rounds-Ends fuel loop_end (add64 i hintblock_spacing)
                                  (add64 i header.block_size) s' (omega (arith, lt)) small
                                  (rw next (omega arith)) (rw next (omega (arith, lt)))
                                  (goes_on_hint s' after q))))
                      f)
            ]
      ]
    where
      goes_on_hint :
          (s : HintLoop A) → AfterHint s → (s.result == loop_break) ≡ false → Strong s.argument
      goes_on_hint s (inl (e, w)) q = absurd (ground arith)
      goes_on_hint s (inr h) q = h

  worker-Ends :
      (loop_begin loop_end : ℕ) (s : HintLoop A)
      → loop_end < 2 ^ 63
      → hintblock_spacing ≤ loop_begin
      → Strong s.argument
      → AlwaysEnds AfterHint
          (block_loop_hintblocks_worker header callback loop_begin loop_end hintblock_spacing s)
  unfolding block_loop_hintblocks_worker
  worker-Ends loop_begin loop_end s small low h f = elim (Bool-cases (ltb f.size loop_end)) [
    | inl e ↦ rw (block_loop_hintblocks_worker, e) tt
    | inr e ↦
        rw (block_loop_hintblocks_worker, e)
          (hintblock_rounds-Ends (rounds_fuel header callback loop_begin loop_end hintblock_spacing)
            loop_end loop_begin (add64 (sub64 loop_begin hintblock_spacing) header.block_size) s
            (omega arith) small low (omega arith) h f)
  ]

  second_round-Ends :
      (loop_begin orig : ℕ) (s : HintLoop A)
      → loop_begin < 2 ^ 63
      → hintblock_spacing ≤ orig
      → AfterHint s
      → AlwaysEnds AfterHint (second_round header callback loop_begin orig s)
  unfolding second_round AfterHint
  second_round-Ends loop_begin orig s small low (inr h) =
      Ends-if AfterHint (not (loop_begin == orig) && not (s.result == loop_break)) _ (pure s)
        (Ends-or_return AfterHint 1
          (block_loop_hintblocks_worker header callback orig loop_begin hintblock_spacing s)
          (worker-Ends orig loop_begin s small low h))
        (λ f. inr h)
  second_round-Ends loop_begin orig s small low (inl (e, w)) =
      let never : (not (loop_begin == orig) && not (s.result == loop_break)) ≡ false =
        ground arith in
      rw never (λ f. inl (e, w))

  WeakAfter : HintLoop A → Type 0
  WeakAfter s = Weak s.argument

  weak : (s : HintLoop A) → AfterHint s → WeakAfter s
  unfolding AfterHint WeakAfter
  weak s (inl (e, w)) = w
  weak s (inr h) = weaken _ h

  loop_from-Ends :
      (loop_begin : ℕ) (argument : A) (f : File)
      → f.size < 2 ^ 63
      → header.header_size < 2 ^ 32
      → hintblock_spacing ≤ loop_begin
      → loop_begin < 2 ^ 63
      → Strong argument
      → Ends WeakAfter (loop_from header callback loop_begin argument f)
  unfolding loop_from WeakAfter AfterHint
  loop_from-Ends loop_begin argument f size narrow low high h =
      let start : HintLoop A = record {
        argument = argument;
        location = blank_location;
        result = loop_ok;
      } in
      let orig : add64 header.header_size hintblock_spacing
          ≡ header.header_size + hintblock_spacing =
        omega arith in
      Ends-call AfterHint WeakAfter 1
        (block_loop_hintblocks_worker header callback loop_begin f.size hintblock_spacing start) _
        (worker-Ends loop_begin f.size start size low h)
        (λ s after g.
          Ends-weaken AfterHint WeakAfter weak
            (second_round header callback loop_begin (add64 header.header_size hintblock_spacing) s
              g)
            (second_round-Ends loop_begin (add64 header.header_size hintblock_spacing) s high
              (rw orig (omega arith)) after g))
        f

  -- On a device of less than 2^63 bytes the loop over the hint blocks always ends, from the first hint
  -- block on or from a given one, and keeps what its callback keeps.
  pub block_loop_hintblocks_large_device-Ends :
      (first : Option BlockLocation) (argument : A) (f : File)
      → f.size < 2 ^ 63
      → header.header_size < 2 ^ 32
      → ((location : BlockLocation)
          → first ≡ some location
          → (hintblock_spacing ≤ location.hintblock_state.location)
            × (location.hintblock_state.location < 2 ^ 63))
      → Strong argument
      → Ends
          (λ (s : HintLoop A). Weak s.argument)
          (block_loop_hintblocks_large_device header callback first argument f)
  unfolding block_loop_hintblocks_large_device WeakAfter
  block_loop_hintblocks_large_device-Ends none argument f size narrow at h =
      let orig : add64 header.header_size hintblock_spacing
          ≡ header.header_size + hintblock_spacing =
        omega arith in
      loop_from-Ends (add64 header.header_size hintblock_spacing) argument f size narrow
        (rw orig (omega arith)) (rw orig (omega arith)) h
  block_loop_hintblocks_large_device-Ends (some first) argument f size narrow at h =
      elim (Bool-cases (not first.hintblock_state.valid)) [
        | inl e ↦ rw (block_loop_hintblocks_large_device, e) tt
        | inr e ↦
            rw (block_loop_hintblocks_large_device, e)
              (loop_from-Ends first.hintblock_state.location argument f size narrow
                (at first refl).0 (at first refl).1 h)
      ]
