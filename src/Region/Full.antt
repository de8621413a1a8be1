-- ===== src/Region/Full.antt =====
-- src/lib/write.c: the place of a new block on a device whose regions are all full.
use blockdevlogger.Base.{
  ℕ, zero, suc, ◌≤◌, ◌<◌, ◌≡◌, refl, sym, ap, ◌∙◌, subst, inl, true, false, List, [], ◌∷◌, ◌++◌,
  append-nil, length, le→ltb, lt→ltb, ◌==◌, none, add64, sub64, arith,
}
use blockdevlogger.Layout.{Header, hintblock_spacing, small_size_threshold}
use blockdevlogger.Device.{File, ok, bind_return_ok}
use blockdevlogger.Blocks.{BlockLocation, blank_location, blank_state}
use blockdevlogger.Loop.{
  HintLoop, HintView, HintCallback, loop_ok, rounds_fuel, block_loop_hintblocks_large_device,
}
use blockdevlogger.Loop.HintSteps.{
  hintblock_rounds_next, hintblock_rounds_stop, block_loop_hintblocks_none,
}
use blockdevlogger.Write.{
  HintblockTimestamp, write_hintblock_check_timestamps, write_hintblock_check_free_callback,
  write_find_oldest, write_find_location,
}
use blockdevlogger.Region.{Entry}
use blockdevlogger.Region.Log.{Increasing, newest}
use blockdevlogger.Region.State.{IsStateOf, IsStateOf-newest}
use blockdevlogger.Region.Find.{
  first_block, hint_place, AllFull, AllFull-seek, base_behind, round_full,
}
use blockdevlogger.Region.Logs.{
  all_entries, AllLogs, AllLogs-seek, AllLogs-length, Increasing-split, newest-least, newest_any,
}
use blockdevlogger.Region.Rounds.{Runs, runs_next, with_state, shown_view}
use blockdevlogger.Region.WriteRead.{AllFull-AllLogs}

module _ (header : Header) (c : ℕ) where
  -- The search for room passes all regions.
  finds_none :
      (entries : List Entry) (regions : List (List Entry)) (fuel base : ℕ) (s : HintLoop ℕ)
      (f : File)
      → AllFull header f c base (entries ∷ regions)
      → f.size ≤ hint_place (base_behind base (entries ∷ regions))
      → length (entries ∷ regions) < fuel
      → header.header_size ≤ base
      → Runs header
          (write_hintblock_check_free_callback header)
          c
          f.size
          fuel
          base
          s
          f
          (λ s'. s'.argument ≡ 1)
  finds_none entries regions zero base s f full over enough behind = absurd (omega (arith, enough))
  finds_none entries [] (suc zero) base s f full over enough behind = absurd (omega (arith, enough))
  finds_none entries [] (suc (suc fuel)) base s f full over enough behind =
      let (s1, q1, runs, goes, one) = round_full header c f base entries s full.0 full.1 in
      let g = (full.0).geometry in
      let next : add64 (hint_place base) hintblock_spacing ≡ hint_place (hint_place base) =
        omega (arith, g.low) in
      (
        s1,
        q1,
        hintblock_rounds_next header (write_hintblock_check_free_callback header) (suc fuel) f.size
              hintblock_spacing (hint_place base) (first_block header base) s s1 f
              (record f { seek = q1 }) (omega (arith, g.room)) (omega (arith, behind)) runs goes
            ∙ hintblock_rounds_stop header (write_hintblock_check_free_callback header) fuel f.size
                hintblock_spacing _ _ s1 (record f { seek = q1 }) (omega (arith, next, over)),
        one,
      )
  finds_none entries (x ∷ regions) (suc fuel) base s f full over enough behind =
      let (s1, q1, runs, goes, one) = round_full header c f base entries s full.0 full.1 in
      let (s', q, rest, found) =
        finds_none x regions fuel (hint_place base) s1 (record f { seek = q1 })
          (AllFull-seek header f c (hint_place base) q1 (x ∷ regions) full.2) over
          (omega (arith, enough)) (omega (arith, behind)) in
      let g = (full.0).geometry in
      let next : add64 (hint_place base) hintblock_spacing ≡ hint_place (hint_place base) =
        omega (arith, g.low) in
      let next' : add64 (hint_place base) header.block_size ≡ first_block header (hint_place base) =
        omega (arith, g.low, (g.usable).largest) in
      (
        s',
        q,
        hintblock_rounds_next header (write_hintblock_check_free_callback header) fuel f.size
              hintblock_spacing (hint_place base) (first_block header base) s s1 f
              (record f { seek = q1 }) (omega (arith, g.room)) (omega (arith, behind)) runs goes
            ∙ rw (next, next') rest,
        found,
      )

abbrev check_timestamps : HintCallback HintblockTimestamp
check_timestamps = write_hintblock_check_timestamps

-- A region whose newest entry is not older than that of the one kept is passed over.
passes :
    (view : HintView) (s : HintLoop HintblockTimestamp) (f : File)
    → (s.argument).min_timestamp ≤ ((s.location).hintblock_state).highest_timestamp
    → check_timestamps view s f ≡ (ok (record s { result = loop_ok }), f)
unfolding write_hintblock_check_timestamps
passes view s f le = rw (le→ltb _ _ le) refl

takes :
    (view : HintView) (s : HintLoop HintblockTimestamp) (f : File)
    → ((s.location).hintblock_state).highest_timestamp < (s.argument).min_timestamp
    → check_timestamps view s f ≡ (
      ok (record {
        argument = record {
          state = (s.location).hintblock_state;
          initialized = true;
          min_timestamp = ((s.location).hintblock_state).highest_timestamp;
        };
        location = s.location;
        result = loop_ok;
      }),
      f,
    )
unfolding write_hintblock_check_timestamps
takes view s f lt = rw (lt→ltb _ _ lt) refl

module _ (header : Header) (c : ℕ) (loop_end : ℕ) where
  -- Newer regions do not replace the one that is kept.
  keeps_oldest :
      (regions : List (List Entry)) (fuel base t : ℕ) (s : HintLoop HintblockTimestamp) (f : File)
      → AllLogs header f c loop_end base regions
      → loop_end ≤ hint_place (base_behind base regions)
      → Increasing t (all_entries regions)
      → (s.argument).min_timestamp ≤ t
      → length regions < fuel
      → header.header_size ≤ base
      → Runs header check_timestamps c loop_end fuel base s f (λ s'. s'.argument ≡ s.argument)
  keeps_oldest regions zero base t s f h over up le enough behind = absurd (omega (arith, enough))
  keeps_oldest [] (suc fuel) base t s f h over up le enough behind = (
    s,
    f.seek,
    hintblock_rounds_stop header check_timestamps fuel loop_end hintblock_spacing (hint_place base)
        (first_block header base) s f over,
    refl,
  )
  keeps_oldest (x ∷ regions) (suc fuel) base t s f h over up le enough behind =
      let up' = Increasing-split t x (all_entries regions) up in
      let least = newest-least t x up'.0 in
      runs_next header check_timestamps c loop_end fuel base x s f (λ s'. s'.argument ≡ s.argument)
        h.0 h.2 behind
        (λ state is_state q.
          let highest =
            IsStateOf-newest header (first_block header base) c (hint_place base) state x is_state
            ∙ newest_any 0 t x h.1 in
          (
            record (with_state s state) { result = loop_ok },
            q,
            passes (shown_view header base) (with_state s state) (record f { seek = q })
                (omega (arith, le, least, highest)),
            refl,
            keeps_oldest regions fuel (hint_place base) (newest t x)
                (record (with_state s state) { result = loop_ok }) (record f { seek = q })
                (AllLogs-seek header f c loop_end (hint_place base) q regions h.3) over up'.1
                (omega (arith, le, least)) (omega (arith, enough)) (omega (arith, behind)),
          ))

  -- The first region is the one to give up.
  IsGivenUp : ℕ → List Entry → HintLoop HintblockTimestamp → Type 0
  IsGivenUp base entries s =
      ((s.argument).initialized ≡ true)
      × IsStateOf header (first_block header base) c (hint_place base) (s.argument).state entries

  finds_first :
      (entries : List Entry) (regions : List (List Entry)) (fuel base t : ℕ)
      (s : HintLoop HintblockTimestamp) (f : File)
      → AllLogs header f c loop_end base (entries ∷ regions)
      → loop_end ≤ hint_place (base_behind base (entries ∷ regions))
      → Increasing t (all_entries (entries ∷ regions))
      → newest t entries < (s.argument).min_timestamp
      → length (entries ∷ regions) < fuel
      → header.header_size ≤ base
      → Runs header check_timestamps c loop_end fuel base s f (IsGivenUp base entries)
  unfolding IsGivenUp
  finds_first entries regions zero base t s f h over up le enough behind =
      absurd (omega (arith, enough))
  finds_first entries regions (suc fuel) base t s f h over up lt enough behind =
      let up' = Increasing-split t entries (all_entries regions) up in
      runs_next header check_timestamps c loop_end fuel base entries s f (IsGivenUp base entries)
        h.0 h.2 behind
        (λ state is_state q.
          let highest =
            IsStateOf-newest header (first_block header base) c (hint_place base) state entries
              is_state
            ∙ newest_any 0 t entries h.1 in
          let s1 : HintLoop HintblockTimestamp = record {
            argument = record {
              state = state;
              initialized = true;
              min_timestamp = state.highest_timestamp;
            };
            location = record (s.location) { hintblock_state = state };
            result = loop_ok;
          } in
          let rest =
            keeps_oldest regions fuel (hint_place base) (newest t entries) s1
              (record f { seek = q })
              (AllLogs-seek header f c loop_end (hint_place base) q regions h.3) over up'.1
              (omega (arith, highest)) (omega (arith, enough)) (omega (arith, behind)) in
          (
            s1,
            q,
            takes (shown_view header base) (with_state s state) (record f { seek = q })
                (omega (arith, lt, highest)),
            refl,
            (
              rest.0,
              rest.1,
              rest.2,
              (
                ap (λ (a : HintblockTimestamp). a.initialized) rest.3,
                subst
                    (λ (a : HintblockTimestamp).
                      IsStateOf header (first_block header base) c (hint_place base) a.state
                        entries)
                    (sym rest.3) is_state,
              ),
            ),
          ))

-- On a device of at least 256 MiB whose regions are all full and leave no room behind them, with
-- timestamps that increase, the place for a new block is the first one of the region with the oldest
-- entries, with the state of its hint block, and no byte is changed.
pub write_find_location-oldest :
    (header : Header) (c : ℕ) (entries : List Entry) (regions : List (List Entry)) (f : File)
    → small_size_threshold ≤ f.size
    → AllFull header f c header.header_size (entries ∷ regions)
    → f.size ≤ hint_place (base_behind header.header_size (entries ∷ regions))
    → Increasing 0 (all_entries (entries ∷ regions))
    → newest 0 entries < 0xffff_ffff_ffff_ffff
    → (location : BlockLocation) × (q : ℕ) × (write_find_location header f
        ≡ (ok location, record f { seek = q }))
      × (location.block_location ≡ first_block header header.header_size)
      × IsStateOf header
          (first_block header header.header_size)
          c
          (hint_place header.header_size)
          location.hintblock_state
          entries
unfolding write_find_location write_find_oldest IsGivenUp
write_find_location-oldest header c entries regions f large full over up top =
    let base = header.header_size in
    let g = (full.0).geometry in
    let free = write_hintblock_check_free_callback header in
    let all = entries ∷ regions in
    let logs : AllLogs header f c f.size base (all ++ []) =
      AllFull-AllLogs header f c base all [] full (inl over) in
    let logs' = subst (AllLogs header f c f.size base) (append-nil all) logs in
    let short = AllLogs-length header f c f.size base all logs' in
    let (s, q, runs, one) =
      finds_none header c entries regions
        (rounds_fuel header free (hint_place base) f.size hintblock_spacing) base
        (record { argument = 0; location = blank_location; result = loop_ok }) f full over
        (omega (arith, short)) (omega arith) in
    let f1 : File = record f { seek = q } in
    let start : HintblockTimestamp = record {
      state = blank_state;
      initialized = false;
      min_timestamp = 0xffff_ffff_ffff_ffff;
    } in
    let (s', q', runs', given_up) =
      finds_first header c f.size entries regions
        (rounds_fuel header check_timestamps (hint_place base) f.size hintblock_spacing) base 0
        (record { argument = start; location = blank_location; result = loop_ok }) f1
        (AllLogs-seek header f c f.size base q all logs') over up top (omega (arith, short))
        (omega arith) in
    let at_first : add64 (sub64 (hint_place base) hintblock_spacing) header.block_size
        ≡ first_block header base =
      omega (arith, g.low, (g.usable).largest) in
    let test : (s.argument == 0) ≡ false = ground (arith, one) in
    (
      record {
        block_location = (s'.argument).state.blockstart_min;
        hintblock_state = (s'.argument).state;
      },
      q',
      rw (le→ltb f.size small_size_threshold large) (
          bind_return_ok 1 (block_loop_hintblocks_large_device header free none 0) _ f f1 s (
            block_loop_hintblocks_none header free 0 s f f1 (omega (arith, g.low))
              (omega (arith, (g.usable).largest)) (rw at_first runs))
          ∙ rw test (
              bind_return_ok 1
                (block_loop_hintblocks_large_device header check_timestamps none start) _ f1
                (record f { seek = q' }) s'
                (block_loop_hintblocks_none header check_timestamps start s' f1
                  (record f { seek = q' }) (omega (arith, g.low))
                  (omega (arith, (g.usable).largest)) (rw at_first runs'))
              ∙ rw given_up.0 refl)),
      given_up.1.low,
      given_up.1,
    )
