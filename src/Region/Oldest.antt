-- ===== src/Region/Oldest.antt =====
-- src/lib/blocks.c: the search for the region to read first, over regions with logs.
use blockdevlogger.Base.{
  ℕ, zero, suc, ◌≤◌, ◌<◌, ◌≡◌, refl, sym, ap, ap₂, ◌∙◌, subst, ◌⊎◌, inl, inr, true, false,
  Bool-cases, not, List, [], ◌∷◌, ◌++◌, length, ltb, ltb→lt, ltb→le, le→ltb, lt→ltb, arith,
}
use blockdevlogger.Layout.{Header}
use blockdevlogger.Device.{File, ok}
use blockdevlogger.Blocks.{HintblockState, blank_state}
use blockdevlogger.Loop.{
  HintLoop, HintView, HintCallback, FindSmallest, loop_ok, loop_break,
  block_find_oldest_hintblock_loop_callback,
}
use blockdevlogger.Region.{Entry, selected}
use blockdevlogger.Region.Log.{Increasing, newest}
use blockdevlogger.Region.State.{IsStateOf, IsStateOf-newest, IsStateOf-valid}
use blockdevlogger.Region.Find.{first_block, hint_place, base_behind}
use blockdevlogger.Region.Logs.{
  all_entries, AllLogs, AllLogs-seek, Increasing-split, newest-split, newest-least, newest_any,
  selected-older, selected-append,
}
use blockdevlogger.Region.Rounds.{Runs, runs_end, runs_next, with_state, shown_view}

abbrev callback : HintCallback FindSmallest
callback = block_find_oldest_hintblock_loop_callback

breaks :
    (view : HintView) (s : HintLoop FindSmallest) (f : File)
    → ((s.location).hintblock_state).valid ≡ false
    → callback view s f ≡ (ok (record s { result = loop_break }), f)
unfolding block_find_oldest_hintblock_loop_callback
breaks view s f e =
    let test : not ((s.location).hintblock_state).valid ≡ true = ap not e in rw test refl

-- A region whose newest entry is too old, or newer than that of the one found, is passed over.
passes :
    (view : HintView) (s : HintLoop FindSmallest) (f : File)
    → ((s.location).hintblock_state).valid ≡ true
    → s.result ≡ loop_ok
    → (((s.location).hintblock_state).highest_timestamp < (s.argument).timestamp_gteq)
      ⊎ ((s.argument).smallest_timestamp ≤ ((s.location).hintblock_state).highest_timestamp)
    → callback view s f ≡ (ok (record s { result = loop_ok }), f)
unfolding block_find_oldest_hintblock_loop_callback
passes view s f e fine h =
    let test : not ((s.location).hintblock_state).valid ≡ false = ap not e in
    elim (Bool-cases
      (ltb ((s.location).hintblock_state).highest_timestamp (s.argument).timestamp_gteq)) [
        | inl old ↦ rw (test, old) refl
        | inr new ↦
            let behind : ltb ((s.location).hintblock_state).highest_timestamp
                  (s.argument).smallest_timestamp
                ≡ false =
              ground (arith, h, new) in
            rw (test, new, behind) (ap (λ (r : ℕ). (ok (record s { result = r }), f)) fine)
      ]

takes :
    (view : HintView) (s : HintLoop FindSmallest) (f : File)
    → ((s.location).hintblock_state).valid ≡ true
    → s.result ≡ loop_ok
    → (s.argument).timestamp_gteq ≤ ((s.location).hintblock_state).highest_timestamp
    → ((s.location).hintblock_state).highest_timestamp < (s.argument).smallest_timestamp
    → callback view s f ≡ (
      ok (record {
        argument = record (s.argument) {
          smallest_timestamp = ((s.location).hintblock_state).highest_timestamp;
          smallest_state = (s.location).hintblock_state;
        };
        location = s.location;
        result = loop_ok;
      }),
      f,
    )
unfolding block_find_oldest_hintblock_loop_callback
takes view s f e fine new lt =
    let test : not ((s.location).hintblock_state).valid ≡ false = ap not e in
    rw (test, le→ltb _ _ new, lt→ltb _ _ lt)
      (ap
        (λ (r : ℕ). (
          ok (record {
            argument = record (s.argument) {
              smallest_timestamp = ((s.location).hintblock_state).highest_timestamp;
              smallest_state = (s.location).hintblock_state;
            };
            location = s.location;
            result = r;
          }),
          f,
        ))
        fine)

-- The region that a read begins with: the logs before it have nothing new enough; or no log has.
abbrev pub IsOldest : Header → ℕ → ℕ → ℕ → List (List Entry) → HintblockState → Type 0
IsOldest header c timestamp_gteq base regions state =
    (selected timestamp_gteq (all_entries regions) ≡ []) × (state ≡ blank_state)
    ⊎ (before : List (List Entry)) × (entries : List Entry) × (after : List (List Entry)) × (regions
        ≡ before ++ entries ∷ after)
      × (selected timestamp_gteq (all_entries before) ≡ [])
      × IsStateOf header (first_block header (base_behind base before)) c
          (hint_place (base_behind base before)) state entries

IsOldest-behind :
    (header : Header) (c timestamp_gteq base : ℕ) (x : List Entry) (regions : List (List Entry))
    (state : HintblockState)
    → selected timestamp_gteq x ≡ []
    → IsOldest header c timestamp_gteq (hint_place base) regions state
    → IsOldest header c timestamp_gteq base (x ∷ regions) state
IsOldest-behind header c t base x regions state old (inl (nothing, blank)) = inl (
  selected-append t x (all_entries regions) ∙ ap₂ (λ (xs ys : List Entry). xs ++ ys) old nothing,
  blank,
)
IsOldest-behind header c t base x regions state old
      (inr (before, entries, after, e, nothing, is_state)) =
    inr (
      x ∷ before,
      entries,
      after,
      ap (λ rs. x ∷ rs) e,
      selected-append t x (all_entries before) ∙ ap₂ (λ (xs ys : List Entry). xs ++ ys) old nothing,
      is_state,
    )

-- Before a region has been found.
pub record IsSearching (timestamp_gteq : ℕ) (s : HintLoop FindSmallest) : Type 0 where
  pub asked : (s.argument).timestamp_gteq ≡ timestamp_gteq
  pub smallest : (s.argument).smallest_timestamp ≡ 0xffff_ffff_ffff_ffff
  pub blank : (s.argument).smallest_state ≡ blank_state
  pub fine : s.result ≡ loop_ok

module _ (header : Header) (c loop_end : ℕ) where
  -- Once a region has been found, newer ones do not replace it.
  keeps_found :
      (regions : List (List Entry)) (fuel base t : ℕ) (s : HintLoop FindSmallest) (f : File)
      → AllLogs header f c loop_end base regions
      → Increasing t (all_entries regions)
      → (s.argument).smallest_timestamp ≤ t
      → s.result ≡ loop_ok
      → length regions < fuel
      → header.header_size ≤ base
      → Runs header callback c loop_end fuel base s f (λ s'. s'.argument ≡ s.argument)
  keeps_found [] fuel base t s f h up le fine enough behind =
      runs_end header callback c loop_end fuel base s f (λ s'. s'.argument ≡ s.argument) breaks h
        (omega (arith, enough)) behind refl (λ state. refl)
  keeps_found (x ∷ regions) zero base t s f h up le fine enough behind =
      absurd (omega (arith, enough))
  keeps_found (x ∷ regions) (suc fuel) base t s f h up le fine enough behind =
      let up' = Increasing-split t x (all_entries regions) up in
      let least = newest-least t x up'.0 in
      runs_next header callback c loop_end fuel base x s f (λ s'. s'.argument ≡ s.argument) h.0 h.2
        behind
        (λ state is_state q.
          let highest =
            IsStateOf-newest header (first_block header base) c (hint_place base) state x is_state
            ∙ newest_any 0 t x h.1 in
          let valid =
            IsStateOf-valid header (first_block header base) c (hint_place base) state x is_state
              h.1 in
          (
            record (with_state s state) { result = loop_ok },
            q,
            passes (shown_view header base) (with_state s state) (record f { seek = q }) valid fine
                (inr (omega (arith, le, least, highest))),
            refl,
            keeps_found regions fuel (hint_place base) (newest t x)
                (record (with_state s state) { result = loop_ok }) (record f { seek = q })
                (AllLogs-seek header f c loop_end (hint_place base) q regions h.3) up'.1
                (omega (arith, le, least)) refl (omega (arith, enough)) (omega (arith, behind)),
          ))

  -- The loop over regions with logs, with timestamps that increase, finds the oldest region with an
  -- entry that is new enough.
  pub finds-IsOldest :
      (regions : List (List Entry)) (fuel base t timestamp_gteq : ℕ) (s : HintLoop FindSmallest)
      (f : File)
      → AllLogs header f c loop_end base regions
      → Increasing t (all_entries regions)
      → newest t (all_entries regions) < 0xffff_ffff_ffff_ffff
      → IsSearching timestamp_gteq s
      → length regions < fuel
      → header.header_size ≤ base
      → Runs header callback c loop_end fuel base s f
          (λ s'. IsOldest header c timestamp_gteq base regions (s'.argument).smallest_state)
  finds-IsOldest [] fuel base t timestamp_gteq s f h up top search enough behind =
      runs_end header callback c loop_end fuel base s f
        (λ s'. IsOldest header c timestamp_gteq base [] (s'.argument).smallest_state) breaks h
        (omega (arith, enough)) behind (inl (refl, search.blank))
        (λ state. inl (refl, search.blank))
  finds-IsOldest (x ∷ regions) zero base t timestamp_gteq s f h up top search enough behind =
      absurd (omega (arith, enough))
  finds-IsOldest (x ∷ regions) (suc fuel) base t timestamp_gteq s f h up top search enough behind =
      let up' = Increasing-split t x (all_entries regions) up in
      let least = newest-least (newest t x) (all_entries regions) up'.1 in
      let split = newest-split t x (all_entries regions) in
      runs_next header callback c loop_end fuel base x s f
        (λ s'. IsOldest header c timestamp_gteq base (x ∷ regions) (s'.argument).smallest_state) h.0
        h.2 behind
        (λ state is_state q.
          let highest =
            IsStateOf-newest header (first_block header base) c (hint_place base) state x is_state
            ∙ newest_any 0 t x h.1 in
          let valid =
            IsStateOf-valid header (first_block header base) c (hint_place base) state x is_state
              h.1 in
          let view = shown_view header base in
          let rest = AllLogs-seek header f c loop_end (hint_place base) q regions h.3 in
          elim (Bool-cases (ltb state.highest_timestamp timestamp_gteq)) [
            | inl old ↦
                let older = ltb→lt state.highest_timestamp timestamp_gteq old in
                let s1 : HintLoop FindSmallest = record (with_state s state) { result = loop_ok } in
                let found =
                  finds-IsOldest regions fuel (hint_place base) (newest t x) timestamp_gteq s1
                    (record f { seek = q }) rest up'.1 (omega (arith, top, split))
                    (record {
                      asked = search.asked;
                      smallest = search.smallest;
                      blank = search.blank;
                      fine = refl;
                    })
                    (omega (arith, enough)) (omega (arith, behind)) in
                (
                  s1,
                  q,
                  passes view (with_state s state) (record f { seek = q }) valid search.fine
                      (inl (omega (arith, older, search.asked))),
                  refl,
                  (
                    found.0,
                    found.1,
                    found.2,
                    IsOldest-behind header c timestamp_gteq base x regions _
                        (selected-older t timestamp_gteq x up'.0 (omega (arith, older, highest)))
                        found.3,
                  ),
                )
            | inr new ↦
                let s1 : HintLoop FindSmallest = record {
                  argument = record (s.argument) {
                    smallest_timestamp = state.highest_timestamp;
                    smallest_state = state;
                  };
                  location = record (s.location) { hintblock_state = state };
                  result = loop_ok;
                } in
                let found =
                  keeps_found regions fuel (hint_place base) (newest t x) s1 (record f { seek = q })
                    rest up'.1 (omega (arith, highest)) refl (omega (arith, enough))
                    (omega (arith, behind)) in
                (
                  s1,
                  q,
                  takes view (with_state s state) (record f { seek = q }) valid search.fine
                      (omega
                        (arith, ltb→le state.highest_timestamp timestamp_gteq new, search.asked))
                      (omega (arith, search.smallest, highest, least, split, top)),
                  refl,
                  (
                    found.0,
                    found.1,
                    found.2,
                    inr (
                      [],
                      x,
                      regions,
                      refl,
                      refl,
                      subst
                          (λ (a : FindSmallest).
                            IsStateOf header (first_block header base) c (hint_place base)
                              a.smallest_state x)
                          (sym found.3) is_state,
                    ),
                  ),
                )
          ])
