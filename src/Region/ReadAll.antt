-- ===== src/Region/ReadAll.antt =====
-- src/lib/read.c over regions with logs: what the loop over the regions prints.
use blockdevlogger.Base.{
  ℕ, zero, suc, ◌≤◌, ◌<◌, ◌≡◌, refl, sym, ap, ◌∙◌, subst, inl, inr, true, false, Bool-cases, not,
  List, [], ◌∷◌, ◌++◌, append_assoc, append-nil, length, ltb, leb, ltb→lt, ltb→le, le→ltb, lt→ltb,
  ◌==◌, ◌&&◌, arith,
}
use blockdevlogger.Layout.{Header}
use blockdevlogger.Device.{File, ok, bind_return_ok}
use blockdevlogger.Blocks.{HintblockState}
use blockdevlogger.Loop.{HintLoop, HintView, BlockLoop, loop_ok, loop_break, block_loop_blocks}
use blockdevlogger.Read.{
  ReadLoop, check_limit, read_block_loop_callback, read_hintblock_loop_callback,
}
use blockdevlogger.Region.{Entry, entries_of, selected}
use blockdevlogger.Region.Log.{Increasing, newest}
use blockdevlogger.Region.State.{
  IsStateOf, IsStateOf-newest, IsStateOf-valid, IsGeometry-IsReadable,
}
use blockdevlogger.Region.Read.{block_loop_blocks-Prints}
use blockdevlogger.Region.Find.{first_block, hint_place, IsRegionLog, IsRegionLog-seek}
use blockdevlogger.Region.Logs.{
  all_entries, AllLogs, AllLogs-seek, Increasing-split, newest_any, selected-older, selected-append,
}
use blockdevlogger.Region.Rounds.{Runs, runs_end, runs_next, with_state, shown_view}

-- The loop has read on, and printed what is selected of these entries.
pub record HasRead (timestamp_gteq : ℕ) (entries : List Entry) (a a' : ReadLoop) : Type 0 where
  pub limit : a'.limit ≡ 0
  pub asked : a'.timestamp_gteq ≡ timestamp_gteq
  pub printed : entries_of a'.dumped ≡ entries_of a.dumped ++ selected timestamp_gteq entries

HasRead-next :
    (t : ℕ) (xs ys : List Entry) (a a' a'' : ReadLoop)
    → HasRead t xs a a'
    → HasRead t ys a' a''
    → HasRead t (xs ++ ys) a a''
HasRead-next t xs ys a a' a'' h h' = record {
  limit = h'.limit;
  asked = h'.asked;
  printed =
      h'.printed
      ∙ ap (λ es. es ++ selected t ys) h.printed
      ∙ append_assoc (entries_of a.dumped) (selected t xs) (selected t ys)
      ∙ ap (λ es. entries_of a.dumped ++ es) (sym (selected-append t xs ys));
}

-- Nothing is selected, and nothing is printed.
HasRead-none :
    (t : ℕ) (xs : List Entry) (a : ReadLoop)
    → a.limit ≡ 0
    → a.timestamp_gteq ≡ t
    → selected t xs ≡ []
    → HasRead t xs a a
HasRead-none t xs a free asked nothing = record {
  limit = free;
  asked = asked;
  printed =
      sym (append-nil (entries_of a.dumped)) ∙ ap (λ es. entries_of a.dumped ++ es) (sym nothing);
}

breaks :
    (header : Header) (view : HintView) (s : HintLoop ReadLoop) (f : File)
    → ((s.location).hintblock_state).valid ≡ false
    → read_hintblock_loop_callback header view s f ≡ (ok (record s { result = loop_break }), f)
unfolding read_hintblock_loop_callback
breaks header view s f e =
    let test : not ((s.location).hintblock_state).valid ≡ true = ap not e in rw test refl

-- A region whose newest entry is too old is passed over.
passes :
    (header : Header) (view : HintView) (s : HintLoop ReadLoop) (f : File)
    → ((s.location).hintblock_state).valid ≡ true
    → ((s.location).hintblock_state).highest_timestamp < (s.argument).timestamp_gteq
    → read_hintblock_loop_callback header view s f ≡ (ok (record s { result = loop_ok }), f)
unfolding read_hintblock_loop_callback
passes header view s f e old =
    let test : not ((s.location).hintblock_state).valid ≡ false = ap not e in
    rw (test, lt→ltb _ _ old) refl

-- Without a limit a region is read to its end.
reads :
    (header : Header) (view : HintView) (s : HintLoop ReadLoop) (blocks : BlockLoop ReadLoop)
    (f f' : File)
    → ((s.location).hintblock_state).valid ≡ true
    → (s.argument).timestamp_gteq ≤ ((s.location).hintblock_state).highest_timestamp
    → block_loop_blocks header
        (s.location).hintblock_state
        read_block_loop_callback
        header.block_size
        s.argument
        f
      ≡ (ok blocks, f')
    → (blocks.argument).limit ≡ 0
    → blocks.result ≡ loop_ok
    → read_hintblock_loop_callback header view s f
      ≡ (ok (record s { argument = blocks.argument; result = loop_ok }), f')
unfolding read_hintblock_loop_callback check_limit
reads header view s blocks f f' e new runs free fine =
    let test : not ((s.location).hintblock_state).valid ≡ false = ap not e in
    let unlimited : (not ((blocks.argument).limit == 0)
          && leb (blocks.argument).limit (blocks.argument).result_count)
        ≡ false =
      ground (arith, free) in
    rw (test, le→ltb _ _ new)
      (bind_return_ok 1
          (block_loop_blocks header (s.location).hintblock_state read_block_loop_callback
            header.block_size s.argument)
          (check_limit s) f f' blocks runs
        ∙ rw unlimited
            (ap (λ (r : ℕ). (ok (record s { argument = blocks.argument; result = r }), f')) fine))

-- The blocks of a region with a log.
log_prints :
    (header : Header) (f : File) (c base : ℕ) (entries : List Entry) (state : HintblockState)
    (argument : ReadLoop)
    → IsRegionLog header f c base entries
    → 1 ≤ length entries
    → IsStateOf header (first_block header base) c (hint_place base) state entries
    → argument.limit ≡ 0
    → (blocks : BlockLoop ReadLoop) × (q : ℕ) × (block_loop_blocks header state
          read_block_loop_callback header.block_size argument f
        ≡ (ok blocks, record f { seek = q }))
      × (blocks.result ≡ 0)
      × HasRead argument.timestamp_gteq entries argument blocks.argument
log_prints header f c base [] state argument r some is_state free = absurd (omega (arith, some))
log_prints header f c base (e ∷ entries) state argument r some is_state free =
    let g = r.geometry in
    let (blocks, q, runs, prints) =
      block_loop_blocks-Prints header state f (first_block header base) c e entries argument
        (IsGeometry-IsReadable header f (first_block header base) c (hint_place base) g)
        is_state.low
        (record {
          backup = is_state.backup;
          newest = is_state.last.1;
          inside = omega (arith, is_state.last.3, is_state.high);
          room = omega (arith, is_state.high, g.room);
          positive = omega (arith, (g.usable).smallest);
          behind = g.behind;
        })
        (r.log).holds free in
    (
      blocks,
      q,
      runs,
      prints.result,
      record { limit = prints.limit; asked = prints.timestamp_gteq; printed = prints.printed },
    )

module _ (header : Header) (c loop_end timestamp_gteq : ℕ) where
  -- The loop prints what is selected of all logs.
  pub reads_all :
      (regions : List (List Entry)) (fuel base t : ℕ) (s : HintLoop ReadLoop) (f : File)
      → AllLogs header f c loop_end base regions
      → Increasing t (all_entries regions)
      → (s.argument).limit ≡ 0
      → (s.argument).timestamp_gteq ≡ timestamp_gteq
      → length regions < fuel
      → header.header_size ≤ base
      → Runs header
          (read_hintblock_loop_callback header)
          c
          loop_end
          fuel
          base
          s
          f
          (λ s'. HasRead timestamp_gteq (all_entries regions) s.argument s'.argument)
  reads_all [] fuel base t s f h up free asked enough behind =
      runs_end header (read_hintblock_loop_callback header) c loop_end fuel base s f
        (λ s'. HasRead timestamp_gteq [] s.argument s'.argument) (breaks header) h
        (omega (arith, enough)) behind (HasRead-none timestamp_gteq [] s.argument free asked refl)
        (λ state. HasRead-none timestamp_gteq [] s.argument free asked refl)
  reads_all (x ∷ regions) zero base t s f h up free asked enough behind =
      absurd (omega (arith, enough))
  reads_all (x ∷ regions) (suc fuel) base t s f h up free asked enough behind =
      let up' = Increasing-split t x (all_entries regions) up in
      runs_next header (read_hintblock_loop_callback header) c loop_end fuel base x s f
        (λ s'. HasRead timestamp_gteq (x ++ all_entries regions) s.argument s'.argument) h.0 h.2
        behind
        (λ state is_state q.
          let highest =
            IsStateOf-newest header (first_block header base) c (hint_place base) state x is_state
            ∙ newest_any 0 t x h.1 in
          let valid =
            IsStateOf-valid header (first_block header base) c (hint_place base) state x is_state
              h.1 in
          let view = shown_view header base in
          let f0 : File = record f { seek = q } in
          elim (Bool-cases (ltb state.highest_timestamp timestamp_gteq)) [
            | inl old ↦
                let older = ltb→lt state.highest_timestamp timestamp_gteq old in
                let s1 : HintLoop ReadLoop = record (with_state s state) { result = loop_ok } in
                let first =
                  HasRead-none timestamp_gteq x s.argument free asked
                    (selected-older t timestamp_gteq x up'.0 (omega (arith, older, highest))) in
                let rest =
                  reads_all regions fuel (hint_place base) (newest t x) s1 f0
                    (AllLogs-seek header f c loop_end (hint_place base) q regions h.3) up'.1 free
                    asked (omega (arith, enough)) (omega (arith, behind)) in
                (
                  s1,
                  q,
                  passes header view (with_state s state) f0 valid (omega (arith, older, asked)),
                  refl,
                  (
                    rest.0,
                    rest.1,
                    rest.2,
                    HasRead-next timestamp_gteq x (all_entries regions) s.argument s.argument _
                        first rest.3,
                  ),
                )
            | inr new ↦
                let newer = ltb→le state.highest_timestamp timestamp_gteq new in
                let (blocks, q1, runs, fine, printed) =
                  log_prints header f0 c base x state s.argument
                    (IsRegionLog-seek header f c base q x h.2) h.1 is_state free in
                let s1 : HintLoop ReadLoop = record (with_state s state) {
                  argument = blocks.argument;
                  result = loop_ok;
                } in
                let first : HasRead timestamp_gteq x s.argument blocks.argument =
                  subst (λ n. HasRead n x s.argument blocks.argument) asked printed in
                let rest =
                  reads_all regions fuel (hint_place base) (newest t x) s1 (record f { seek = q1 })
                    (AllLogs-seek header f c loop_end (hint_place base) q1 regions h.3) up'.1
                    first.limit first.asked (omega (arith, enough)) (omega (arith, behind)) in
                (
                  s1,
                  q1,
                  reads header view (with_state s state) blocks f0 (record f { seek = q1 }) valid
                      (omega (arith, newer, asked)) runs printed.limit fine,
                  refl,
                  (
                    rest.0,
                    rest.1,
                    rest.2,
                    HasRead-next timestamp_gteq x (all_entries regions) s.argument blocks.argument _
                        first rest.3,
                  ),
                )
          ])
