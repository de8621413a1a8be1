-- ===== src/Region/Rounds.antt =====
-- src/lib/blocks.c: the loop over hint blocks, over regions with logs.
use blockdevlogger.Base.{
  ℕ, zero, suc, ◌≤◌, ◌<◌, ◌≡◌, refl, ◌∙◌, inl, inr, false, List, [], add64, sub64, arith,
}
use blockdevlogger.Layout.{Header, hintblock_spacing}
use blockdevlogger.Device.{File, ok}
use blockdevlogger.Blocks.{HintblockState}
use blockdevlogger.Loop.{HintLoop, HintView, HintCallback, loop_ok, loop_break, hintblock_rounds}
use blockdevlogger.Loop.HintSteps.{
  hintblock_round_lem, hintblock_rounds_stop, hintblock_rounds_break, hintblock_rounds_next,
}
use blockdevlogger.Region.{Entry}
use blockdevlogger.Region.State.{IsStateOf, block_get_hintblock_state-IsStateOf}
use blockdevlogger.Region.Find.{first_block, hint_place, IsRegionLog}
use blockdevlogger.Region.Logs.{AllLogs}

-- What a round shows to the callback.
abbrev pub shown_view : Header → ℕ → HintView
shown_view header base = record {
  hintblock_position = hint_place base;
  blockstart_min = first_block header base;
  blockstart_max = sub64 (hint_place base) header.block_size;
}

abbrev pub with_state : {A : Type 0} → HintLoop A → HintblockState → HintLoop A
with_state s state = record s { location = record (s.location) { hintblock_state = state } }

module _ {A : Type 0} (header : Header) (callback : HintCallback A) (c loop_end : ℕ) where
  -- The loop from a base on succeeds, changes no byte and ends with a state of this kind.
  abbrev pub Runs : ℕ → ℕ → HintLoop A → File → (HintLoop A → Type 0) → Type 0
  Runs fuel base s f P =
      (s' : HintLoop A) × (q : ℕ) × (hintblock_rounds header callback fuel loop_end
          hintblock_spacing (hint_place base) (first_block header base) s f
        ≡ (ok s', record f { seek = q }))
      × P s'

  -- Behind the logs the loop stops, if the callback ends it at a state that is not valid.
  pub runs_end :
      (fuel base : ℕ) (s : HintLoop A) (f : File) (P : HintLoop A → Type 0)
      → ((view : HintView) (t : HintLoop A) (g : File)
          → ((t.location).hintblock_state).valid ≡ false
          → callback view t g ≡ (ok (record t { result = loop_break }), g))
      → AllLogs header f c loop_end base []
      → 1 ≤ fuel
      → header.header_size ≤ base
      → P s
      → ((state : HintblockState) → P (record (with_state s state) { result = loop_break }))
      → Runs fuel base s f P
  runs_end zero base s f P breaks h enough behind p p' = absurd (omega (arith, enough))
  runs_end (suc fuel) base s f P breaks (inl over) enough behind p p' = (
    s,
    f.seek,
    hintblock_rounds_stop header callback fuel loop_end hintblock_spacing (hint_place base)
        (first_block header base) s f over,
    p,
  )
  runs_end (suc fuel) base s f P breaks (inr (lt, r)) enough behind p p' =
      let (state, q, found, is_state) =
        block_get_hintblock_state-IsStateOf header f (first_block header base) c (hint_place base)
          r.geometry [] r.log in
      let s' : HintLoop A = record (with_state s state) { result = loop_break } in
      (
        s',
        q,
        hintblock_rounds_break header callback fuel loop_end hintblock_spacing (hint_place base)
            (first_block header base) s s' f (record f { seek = q }) lt (omega (arith, behind))
            (hintblock_round_lem header callback (hint_place base) (first_block header base) s s' f
              (record f { seek = q }) (record f { seek = q }) state found
              (breaks (shown_view header base) (with_state s state) (record f { seek = q })
                is_state.last.0))
            refl,
        p' state,
      )

  -- A round over a log, and what the loop does from the next base on.
  pub runs_next :
      (fuel base : ℕ) (entries : List Entry) (s : HintLoop A) (f : File) (P : HintLoop A → Type 0)
      → hint_place base < loop_end
      → IsRegionLog header f c base entries
      → header.header_size ≤ base
      → ((state : HintblockState)
          → IsStateOf header (first_block header base) c (hint_place base) state entries
          → (q : ℕ)
          → (s1 : HintLoop A) × (q1 : ℕ) × (callback
                (shown_view header base)
                (with_state s state)
                (record f { seek = q })
              ≡ (ok s1, record f { seek = q1 }))
            × (s1.result ≡ loop_ok)
            × Runs fuel (hint_place base) s1 (record f { seek = q1 }) P)
      → Runs (suc fuel) base s f P
  runs_next fuel base entries s f P lt r behind goes =
      let (state, q0, found, is_state) =
        block_get_hintblock_state-IsStateOf header f (first_block header base) c (hint_place base)
          r.geometry entries r.log in
      let (s1, q1, called, fine, rest) = goes state is_state q0 in
      let (s', q, runs, p) = rest in
      let low = (r.geometry).low in
      let next : add64 (hint_place base) hintblock_spacing ≡ hint_place (hint_place base) =
        omega (arith, low) in
      let next' : add64 (hint_place base) header.block_size ≡ first_block header (hint_place base) =
        omega (arith, low, (r.geometry).usable.largest) in
      (
        s',
        q,
        hintblock_rounds_next header callback fuel loop_end hintblock_spacing (hint_place base)
              (first_block header base) s s1 f (record f { seek = q1 }) lt (omega (arith, behind))
              (hintblock_round_lem header callback (hint_place base) (first_block header base) s s1
                f (record f { seek = q0 }) (record f { seek = q1 }) state found called)
              fine
            ∙ rw (next, next') runs,
        p,
      )
