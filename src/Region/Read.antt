-- ===== src/Region/Read.antt =====
-- src/lib/read.c over a region: the entries of the log are printed in order, from the timestamp on.
use blockdevlogger.Base.{
  ℕ, zero, suc, ◌+◌, ◌*◌, ◌≤◌, ◌<◌, ◌≡◌, refl, sym, ap, ap₂, ◌∙◌, subst, inl, inr, ◌&&◌, not, List,
  [], ◌∷◌, ◌++◌, append_assoc, append-nil, ◌==◌, if◌then◌else◌, add64, length, arith,
}
use blockdevlogger.Layout.{Header}
use blockdevlogger.Device.{File, ok}
use blockdevlogger.Blocks.{HintblockState}
use blockdevlogger.Blocks.Laws.{read_block_at}
use blockdevlogger.Put.Block.{IsStored}
use blockdevlogger.Hint.Laws.{IsReadable}
use blockdevlogger.Loop.{BlockLoop, loop_break, block_rounds, block_loop_blocks, blocks_fuel}
use blockdevlogger.Loop.Termination.{fuel_left}
use blockdevlogger.Loop.Steps.{
  view_at, block_rounds_stop, block_rounds_skip, block_rounds_read, block_loop_blocks_lem,
  blocks_enough,
}
use blockdevlogger.Read.{ReadLoop, dump_block, read_block_loop_callback}
use blockdevlogger.Region.{Entry, header_of, entries_of, selected, slot, place, Holds}
use blockdevlogger.Region.Places.{slot-suc, slots_le, slot-zero, not_backup}
use blockdevlogger.Region.Print.{selected-cons, dump_block-selected, IsLoop, Prints}

module _ (header : Header) (state : HintblockState) (f : File) (r : IsReadable f header)
    (lo c last : ℕ) (loop : IsLoop header state f lo c last) where
  after_one : BlockLoop ReadLoop → ℕ → BlockLoop ReadLoop
  after_one s i = record {
    argument = dump_block (view_at header state (read_block_loop_callback) f i) s.argument;
    result = 0;
  }

  called :
      (s : BlockLoop ReadLoop) (i : ℕ)
      → (s.argument).limit ≡ 0
      → (dump_block (view_at header state (read_block_loop_callback) f i) s.argument).limit
        ≡ (s.argument).limit
      → read_block_loop_callback
          (view_at header state read_block_loop_callback f i)
          (record s { result = 0 })
          (record f { seek = i })
        ≡ (ok (after_one s i), record f { seek = i })
  unfolding read_block_loop_callback after_one
  called s i none same =
      let d = dump_block (view_at header state (read_block_loop_callback) f i) s.argument in
      let free : d.limit ≡ 0 = same ∙ none in
      let test : (if not (d.limit == 0) && d.result_count == d.limit then loop_break else 0) ≡ 0 =
        ground (arith, free) in
      ap (λ (x : ℕ). (ok (record { argument = d; result = x }), record f { seek = i })) test

  -- The loop from the position `i`, with these entries from there to the last one.
  From : ℕ → ℕ → ℕ → List Entry → BlockLoop ReadLoop → Type 0
  From fuel i seek entries s =
      (s' : BlockLoop ReadLoop) × (q : ℕ) × (block_rounds header state read_block_loop_callback fuel
          header.block_size i s (record f { seek = seek })
        ≡ (ok s', record f { seek = q }))
      × Prints entries s s'

  -- One entry, and what the loop does from the next block on.
  one_entry :
      (fuel n seek : ℕ) (e : Entry) (rest : List Entry) (s : BlockLoop ReadLoop)
      → (s.argument).limit ≡ 0
      → n ≤ last
      → IsStored (header_of e) e.bytes (read_block_at f.contents (place header lo c n) header)
      → ((s1 : BlockLoop ReadLoop)
          → (s1.argument).limit ≡ 0
          → s1.result ≡ 0
          → (q : ℕ) → From fuel (add64 (place header lo c n) header.block_size) q rest s1)
      → From (suc fuel) (place header lo c n) seek (e ∷ rest) s
  unfolding From after_one
  one_entry fuel n seek e rest s none le stored then_rest =
      let i = place header lo c n in
      let view = view_at header state read_block_loop_callback f i in
      let d = dump_block-selected e view s.argument stored.1 stored.2 in
      let s1 = after_one s i in
      let (s', q', runs, prints) = then_rest s1 (d.2 ∙ none) refl i in
      let before = slots_le c n last header.block_size le in
      (
        s',
        q',
        block_rounds_read header state read_block_loop_callback fuel i s s1
              (record f { seek = seek }) (record f { seek = i })
              (record {
                works = r.works;
                fits = r.fits;
                algorithm = r.algorithm;
                narrow = r.narrow;
              })
              (record {
                before_hint = omega (arith, before, loop.inside);
                before_last = omega (arith, before, loop.newest);
              })
              (λ at.
                not_backup c n header.block_size loop.positive (omega (arith, at, loop.backup)))
              (omega (arith, before, loop.inside, loop.room)) stored.0 (called s i none d.2) refl
            ∙ runs,
        record {
          result = prints.result;
          limit = prints.limit;
          timestamp_gteq = prints.timestamp_gteq ∙ d.1;
          printed =
              prints.printed
              ∙ ap₂ (λ xs t. xs ++ selected t rest) d.0 d.1
              ∙ append_assoc (entries_of (s.argument).dumped)
                  (selected (s.argument).timestamp_gteq (e ∷ []))
                  (selected (s.argument).timestamp_gteq rest)
              ∙ ap (λ xs. entries_of (s.argument).dumped ++ xs)
                  (sym (selected-cons (s.argument).timestamp_gteq e rest));
        },
      )

  -- From behind the last entry the loop stops.
  stops :
      (fuel n q : ℕ) (s : BlockLoop ReadLoop)
      → (s.argument).limit ≡ 0
      → s.result ≡ 0
      → n ≡ last
      → 1 ≤ fuel
      → From fuel (add64 (place header lo c n) header.block_size) q [] s
  unfolding From
  stops zero n q s none fine e h = absurd (omega arith)
  stops (suc fuel) n q s none fine e h = (
    s,
    q,
    block_rounds_stop header state read_block_loop_callback fuel header.block_size
        (add64 (place header lo c n) header.block_size) s (record f { seek = q })
        (inr (
          omega (
            arith,
            ap (λ k. slot c k * header.block_size) e,
            loop.newest,
            loop.inside,
            loop.room,
            r.fits,
          ))),
    record {
      result = fine;
      limit = none;
      timestamp_gteq = refl;
      printed = sym (append-nil (entries_of (s.argument).dumped));
    },
  )

  -- The fuel covers the blocks from the position `i` on.
  Fuelled : ℕ → ℕ → Type 0
  Fuelled fuel i =
      (1 ≤ fuel) × (state.blockstart_max + 1 + header.block_size ≤ i + fuel * header.block_size)

  Fuelled-next :
      (fuel i : ℕ)
      → i ≤ state.blockstart_max
      → Fuelled (suc fuel) i
      → Fuelled fuel (add64 i header.block_size)
  unfolding Fuelled
  Fuelled-next fuel i le h =
      fuel_left fuel i state.blockstart_max header.block_size le (omega (arith, loop.room, r.fits))
        h.1

  inside : (n : ℕ) → n ≤ last → place header lo c n ≤ state.blockstart_max
  inside n le = omega (arith, slots_le c n last header.block_size le, loop.inside)

  -- The block behind an entry that is not the last one is the next entry's, or the backup's.
  to_next :
      (fuel n q : ℕ) (entries : List Entry) (s : BlockLoop ReadLoop)
      → n < last
      → Fuelled fuel (add64 (place header lo c n) header.block_size)
      → ((fuel' : ℕ)
          → Fuelled fuel' (place header lo c (suc n))
          → From fuel' (place header lo c (suc n)) q entries s)
      → From fuel (add64 (place header lo c n) header.block_size) q entries s
  unfolding Fuelled From
  to_next zero n q entries s lt h go = absurd (omega (arith, h.0))
  to_next (suc fuel) n q entries s lt h go = elim (slot-suc c n) [
    | inl (next, ne) ↦
        let e : add64 (place header lo c n) header.block_size ≡ place header lo c (suc n) = omega (
          arith,
          ap (λ k. k * header.block_size) next,
          inside n (omega arith),
          loop.room,
          r.fits,
        ) in
        subst (λ i. From (suc fuel) i q entries s) (sym e)
          (go (suc fuel) (subst (Fuelled (suc fuel)) e h))
    | inr (next, at) ↦
        let i = add64 (place header lo c n) header.block_size in
        let behind = inside (suc n) (omega arith) in
        let past = ap (λ k. k * header.block_size) next in
        let low : i ≡ lo + c * header.block_size =
          omega (arith, ap (λ k. k * header.block_size) at, past, behind, loop.room, r.fits) in
        let over : add64 i header.block_size ≡ place header lo c (suc n) =
          omega (arith, low, ap (λ k. k * header.block_size) at, past, behind, loop.room, r.fits) in
        let rest = go fuel (
          subst (Fuelled fuel) over
            (Fuelled-next fuel i (omega (arith, over, behind, low, loop.room, r.fits)) h)) in
        (
          rest.0,
          rest.1,
          block_rounds_skip header state read_block_loop_callback fuel header.block_size i s
                (record f { seek = q })
                (record {
                  before_hint = omega (arith, over, behind, low, loop.room, r.fits);
                  before_last = omega (
                    arith,
                    over,
                    behind,
                    low,
                    loop.room,
                    r.fits,
                    loop.newest,
                    slots_le c (suc n) last header.block_size lt,
                  );
                })
                (omega (arith, low, loop.backup))
              ∙ ap
                  (λ j.
                    block_rounds header state read_block_loop_callback fuel header.block_size j s
                      (record f { seek = q }))
                  over
              ∙ rest.2,
          rest.3,
        )
  ]

  entries-From :
      (entries : List Entry) (e : Entry) (fuel n q : ℕ) (s : BlockLoop ReadLoop)
      → n + length entries ≡ last
      → (s.argument).limit ≡ 0
      → Fuelled fuel (place header lo c n)
      → Holds header lo c f.contents n (e ∷ entries)
      → From fuel (place header lo c n) q (e ∷ entries) s
  unfolding Fuelled
  entries-From [] e zero n q s at none h stored = absurd (omega (arith, h.0))
  entries-From [] e (suc fuel) n q s at none h stored =
      one_entry fuel n q e [] s none (omega arith) stored.0 (λ s1 none1 fine q1.
        stops fuel n q1 s1 none1 fine (omega arith)
          (Fuelled-next fuel (place header lo c n) (inside n (omega arith)) h).0)
  entries-From (e' ∷ entries) e zero n q s at none h stored = absurd (omega (arith, h.0))
  entries-From (e' ∷ entries) e (suc fuel) n q s at none h stored =
      one_entry fuel n q e (e' ∷ entries) s none (omega arith) stored.0 (λ s1 none1 fine q1.
        to_next fuel n q1 (e' ∷ entries) s1 (omega arith)
          (Fuelled-next fuel (place header lo c n) (inside n (omega arith)) h)
          (λ fuel' h'. entries-From entries e' fuel' (suc n) q1 s1 (omega arith) none1 h' stored.1))

-- On a device that works, the loop over a region that holds the log of these entries, with no limit,
-- succeeds, changes no byte, and prints just the entries from the timestamp on, in the log's order.
pub block_loop_blocks-Prints :
    (header : Header) (state : HintblockState) (f : File) (lo c : ℕ) (e : Entry)
    (entries : List Entry) (argument : ReadLoop)
    → IsReadable f header
    → state.blockstart_min ≡ lo
    → IsLoop header state f lo c (length entries)
    → Holds header lo c f.contents 0 (e ∷ entries)
    → argument.limit ≡ 0
    → (s' : BlockLoop ReadLoop) × (q : ℕ) × (block_loop_blocks header state read_block_loop_callback
          header.block_size argument f
        ≡ (ok s', record f { seek = q }))
      × Prints (e ∷ entries) (record { argument = argument; result = 0 }) s'
unfolding From Fuelled
block_loop_blocks-Prints header state f lo c e entries argument r low loop holds none =
    let first : place header lo c 0 ≡ state.blockstart_min =
      omega (arith, ap (λ k. k * header.block_size) (slot-zero c loop.behind), low) in
    let (s', q, runs, prints) =
      entries-From header state f r lo c (length entries) loop entries e
        (blocks_fuel header state read_block_loop_callback) 0 f.seek
        (record { argument = argument; result = 0 }) (omega arith) none
        (omega arith, rw first (blocks_enough header state read_block_loop_callback loop.positive))
        holds in
    (
      s',
      q,
      block_loop_blocks_lem header state read_block_loop_callback argument f
          ∙ ap
              (λ i.
                block_rounds header state read_block_loop_callback
                  (blocks_fuel header state read_block_loop_callback) header.block_size i
                  (record { argument = argument; result = 0 }) f)
              (sym first)
          ∙ runs,
      prints,
    )
