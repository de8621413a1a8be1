-- ===== src/Region/ReadBlocks.antt =====
-- src/lib/read.c over a device of regions with logs: a read prints what it selects of all entries.
use blockdevlogger.Base.{
  ℕ, ◌<◌, ◌^◌, ◌≡◌, refl, sym, ap, ap₂, ◌∙◌, subst, inl, inr, true, false, not, none, some, List,
  [], ◌∷◌, ◌++◌, append-nil, length, add64, sub64, arith,
}
use blockdevlogger.Layout.{Header, decode_header, hintblock_spacing}
use blockdevlogger.Device.{File, ok, read_bytes, pure, bind_return_ok}
use blockdevlogger.Validate.{validate_header}
use blockdevlogger.Blocks.{
  BlockLocation, HintblockState, blank_location, blank_state, block_get_validate_master_header,
}
use blockdevlogger.Blocks.Laws.{block_get_validate_master_header_lem}
use blockdevlogger.Put.Laws.{IsUsable}
use blockdevlogger.Loop.{
  HintLoop, FindSmallest, loop_ok, rounds_fuel, second_round, block_loop_hintblocks_large_device,
  block_find_oldest_hintblock_loop_callback, block_find_oldest_hintblock,
}
use blockdevlogger.Loop.HintSteps.{
  block_loop_hintblocks_none, block_loop_hintblocks_some, second_round_lem,
}
use blockdevlogger.Read.{Dump, ReadLoop, read_hintblock_loop_callback, read_from, read_blocks}
use blockdevlogger.Region.{Entry, entries_of, selected}
use blockdevlogger.Region.Log.{Increasing, newest}
use blockdevlogger.Region.State.{IsStateOf-valid}
use blockdevlogger.Region.Find.{first_block, hint_place, base_behind}
use blockdevlogger.Region.Logs.{
  all_entries, all_entries-append, AllLogs, AllLogs-seek, AllLogs-length, AllLogs-behind,
  AllLogs-before, Increasing-split, selected-append,
}
use blockdevlogger.Region.Oldest.{IsOldest, finds-IsOldest}
use blockdevlogger.Region.ReadAll.{reads_all}

-- A device whose regions hold these logs, none of them empty, with timestamps that increase.
pub record HoldsLogs (header : Header) (c : ℕ) (regions : List (List Entry)) (f : File)
    : Type 0 where
  pub usable : IsUsable f header
  pub master : decode_header (read_bytes f.contents 0 64) ≡ header
  pub accepted : validate_header header f.size ≡ some 0
  pub room : 64 < f.size
  pub narrow : header.header_size < 2 ^ 32
  pub logs : AllLogs header f c f.size header.header_size regions
  pub increasing : Increasing 0 (all_entries regions)
  pub not_last : newest 0 (all_entries regions) < 0xffff_ffff_ffff_ffff

HoldsLogs-seek :
    (header : Header) (c : ℕ) (regions : List (List Entry)) (f : File) (q : ℕ)
    → HoldsLogs header c regions f
    → HoldsLogs header c regions (record f { seek = q })
HoldsLogs-seek header c regions f q d = record {
  usable = record {
    works = (d.usable).works;
    fits = (d.usable).fits;
    algorithm = (d.usable).algorithm;
    smallest = (d.usable).smallest;
    largest = (d.usable).largest;
  };
  master = d.master;
  accepted = d.accepted;
  room = d.room;
  narrow = d.narrow;
  logs = AllLogs-seek header f c f.size header.header_size q regions d.logs;
  increasing = d.increasing;
  not_last = d.not_last;
}

module _ (header : Header) (c : ℕ) (regions : List (List Entry)) (f : File)
    (d : HoldsLogs header c regions f) (timestamp_gteq : ℕ) where
  -- The first block of the region of a hint block, as the loops compute it.
  first_block_at :
      (base : ℕ)
      → base < 2 ^ 63
      → add64 (sub64 (hint_place base) hintblock_spacing) header.block_size
        ≡ first_block header base
  first_block_at base low = omega (arith, low, (d.usable).largest)

  block_find_oldest_hintblock-IsOldest :
      (location : BlockLocation) × (q : ℕ) × (block_find_oldest_hintblock header timestamp_gteq f
        ≡ (ok location, record f { seek = q }))
      × IsOldest header c timestamp_gteq header.header_size regions location.hintblock_state
  unfolding block_find_oldest_hintblock
  block_find_oldest_hintblock-IsOldest =
      let base = header.header_size in
      let callback = block_find_oldest_hintblock_loop_callback in
      let start : FindSmallest = record {
        timestamp_gteq = timestamp_gteq;
        smallest_timestamp = 0xffff_ffff_ffff_ffff;
        smallest_state = blank_state;
      } in
      let short = AllLogs-length header f c f.size base regions d.logs in
      let enough : length regions
          < rounds_fuel header callback (hint_place base) f.size hintblock_spacing =
        omega (arith, short) in
      let (s, q, runs, oldest) =
        finds-IsOldest header c f.size regions _ base 0 timestamp_gteq
          (record { argument = start; location = blank_location; result = loop_ok }) f d.logs
          d.increasing d.not_last
          (record { asked = refl; smallest = refl; blank = refl; fine = refl }) enough
          (omega arith) in
      (
        record (s.location) { hintblock_state = (s.argument).smallest_state },
        q,
        bind_return_ok 1 (block_loop_hintblocks_large_device header callback none start) _ f
            (record f { seek = q }) s
            (block_loop_hintblocks_none header callback start s f (record f { seek = q })
              (omega (arith, d.narrow)) (omega (arith, (d.usable).largest))
              (rw (first_block_at base (omega (arith, d.narrow))) runs)),
        oldest,
      )

  start : ReadLoop
  start = record { timestamp_gteq = timestamp_gteq; limit = 0; result_count = 0; dumped = [] }

  -- What the read prints.
  Printed : BlockLocation → ℕ → Type 0
  Printed location q =
      (dumps : List Dump) × (q' : ℕ) × (read_from header timestamp_gteq 0 location
          (record f { seek = q })
        ≡ (ok dumps, record f { seek = q' }))
      × (entries_of dumps ≡ selected timestamp_gteq (all_entries regions))

  read_from-loop :
      (location : BlockLocation) (q q' : ℕ) (s' : HintLoop ReadLoop)
      → (location.hintblock_state).valid ≡ true
      → block_loop_hintblocks_large_device header
          (read_hintblock_loop_callback header)
          (some location)
          start
          (record f { seek = q })
        ≡ (ok s', record f { seek = q' })
      → entries_of (s'.argument).dumped ≡ selected timestamp_gteq (all_entries regions)
      → Printed location q
  unfolding read_from start Printed
  read_from-loop location q q' s' valid runs printed =
      let test : not (location.hintblock_state).valid ≡ false = ap not valid in
      (
        (s'.argument).dumped,
        q',
        rw test (
            bind_return_ok 1
              (block_loop_hintblocks_large_device header (read_hintblock_loop_callback header)
                (some location) start)
              (λ s. pure (s.argument).dumped) (record f { seek = q }) (record f { seek = q' }) s'
              runs),
        printed,
      )

  -- The read from the region that was found prints all that is selected.
  read_from-Prints :
      (location : BlockLocation) (q : ℕ)
      → IsOldest header c timestamp_gteq header.header_size regions location.hintblock_state
      → Printed location q
  unfolding read_from start Printed
  read_from-Prints location q (inl (nothing, blank)) =
      let test : not (location.hintblock_state).valid ≡ true =
        ap (λ (s : HintblockState). not s.valid) blank in
      ([], q, rw test refl, sym nothing)
  read_from-Prints location q (inr (before, entries, after, split, nothing, is_state)) =
      let base = base_behind header.header_size before in
      let callback = read_hintblock_loop_callback header in
      let logs = subst (λ rs. AllLogs header f c f.size header.header_size rs) split d.logs in
      let logs_behind =
        AllLogs-behind header f c f.size header.header_size before (entries ∷ after) logs in
      let logs_before =
        AllLogs-before header f c f.size header.header_size before (entries ∷ after) logs in
      let up = Increasing-split 0 (all_entries before) (all_entries (entries ∷ after)) (
        subst (Increasing 0) (ap all_entries split ∙ all_entries-append before (entries ∷ after))
          d.increasing) in
      let valid =
        IsStateOf-valid header (first_block header base) c (hint_place base)
          location.hintblock_state entries is_state logs_behind.1 in
      let low = ((logs_behind.2).geometry).low in
      let short = AllLogs-length header f c f.size base (entries ∷ after) logs_behind in
      let short' =
        AllLogs-length header f c (hint_place base) header.header_size before logs_before.1 in
      let (s1, q1, runs, printed) =
        reads_all header c f.size timestamp_gteq (entries ∷ after)
          (rounds_fuel header callback (hint_place base) f.size hintblock_spacing) base _
          (record { argument = start; location = blank_location; result = loop_ok })
          (record f { seek = q })
          (AllLogs-seek header f c f.size base q (entries ∷ after) logs_behind) up.1 refl refl
          (omega (arith, short)) logs_before.0 in
      let (s2, q2, runs', printed') =
        reads_all header c (hint_place base) timestamp_gteq before
          (rounds_fuel header callback (hint_place header.header_size) (hint_place base)
            hintblock_spacing)
          header.header_size 0 s1 (record f { seek = q1 })
          (AllLogs-seek header f c (hint_place base) header.header_size q1 before logs_before.1)
          up.0 printed.limit printed.asked (omega (arith, short')) (omega arith) in
      let orig : add64 header.header_size hintblock_spacing ≡ hint_place header.header_size =
        omega (arith, d.narrow) in
      let selects : selected timestamp_gteq (all_entries regions)
          ≡ selected timestamp_gteq (all_entries (entries ∷ after)) =
        ap (selected timestamp_gteq)
          (ap all_entries split ∙ all_entries-append before (entries ∷ after))
        ∙ selected-append timestamp_gteq (all_entries before) (all_entries (entries ∷ after))
        ∙ ap (λ es. es ++ selected timestamp_gteq (all_entries (entries ∷ after))) nothing in
      let ends =
        λ (s' : HintLoop ReadLoop) (q' : ℕ)
            (again : second_round header callback (hint_place base) (hint_place header.header_size)
                s1 (record f { seek = q1 })
              ≡ (ok s', record f { seek = q' })).
          read_from-loop location q q' s' valid (
            block_loop_hintblocks_some header callback location start s1 s' (record f { seek = q })
              (record f { seek = q1 }) (record f { seek = q' }) valid
              (rw (is_state.location, first_block_at base (omega (arith, low))) runs)
              (rw (is_state.location, orig) again)) in
      elim (second_round_lem header callback (hint_place base) (hint_place header.header_size) s1 s2
        (record f { seek = q1 }) (record f { seek = q2 })
        (omega (arith, ((logs_behind.2).geometry).room))
        (rw (first_block_at header.header_size (omega (arith, d.narrow))) runs')) [
          | inl once ↦ ends s1 q1 once (printed.printed ∙ sym selects)
          | inr twice ↦ ends s2 q2 twice (
              printed'.printed
              ∙ ap₂ (λ (xs ys : List Entry). xs ++ ys) printed.printed nothing
              ∙ append-nil (selected timestamp_gteq (all_entries (entries ∷ after)))
              ∙ sym selects)
        ]

-- On a device that works, whose regions hold logs with timestamps that increase, a read without a limit
-- succeeds, changes no byte, and prints just the entries of all regions from the timestamp on, in order.
pub read_blocks-Prints :
    (header : Header) (c timestamp_gteq : ℕ) (regions : List (List Entry)) (f : File)
    → HoldsLogs header c regions f
    → (dumps : List Dump) × (q : ℕ) × (read_blocks timestamp_gteq 0 f
        ≡ (ok dumps, record f { seek = q }))
      × (entries_of dumps ≡ selected timestamp_gteq (all_entries regions))
unfolding read_blocks Printed
read_blocks-Prints header c timestamp_gteq regions f d =
    let f0 : File = record f { seek = 0 } in
    let (location, q, finds, oldest) =
      block_find_oldest_hintblock-IsOldest header c regions f0
        (HoldsLogs-seek header c regions f 0 d) timestamp_gteq in
    let (dumps, q', runs, printed) =
      read_from-Prints header c regions f d timestamp_gteq location q oldest in
    (
      dumps,
      q',
      bind_return_ok 1 block_get_validate_master_header _ f f0
            (record { result = 0; header = header })
            (block_get_validate_master_header_lem header 0 f (d.usable).works (d.usable).fits d.room
              d.master d.accepted)
          ∙ bind_return_ok 1 (block_find_oldest_hintblock header timestamp_gteq)
              (read_from header timestamp_gteq 0) f0 (record f { seek = q }) location finds
          ∙ runs,
      printed,
    )
