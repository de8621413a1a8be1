-- ===== src/Region/Find.antt =====
-- src/lib/write.c and blocks.c: the search for the place of a new block over regions with logs. The
-- first region that is not full gets it.
use blockdevlogger.Base.{
  ℕ, zero, suc, ◌+◌, ◌*◌, ◌≤◌, ◌<◌, ◌≡◌, refl, sym, ◌∙◌, subst, true, false, List, [], ◌∷◌, length,
  le→ltb, ◌==◌, none, add64, sub64, arith,
}
use blockdevlogger.Layout.{Header, hintblock_spacing, small_size_threshold}
use blockdevlogger.Device.{File, ok, bind_return_ok}
use blockdevlogger.Blocks.{BlockLocation, blank_location}
use blockdevlogger.Loop.{
  HintLoop, loop_ok, loop_break, hintblock_round, hintblock_rounds, rounds_fuel,
  block_loop_hintblocks_large_device,
}
use blockdevlogger.Loop.HintSteps.{
  hintblock_round_lem, hintblock_rounds_break, hintblock_rounds_next, block_loop_hintblocks_none,
}
use blockdevlogger.Write.{
  write_check_free_hintblock, write_hintblock_check_free_callback, write_find_location,
}
use blockdevlogger.Region.{Entry, place}
use blockdevlogger.Region.Log.{IsGeometry, IsLog}
use blockdevlogger.Region.State.{
  IsStateOf, block_get_hintblock_state-IsStateOf, write_check_free_hintblock-next,
  write_check_free_hintblock-full,
}

-- The regions follow each other; the first block of one lies behind its base, its hint block ends it.
abbrev pub first_block : Header → ℕ → ℕ
first_block header base = base + header.block_size

abbrev pub hint_place : ℕ → ℕ
hint_place base = base + hintblock_spacing

-- A region with a log.
pub record IsRegionLog (header : Header) (f : File) (c base : ℕ) (entries : List Entry)
    : Type 0 where
  pub geometry : IsGeometry header f (first_block header base) c (hint_place base)
  pub log : IsLog header (first_block header base) c (hint_place base) f.contents entries

-- Where the next entry of the region goes.
abbrev pub next_place : Header → ℕ → ℕ → List Entry → ℕ
next_place header c base entries = place header (first_block header base) c (length entries)

-- The regions from a base on, with these logs, are all full.
abbrev pub AllFull : Header → File → ℕ → ℕ → List (List Entry) → Type 0
AllFull header f c base [] = Unit
AllFull header f c base (entries ∷ regions) =
    IsRegionLog header f c base entries
    × (hint_place base < next_place header c base entries + header.block_size)
    × AllFull header f c (hint_place base) regions

-- The base behind these regions.
abbrev pub base_behind : ℕ → List (List Entry) → ℕ
base_behind base [] = base
base_behind base (entries ∷ regions) = base_behind (hint_place base) regions

-- The position that the file has been moved to does not matter.
pub IsRegionLog-seek :
    (header : Header) (f : File) (c base q : ℕ) (entries : List Entry)
    → IsRegionLog header f c base entries
    → IsRegionLog header (record f { seek = q }) c base entries
IsRegionLog-seek header f c base q entries r = record {
  geometry = record {
    usable = record {
      works = (r.geometry).usable.works;
      fits = (r.geometry).usable.fits;
      algorithm = (r.geometry).usable.algorithm;
      smallest = (r.geometry).usable.smallest;
      largest = (r.geometry).usable.largest;
    };
    pad_byte = (r.geometry).pad_byte;
    behind = (r.geometry).behind;
    inside = (r.geometry).inside;
    low = (r.geometry).low;
    room = (r.geometry).room;
    front = (r.geometry).front;
    distance = (r.geometry).distance;
  };
  log = r.log;
}

pub AllFull-seek :
    (header : Header) (f : File) (c base q : ℕ) (regions : List (List Entry))
    → AllFull header f c base regions
    → AllFull header (record f { seek = q }) c base regions
AllFull-seek header f c base q [] h = tt
AllFull-seek header f c base q (entries ∷ regions) h = (
  IsRegionLog-seek header f c base q entries h.0,
  h.1,
  AllFull-seek header f c (hint_place base) q regions h.2,
)

-- What the search finds: the next place of the region at this base.
pub record IsFound (header : Header) (c base : ℕ) (entries : List Entry) (s : HintLoop ℕ)
    : Type 0 where
  pub free : s.argument ≡ 0
  pub ends : s.result ≡ loop_break
  pub at : (s.location).block_location ≡ next_place header c base entries
  pub state :
      IsStateOf header
        (first_block header base)
        c
        (hint_place base)
        (s.location).hintblock_state
        entries

module _ (header : Header) (c : ℕ) where
  -- A round over a region with room ends the loop with its next place.
  round_free :
      (f : File) (base : ℕ) (entries : List Entry) (s : HintLoop ℕ)
      → IsRegionLog header f c base entries
      → next_place header c base entries + header.block_size ≤ hint_place base
      → (s' : HintLoop ℕ) × (q : ℕ) × (hintblock_round header
            (write_hintblock_check_free_callback header)
            (hint_place base)
            (first_block header base)
            s
            f
          ≡ (ok s', record f { seek = q }))
        × IsFound header c base entries s'
  unfolding write_hintblock_check_free_callback
  round_free f base entries s r room =
      let (state, q, found, is_state) =
        block_get_hintblock_state-IsStateOf header f (first_block header base) c (hint_place base)
          r.geometry entries r.log in
      let location : BlockLocation = record (s.location) { hintblock_state = state } in
      let next =
        write_check_free_hintblock-next header f (first_block header base) c (hint_place base)
          r.geometry location entries is_state room in
      let test : ((write_check_free_hintblock header location).result == 0) ≡ true =
        ground (arith, next.0) in
      (
        record {
          argument = 0;
          location = (write_check_free_hintblock header location).location;
          result = loop_break;
        },
        q,
        hintblock_round_lem header (write_hintblock_check_free_callback header) (hint_place base)
            (first_block header base) s _ f (record f { seek = q }) (record f { seek = q }) state
            found (rw test refl),
        record {
          free = refl;
          ends = refl;
          at = next.1;
          state =
              subst (λ x. IsStateOf header (first_block header base) c (hint_place base) x entries)
                (sym next.2) is_state;
        },
      )

  -- A round over a full region goes on.
  pub round_full :
      (f : File) (base : ℕ) (entries : List Entry) (s : HintLoop ℕ)
      → IsRegionLog header f c base entries
      → hint_place base < next_place header c base entries + header.block_size
      → (s' : HintLoop ℕ) × (q : ℕ) × (hintblock_round header
            (write_hintblock_check_free_callback header)
            (hint_place base)
            (first_block header base)
            s
            f
          ≡ (ok s', record f { seek = q }))
        × (s'.result ≡ loop_ok)
        × (s'.argument ≡ 1)
  unfolding write_hintblock_check_free_callback
  round_full f base entries s r full =
      let (state, q, found, is_state) =
        block_get_hintblock_state-IsStateOf header f (first_block header base) c (hint_place base)
          r.geometry entries r.log in
      let location : BlockLocation = record (s.location) { hintblock_state = state } in
      let next =
        write_check_free_hintblock-full header f (first_block header base) c (hint_place base)
          r.geometry location entries is_state full in
      let test : ((write_check_free_hintblock header location).result == 0) ≡ false =
        ground (arith, next) in
      let test' : ((write_check_free_hintblock header location).result == 1) ≡ true =
        ground (arith, next) in
      (
        record {
          argument = 1;
          location = (write_check_free_hintblock header location).location;
          result = loop_ok;
        },
        q,
        hintblock_round_lem header (write_hintblock_check_free_callback header) (hint_place base)
            (first_block header base) s _ f (record f { seek = q }) (record f { seek = q }) state
            found (rw (test, test') refl),
        refl,
        refl,
      )

  -- The loop passes the full regions and ends at the first one with room.
  rounds_find :
      (regions : List (List Entry)) (entries : List Entry) (fuel base : ℕ) (s : HintLoop ℕ)
      (f : File)
      → AllFull header f c base regions
      → IsRegionLog header f c (base_behind base regions) entries
      → next_place header c (base_behind base regions) entries + header.block_size
        ≤ hint_place (base_behind base regions)
      → length regions < fuel
      → header.header_size ≤ base
      → (s' : HintLoop ℕ) × (q : ℕ) × (hintblock_rounds header
            (write_hintblock_check_free_callback header)
            fuel
            f.size
            hintblock_spacing
            (hint_place base)
            (first_block header base)
            s
            f
          ≡ (ok s', record f { seek = q }))
        × IsFound header c (base_behind base regions) entries s'
  rounds_find regions entries zero base s f full r room enough behind =
      absurd (omega (arith, enough))
  rounds_find [] entries (suc fuel) base s f full r room enough behind =
      let (s', q, runs, found) = round_free f base entries s r room in
      (
        s',
        q,
        hintblock_rounds_break header (write_hintblock_check_free_callback header) fuel f.size
            hintblock_spacing (hint_place base) (first_block header base) s s' f
            (record f { seek = q }) (omega (arith, r.geometry.room)) (omega (arith, behind)) runs
            found.ends,
        found,
      )
  rounds_find (first ∷ regions) entries (suc fuel) base s f full r room enough behind =
      let (s1, q1, runs, goes, full_one) = round_full f base first s full.0 full.1 in
      let (s', q, rest, found) =
        rounds_find regions entries fuel (hint_place base) s1 (record f { seek = q1 })
          (AllFull-seek header f c (hint_place base) q1 regions full.2)
          (IsRegionLog-seek header f c (base_behind (hint_place base) regions) q1 entries r) room
          (omega (arith, enough)) (omega (arith, behind)) in
      let low = ((full.0).geometry).low in
      let next : add64 (hint_place base) hintblock_spacing ≡ hint_place (hint_place base) =
        omega (arith, low) in
      let next' : add64 (hint_place base) header.block_size ≡ first_block header (hint_place base) =
        omega (arith, low, ((full.0).geometry).usable.largest) in
      (
        s',
        q,
        hintblock_rounds_next header (write_hintblock_check_free_callback header) fuel f.size
              hintblock_spacing (hint_place base) (first_block header base) s s1 f
              (record f { seek = q1 }) (omega (arith, ((full.0).geometry).room))
              (omega (arith, behind)) runs goes
            ∙ rw (next, next') rest,
        found,
      )

pub base_behind-length :
    (base : ℕ) (regions : List (List Entry))
    → base_behind base regions ≡ base + length regions * hintblock_spacing
base_behind-length base [] = omega arith
base_behind-length base (x ∷ regions) =
    let rest = base_behind-length (hint_place base) regions in omega (arith, rest)

-- On a device of at least 256 MiB whose regions hold logs, the full ones first, the place found for a
-- new block is the next one of the first log that is not full, with the state of that log's hint block,
-- and no byte is changed.
pub write_find_location-IsFound :
    (header : Header) (c : ℕ) (regions : List (List Entry)) (entries : List Entry) (f : File)
    → small_size_threshold ≤ f.size
    → AllFull header f c header.header_size regions
    → IsRegionLog header f c (base_behind header.header_size regions) entries
    → next_place header c (base_behind header.header_size regions) entries + header.block_size
      ≤ hint_place (base_behind header.header_size regions)
    → (location : BlockLocation) × (q : ℕ) × (write_find_location header f
        ≡ (ok location, record f { seek = q }))
      × (location.block_location
          ≡ next_place header c (base_behind header.header_size regions) entries)
      × IsStateOf header
          (first_block header (base_behind header.header_size regions))
          c
          (hint_place (base_behind header.header_size regions))
          location.hintblock_state
          entries
unfolding write_find_location
write_find_location-IsFound header c regions entries f large full r room =
    let base = header.header_size in
    let behind = base_behind-length base regions in
    let callback = write_hintblock_check_free_callback header in
    let enough : length regions
        < rounds_fuel header callback (hint_place base) f.size hintblock_spacing =
      omega (arith, behind, r.geometry.room) in
    let start : HintLoop ℕ = record { argument = 0; location = blank_location; result = loop_ok } in
    let (s, q, runs, found) =
      rounds_find header c regions entries _ base start f full r room enough (omega arith) in
    let low = r.geometry.low in
    let at_first : add64 (sub64 (hint_place base) hintblock_spacing) header.block_size
        ≡ first_block header base =
      omega (arith, behind, low, r.geometry.usable.largest) in
    let test : (s.argument == 0) ≡ true = ground (arith, found.free) in
    (
      s.location,
      q,
      rw (le→ltb f.size small_size_threshold large) (
          bind_return_ok 1 (block_loop_hintblocks_large_device header callback none 0) _ f
            (record f { seek = q }) s
            (block_loop_hintblocks_none header callback 0 s f (record f { seek = q })
              (omega (arith, behind, low)) (omega (arith, r.geometry.usable.largest))
              (rw at_first runs))
          ∙ rw test refl),
      found.at,
      found.state,
    )
