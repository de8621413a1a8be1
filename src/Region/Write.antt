-- ===== src/Region/Write.antt =====
-- src/lib/write.c over a device of regions with logs: a write makes the log of the first region with
-- room longer by the new entry, and leaves all else as it was.
use blockdevlogger.Base.{
  ℕ, ◌+◌, ◌*◌, ◌≤◌, ◌<◌, ◌^◌, ◌≡◌, ap, ◌∙◌, subst, inl, inr, some, List, [], ◌∷◌, ◌++◌, length,
  arith,
}
use blockdevlogger.Layout.{Header, decode_header, small_size_threshold}
use blockdevlogger.Crc32.Reference.{IsBytes}
use blockdevlogger.Device.{File, ok, SameDevice, read_bytes, read_bytes_ext, bind_return_ok}
use blockdevlogger.Validate.{validate_header}
use blockdevlogger.Blocks.{BlockLocation, block_get_validate_master_header}
use blockdevlogger.Blocks.Laws.{block_get_validate_master_header_lem}
use blockdevlogger.Write.{write_put_block, write_find_location, put_found}
use blockdevlogger.Write.PutAt.{IsPlaced, Put}
use blockdevlogger.Write.Stamp.{wanted, IsStamp, IsTooOld, put_found-Put}
use blockdevlogger.Region.{Entry, header_of}
use blockdevlogger.Region.Log.{newest, next-IsPlaced, Put-IsLog}
use blockdevlogger.Region.State.{IsStateOf, IsStateOf-newest}
use blockdevlogger.Region.Kept.{IsGeometry-same, AllFull-kept}
use blockdevlogger.Region.Find.{
  first_block, hint_place, IsRegionLog, next_place, AllFull, AllFull-seek, IsRegionLog-seek,
  base_behind, base_behind-length, write_find_location-IsFound,
}

-- A device whose regions hold logs: first full ones, then one with these entries.
pub record IsLogDevice (header : Header) (c : ℕ) (regions : List (List Entry))
    (entries : List Entry) (f : File) : Type 0 where
  pub master : decode_header (read_bytes f.contents 0 64) ≡ header
  pub accepted : validate_header header f.size ≡ some 0
  pub large : small_size_threshold ≤ f.size
  pub full : AllFull header f c header.header_size regions
  pub last : IsRegionLog header f c (base_behind header.header_size regions) entries

module _ (header : Header) (c : ℕ) (regions : List (List Entry)) (entries : List Entry) (f : File)
    (d : IsLogDevice header c regions entries f) where
  base : ℕ
  base = base_behind header.header_size regions

  -- After a put at the next place the device holds the longer log.
  put-IsLogDevice :
      (e : Entry) (after : File)
      → SameDevice f after
      → next_place header c base entries + header.block_size ≤ hint_place base
      → newest 0 entries < e.timestamp
      → Put header
          (header_of e)
          e.bytes
          (next_place header c base entries)
          (hint_place base)
          (first_block header base + c * header.block_size)
          f.contents
          after.contents
      → IsLogDevice header c regions (entries ++ e ∷ []) after
  unfolding base
  put-IsLogDevice e after same room newer put =
      let g = (d.last).geometry in
      let behind = base_behind-length header.header_size regions in
      let kept : (a : ℕ) → a < first_block header base → after.contents a ≡ f.contents a = λ a lt.
        put.frame a (inl (omega (arith, lt))) (inl (omega (arith, lt))) (inl (omega (arith, lt))) in
      record {
        master =
            ap decode_header (
              read_bytes_ext after.contents f.contents 0 64
                (λ a from to. kept a (omega (arith, to, (g.usable).smallest))))
            ∙ d.master;
        accepted = ap (λ n. validate_header header n) same.0 ∙ d.accepted;
        large = rw same.0 d.large;
        full =
            AllFull-kept header f after c header.header_size regions same put.bytes_kept kept
              d.full;
        last = record {
          geometry = IsGeometry-same header f after _ c _ same g;
          log =
              Put-IsLog header f (first_block header base) c (hint_place base) g entries e
                f.contents after.contents (d.last).log room newer put;
        };
      }

-- What can be written into a block behind a log: bytes that fit, with a timestamp that is not too old.
pub record IsWritable (header : Header) (now appdata timestamp faketimestamp : ℕ) (bytes : List ℕ)
    (entries : List Entry) : Type 0 where
  pub is_bytes : IsBytes bytes
  pub application_data : appdata < 2 ^ 64
  pub asked : wanted now timestamp < 2 ^ 64
  pub not_last : newest 0 entries + 1 < 2 ^ 64
  pub short : 32 + length bytes ≤ header.block_size
  pub not_old : ¬ IsTooOld (wanted now timestamp) (newest 0 entries) faketimestamp

IsLogDevice-seek :
    (header : Header) (c : ℕ) (regions : List (List Entry)) (entries : List Entry) (f : File)
    (q : ℕ)
    → IsLogDevice header c regions entries f
    → IsLogDevice header c regions entries (record f { seek = q })
IsLogDevice-seek header c regions entries f q d = record {
  master = d.master;
  accepted = d.accepted;
  large = d.large;
  full = AllFull-seek header f c header.header_size q regions d.full;
  last = IsRegionLog-seek header f c (base_behind header.header_size regions) q entries d.last;
}

-- The write with a location that has been found.
put_found-IsLogDevice :
    (now appdata timestamp faketimestamp : ℕ) (bytes : List ℕ) (header : Header) (c : ℕ)
    (regions : List (List Entry)) (entries : List Entry) (location : BlockLocation) (f : File)
    → IsLogDevice header c regions entries f
    → next_place header c (base_behind header.header_size regions) entries + header.block_size
      ≤ hint_place (base_behind header.header_size regions)
    → IsWritable header now appdata timestamp faketimestamp bytes entries
    → location.block_location ≡ next_place header c (base_behind header.header_size regions) entries
    → IsStateOf header
        (first_block header (base_behind header.header_size regions))
        c
        (hint_place (base_behind header.header_size regions))
        location.hintblock_state
        entries
    → (t : ℕ) × (after : File) × (put_found now bytes appdata timestamp faketimestamp header
          location f
        ≡ (ok tt, after))
      × IsStamp (wanted now timestamp) (newest 0 entries) faketimestamp t
      × SameDevice f after
      × IsLogDevice header c regions
          (entries ++ record { timestamp = t; application_data = appdata; bytes = bytes } ∷ [])
          after
      × ((a : ℕ)
          → hint_place (base_behind header.header_size regions) + header.block_size ≤ a
          → after.contents a ≡ f.contents a)
unfolding base
put_found-IsLogDevice now appdata timestamp fake bytes header c regions entries location f d room w
      at s =
    let base = base_behind header.header_size regions in
    let lo = first_block header base in
    let g = (d.last).geometry in
    let highest =
      IsStateOf-newest header lo c (hint_place base) location.hintblock_state entries s in
    let behind = base_behind-length header.header_size regions in
    let placed : IsPlaced header f location.block_location (location.hintblock_state).location
        (location.hintblock_state).backup_location =
      rw (at, s.location, s.backup)
        (next-IsPlaced header f lo c (hint_place base) g (length entries) room) in
    let (t, after, runs, stamp, same, put) =
      put_found-Put now appdata timestamp fake bytes header location f g.usable g.pad_byte
        (d.last).log.bytes w.is_bytes w.application_data w.asked (rw highest w.not_last) placed
        (omega (arith, at, behind), omega (arith, s.location, behind, (g.usable).largest)) w.short
        (rw highest w.not_old) in
    let new : Entry = record { timestamp = t; application_data = appdata; bytes = bytes } in
    let stamp' : IsStamp (wanted now timestamp) (newest 0 entries) fake t =
      subst (λ n. IsStamp (wanted now timestamp) n fake t) highest stamp in
    let put' : Put header (header_of new) bytes (next_place header c base entries) (hint_place base)
        (lo + c * header.block_size) f.contents after.contents =
      subst
        (λ p.
          Put header (header_of new) bytes p (hint_place base) (lo + c * header.block_size)
            f.contents after.contents)
        at
        (subst
          (λ h.
            Put header (header_of new) bytes location.block_location h (lo + c * header.block_size)
              f.contents after.contents)
          s.location
          (subst
            (λ k.
              Put header (header_of new) bytes location.block_location
                (location.hintblock_state).location k f.contents after.contents)
            s.backup put)) in
    (
      t,
      after,
      runs,
      stamp',
      same,
      put-IsLogDevice header c regions entries f d new after same room stamp'.newer put',
      λ a ge.
          put'.frame a (inr (omega (arith, ge, room))) (inr ge) (inr (omega (arith, ge, g.inside))),
    )

-- A write of bytes that fit, with a timestamp that is not too old, to a device whose regions hold logs,
-- the full ones first, succeeds if the first log that is not full has room; then the device holds the
-- same logs, with the new entry at the end of that one, under a newer timestamp which is the one asked
-- for or as near as `faketimestamp` allows; behind that region no byte is changed.
pub write_put_block-IsLogDevice :
    (now appdata timestamp faketimestamp : ℕ) (bytes : List ℕ) (header : Header) (c : ℕ)
    (regions : List (List Entry)) (entries : List Entry) (f : File)
    → IsLogDevice header c regions entries f
    → next_place header c (base_behind header.header_size regions) entries + header.block_size
      ≤ hint_place (base_behind header.header_size regions)
    → IsWritable header now appdata timestamp faketimestamp bytes entries
    → (t : ℕ) × (after : File) × (write_put_block now bytes appdata timestamp faketimestamp f
        ≡ (ok tt, after))
      × IsStamp (wanted now timestamp) (newest 0 entries) faketimestamp t
      × SameDevice f after
      × IsLogDevice header c regions
          (entries ++ record { timestamp = t; application_data = appdata; bytes = bytes } ∷ [])
          after
      × ((a : ℕ)
          → hint_place (base_behind header.header_size regions) + header.block_size ≤ a
          → after.contents a ≡ f.contents a)
unfolding write_put_block
write_put_block-IsLogDevice now appdata timestamp fake bytes header c regions entries f d room w =
    let g = (d.last).geometry in
    let f0 : File = record f { seek = 0 } in
    let d0 = IsLogDevice-seek header c regions entries f 0 d in
    let (location, q, finds, at, s) =
      write_find_location-IsFound header c regions entries f0 d0.large d0.full d0.last room in
    let (t, after, runs, stamp, same, device, frame) =
      put_found-IsLogDevice now appdata timestamp fake bytes header c regions entries location
        (record f { seek = q }) (IsLogDevice-seek header c regions entries f q d) room w at s in
    (
      t,
      after,
      bind_return_ok 4 block_get_validate_master_header _ f f0
            (record { result = 0; header = header })
            (block_get_validate_master_header_lem header 0 f (g.usable).works (g.usable).fits
              (omega (arith, d.large)) d.master d.accepted)
          ∙ bind_return_ok 1 (write_find_location header) _ f0 (record f { seek = q }) location
              finds
          ∙ runs,
      stamp,
      same,
      device,
      frame,
    )
