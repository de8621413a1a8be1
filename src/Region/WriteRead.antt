-- ===== src/Region/WriteRead.antt =====
-- src/lib/write.c and read.c together: what is written to a device of regions with logs is read back,
-- behind all that was there.
use blockdevlogger.Base.{
  ℕ, ◌+◌, ◌*◌, ◌≤◌, ◌<◌, ◌^◌, ◌≡◌, sym, ap, ◌∙◌, subst, ◌⊎◌, inl, inr, List, [], ◌∷◌, ◌++◌,
  append_assoc, append-nil, length, length-append, arith,
}
use blockdevlogger.Layout.{Header}
use blockdevlogger.Device.{File, ok, SameDevice, HoldsBytes, ◌>>=◌, bind_ok}
use blockdevlogger.Read.{Dump, read_blocks}
use blockdevlogger.Write.{write_put_block}
use blockdevlogger.Write.Stamp.{wanted, IsStamp}
use blockdevlogger.Region.{Entry, entries_of, selected}
use blockdevlogger.Region.Places.{slot-zero}
use blockdevlogger.Region.Log.{Increasing, newest, Increasing-append, newest-append}
use blockdevlogger.Region.Find.{
  first_block, hint_place, IsRegionLog, next_place, AllFull, base_behind,
}
use blockdevlogger.Region.Kept.{IsRegionLog-kept}
use blockdevlogger.Region.Write.{IsLogDevice, IsWritable, write_put_block-IsLogDevice}
use blockdevlogger.Region.Logs.{
  all_entries, all_entries-append, AllLogs, selected-append, newest-split, newest_any,
}
use blockdevlogger.Region.ReadBlocks.{HoldsLogs, read_blocks-Prints}

-- A full region is not empty.
pub full_some :
    (header : Header) (f : File) (c base : ℕ) (entries : List Entry)
    → IsRegionLog header f c base entries
    → hint_place base < next_place header c base entries + header.block_size
    → 1 ≤ length entries
full_some header f c base [] r full =
    let g = r.geometry in
    let at = ap (λ k. k * header.block_size) (slot-zero c g.behind) in
    absurd (omega (arith, at, full, g.inside))
full_some header f c base (e ∷ entries) r full = omega arith

-- Full regions and the logs behind them are all logs.
pub AllFull-AllLogs :
    (header : Header) (f : File) (c base : ℕ) (regions rest : List (List Entry))
    → AllFull header f c base regions
    → AllLogs header f c f.size (base_behind base regions) rest
    → AllLogs header f c f.size base (regions ++ rest)
AllFull-AllLogs header f c base [] rest full logs = logs
AllFull-AllLogs header f c base (x ∷ regions) rest full logs = (
  omega (arith, ((full.0).geometry).room),
  full_some header f c base x full.0 full.1,
  full.0,
  AllFull-AllLogs header f c (hint_place base) regions rest full.2 logs,
)

-- A device of logs, the last of which has an entry, or is the only one; behind it there is an empty log
-- or the end of the device.
pub record IsGrowing (header : Header) (c : ℕ) (regions : List (List Entry)) (entries : List Entry)
    (f : File) : Type 0 where
  pub device : IsLogDevice header c regions entries f
  pub narrow : header.header_size < 2 ^ 32
  pub some : (1 ≤ length entries) ⊎ (regions ≡ [])
  pub behind : AllLogs header f c f.size (hint_place (base_behind header.header_size regions)) []
  pub increasing : Increasing 0 (all_entries regions ++ entries)

module _ (header : Header) (c : ℕ) (regions : List (List Entry)) where
  pub one_more :
      (entries : List Entry)
      → all_entries (regions ++ entries ∷ []) ≡ all_entries regions ++ entries
  one_more entries =
      all_entries-append regions (entries ∷ [])
      ∙ ap (λ es. all_entries regions ++ es) (append-nil entries)

  newest_last :
      (entries : List Entry)
      → (1 ≤ length entries) ⊎ (regions ≡ [])
      → newest 0 (all_entries regions ++ entries) ≡ newest 0 entries
  newest_last entries (inl some) =
      newest-split 0 (all_entries regions) entries
      ∙ newest_any (newest 0 (all_entries regions)) 0 entries some
  newest_last entries (inr only) = ap (λ rs. newest 0 (all_entries rs ++ entries)) only

  pub IsGrowing-HoldsLogs :
      (entries : List Entry) (f : File)
      → IsGrowing header c regions entries f
      → 1 ≤ length entries
      → newest 0 entries < 0xffff_ffff_ffff_ffff
      → HoldsLogs header c (regions ++ entries ∷ []) f
  IsGrowing-HoldsLogs entries f d filled top =
      let last = (d.device).last in
      record {
        usable = ((last.geometry)).usable;
        master = (d.device).master;
        accepted = (d.device).accepted;
        room = omega (arith, (d.device).large);
        narrow = d.narrow;
        logs =
            AllFull-AllLogs header f c header.header_size regions (entries ∷ []) (d.device).full
              (omega (arith, (last.geometry).room), filled, last, d.behind);
        increasing = subst (Increasing 0) (sym (one_more entries)) d.increasing;
        not_last =
            omega (arith, ap (newest 0) (one_more entries), newest_last entries (inl filled), top);
      }

  -- The empty log behind the changed bytes is kept.
  behind_kept :
      (base : ℕ) (f f' : File)
      → SameDevice f f'
      → HoldsBytes f'.contents
      → ((a : ℕ) → first_block header base ≤ a → f'.contents a ≡ f.contents a)
      → AllLogs header f c f.size base []
      → AllLogs header f' c f'.size base []
  behind_kept base f f' same bytes kept (inl over) = inl (rw same.0 over)
  behind_kept base f f' same bytes kept (inr (lt, r)) =
      inr
        (rw same.0 lt, IsRegionLog-kept header f f' c base [] same bytes (λ a ge lt'. kept a ge) r)

  -- A write that can be done makes the last log longer by the new entry.
  pub write_put_block-IsGrowing :
      (now appdata timestamp faketimestamp : ℕ) (bytes : List ℕ) (entries : List Entry) (f : File)
      → IsGrowing header c regions entries f
      → next_place header c (base_behind header.header_size regions) entries + header.block_size
        ≤ hint_place (base_behind header.header_size regions)
      → IsWritable header now appdata timestamp faketimestamp bytes entries
      → (t : ℕ) × (after : File) × (write_put_block now bytes appdata timestamp faketimestamp f
          ≡ (ok tt, after))
        × IsStamp (wanted now timestamp) (newest 0 entries) faketimestamp t
        × IsGrowing header c regions
            (entries ++ record { timestamp = t; application_data = appdata; bytes = bytes } ∷ [])
            after
  write_put_block-IsGrowing now appdata timestamp fake bytes entries f d room w =
      let (t, after, runs, stamp, same, device, kept) =
        write_put_block-IsLogDevice now appdata timestamp fake bytes header c regions entries f
          d.device room w in
      let new : Entry = record { timestamp = t; application_data = appdata; bytes = bytes } in
      let newer : newest 0 (all_entries regions ++ entries) < t =
        omega (arith, newest_last entries d.some, stamp.newer) in
      (
        t,
        after,
        runs,
        stamp,
        record {
          device = device;
          narrow = d.narrow;
          some = inl (omega (arith, length-append entries (new ∷ [])));
          behind =
              behind_kept (hint_place (base_behind header.header_size regions)) f after same
                (((device.last)).log).bytes kept d.behind;
          increasing =
              subst (Increasing 0) (append_assoc (all_entries regions) entries (new ∷ []))
                (Increasing-append 0 (all_entries regions ++ entries) new d.increasing newer);
        },
      )

-- On a device whose regions hold logs in order, the last of which has room, a write that can be done
-- and a read behind it succeed; the read prints just the old entries from the timestamp on, in order,
-- and then the new one if it is selected.
pub write_put_block-read_blocks :
    (now appdata timestamp faketimestamp timestamp_gteq : ℕ) (bytes : List ℕ) (header : Header)
    (c : ℕ) (regions : List (List Entry)) (entries : List Entry) (f : File)
    → IsGrowing header c regions entries f
    → next_place header c (base_behind header.header_size regions) entries + header.block_size
      ≤ hint_place (base_behind header.header_size regions)
    → IsWritable header now appdata timestamp faketimestamp bytes entries
    → wanted now timestamp + 1 < 2 ^ 64
    → newest 0 entries + 2 < 2 ^ 64
    → (t : ℕ) × (dumps : List Dump) × (after : File) × ((write_put_block now bytes appdata timestamp
              faketimestamp
            >>= λ _. read_blocks timestamp_gteq 0)
          f
        ≡ (ok dumps, after))
      × IsStamp (wanted now timestamp) (newest 0 entries) faketimestamp t
      × (entries_of dumps
          ≡ selected timestamp_gteq (all_entries regions ++ entries)
            ++ selected timestamp_gteq
                (record { timestamp = t; application_data = appdata; bytes = bytes } ∷ []))
write_put_block-read_blocks now appdata timestamp fake from bytes header c regions entries f d room
      w small small' =
    let (t, after, runs, stamp, grown) =
      write_put_block-IsGrowing header c regions now appdata timestamp fake bytes entries f d room
        w in
    let new : Entry = record { timestamp = t; application_data = appdata; bytes = bytes } in
    let top : newest 0 (entries ++ new ∷ []) < 0xffff_ffff_ffff_ffff =
      grind (arith, newest-append 0 entries new, stamp.near, small, small') in
    let (dumps, q, reads, printed) =
      read_blocks-Prints header c from (regions ++ (entries ++ new ∷ []) ∷ []) after (
        IsGrowing-HoldsLogs header c regions (entries ++ new ∷ []) after grown
          (omega (arith, length-append entries (new ∷ []))) top) in
    (
      t,
      dumps,
      record after { seek = q },
      bind_ok (write_put_block now bytes appdata timestamp fake) (λ _. read_blocks from 0) f after
            tt runs
          ∙ reads,
      stamp,
      printed
          ∙ ap (selected from) (
              one_more header c regions (entries ++ new ∷ [])
              ∙ sym (append_assoc (all_entries regions) entries (new ∷ [])))
          ∙ selected-append from (all_entries regions ++ entries) (new ∷ []),
    )
