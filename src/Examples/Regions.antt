-- ===== src/Examples/Regions.antt =====
-- The theorems on regions with logs, at a blank device of 512 MiB.
use blockdevlogger.Base.{
  ℕ, ◌*◌, ◌+◌, ◌≡◌, ◌≤◌, refl, inl, true, zero, suc, ltb, if◌then◌else◌, List, [], ◌∷◌, arith,
}
use blockdevlogger.Layout.{Header, decode_hint_block}
use blockdevlogger.Crc32.Reference.{IsBytes}
use blockdevlogger.Device.{File, ok, read_bytes, SameDevice, ◌>>=◌, ◌>>◌}
use blockdevlogger.Validate.Laws.{seal_header}
use blockdevlogger.Blocks.{BlockLocation}
use blockdevlogger.Init.{new_header, init_dev, all_zero}
use blockdevlogger.Init.RoundTrip.{IsPossible, IsBlank}
use blockdevlogger.Read.{Dump, read_blocks}
use blockdevlogger.Write.{write_put_block, write_find_location}
use blockdevlogger.Write.Stamp.{IsStamp, wanted}
use blockdevlogger.Region.{Entry, entries_of, selected, slot}
use blockdevlogger.Region.Find.{first_block, hint_place, next_place, write_find_location-IsFound}
use blockdevlogger.Region.State.{IsStateOf}
use blockdevlogger.Region.Write.{IsLogDevice, IsWritable, write_put_block-IsLogDevice}
use blockdevlogger.Region.WriteRead.{
  IsGrowing, IsGrowing-HoldsLogs, write_put_block-IsGrowing, write_put_block-read_blocks,
}
use blockdevlogger.Region.ReadBlocks.{HoldsLogs, read_blocks-Prints}
use blockdevlogger.Region.Init.{IsFresh, init_dev-IsGrowing}
use blockdevlogger.Region.Sequence.{write_all, AllFit, init_dev-write_all-read_blocks}
use blockdevlogger.Examples.{device, message}

-- The device, with zeros at its front only.
abbrev fresh_device : File
fresh_device = record device { contents = λ a. if ltb a 4096 then 0 else 1 }

possible : IsPossible 512 262144 fresh_device
possible = record {
  works = inl (4096, refl);
  low = omega arith;
  smallest = omega arith;
  largest = omega arith;
  divided = refl;
  smallest_pad = omega arith;
  divided_pad = refl;
  room = omega arith;
}

blank : IsBlank 0 fresh_device
unfolding all_zero read_bytes
blank = (read_bytes fresh_device.contents 0 1024, refl, zeros 1024 0 (omega arith))
  where
    zeros : (n p : ℕ) → p + n ≤ 4096 → all_zero (read_bytes fresh_device.contents p n) ≡ true
    zeros zero p h = refl
    zeros (suc n) p h =
        let low : ltb p 4096 ≡ true = ground arith in rw low (zeros n (p + 1) (omega arith))

fresh : IsFresh 512 262144 8191 fresh_device
unfolding read_bytes decode_hint_block
fresh = record {
  possible = possible;
  large = omega arith;
  bytes = λ a. ground arith;
  behind = omega arith;
  backup = omega arith;
  low = omega arith;
  no_hint = λ e. omega (arith, e);
  no_backup = λ e. omega (arith, e);
  no_second_hint = λ e. omega (arith, e);
  no_second_backup = λ e. omega (arith, e);
}

abbrev made : Header
made = seal_header (new_header 512 262144 255 (512 * 1024 * 1024))

-- Two entries, of which the second one is new enough for a read from 8 on.
abbrev entry : Entry
entry = record { timestamp = 7; application_data = 5; bytes = message }

abbrev later : Entry
later = record { timestamp = 9; application_data = 6; bytes = message }

message-IsBytes : IsBytes message
message-IsBytes = (omega arith, (omega arith, (omega arith, tt)))

entries-AllFit : AllFit made 0 (entry ∷ later ∷ [])
unfolding new_header
entries-AllFit = (
  message-IsBytes,
  omega arith,
  omega arith,
  omega arith,
  omega arith,
  (message-IsBytes, omega arith, omega arith, omega arith, omega arith, tt),
)

init_dev-write_all-read_blocks_example :
    (dumps : List Dump) × (after : File) × ((init_dev 0 512 262144 255
          >> (write_all 1000 (entry ∷ later ∷ []) >>= λ _. read_blocks 8 0))
        fresh_device
      ≡ (ok dumps, after))
    × (entries_of dumps ≡ later ∷ [])
unfolding slot
init_dev-write_all-read_blocks_example =
    init_dev-write_all-read_blocks 0 512 262144 255 8191 1000 8 entry (later ∷ []) fresh_device
      fresh blank entries-AllFit (omega arith)

init_dev-IsGrowing_example :
    (after : File) × (init_dev 0 512 262144 255 fresh_device ≡ (ok tt, after))
    × IsGrowing made 8191 [] [] after
init_dev-IsGrowing_example = init_dev-IsGrowing 0 512 262144 255 8191 fresh_device fresh blank

-- The device when it has been initialized.
started : File
started = (init_dev-IsGrowing 0 512 262144 255 8191 fresh_device fresh blank).0

started-IsGrowing : IsGrowing made 8191 [] [] started
unfolding started
started-IsGrowing = (init_dev-IsGrowing 0 512 262144 255 8191 fresh_device fresh blank).2

writable : IsWritable made 1000 5 7 0 message []
unfolding new_header
writable = record {
  is_bytes = message-IsBytes;
  application_data = omega arith;
  asked = omega arith;
  not_last = omega arith;
  short = omega arith;
  not_old = λ old. omega (arith, old.0);
}

room : next_place made 8191 made.header_size [] + made.block_size ≤ hint_place made.header_size
unfolding new_header slot
room = omega arith

write_find_location-IsFound_example :
    (location : BlockLocation) × (q : ℕ) × (write_find_location made started
      ≡ (ok location, record started { seek = q }))
    × (location.block_location ≡ next_place made 8191 made.header_size [])
    × IsStateOf made
        (first_block made made.header_size)
        8191
        (hint_place made.header_size)
        location.hintblock_state
        []
write_find_location-IsFound_example =
    let d = started-IsGrowing.device in
    write_find_location-IsFound made 8191 [] [] started d.large d.full d.last room

write_put_block-IsLogDevice_example :
    (t : ℕ) × (after : File) × (write_put_block 1000 message 5 7 0 started ≡ (ok tt, after))
    × IsStamp (wanted 1000 7) 0 0 t
    × SameDevice started after
    × IsLogDevice made 8191 []
        (record { timestamp = t; application_data = 5; bytes = message } ∷ [])
        after
    × ((a : ℕ)
        → hint_place made.header_size + made.block_size ≤ a
        → after.contents a ≡ started.contents a)
write_put_block-IsLogDevice_example =
    write_put_block-IsLogDevice 1000 5 7 0 message made 8191 [] [] started started-IsGrowing.device
      room writable

write_put_block-read_blocks_example :
    (t : ℕ) × (dumps : List Dump) × (after : File) × ((write_put_block 1000 message 5 7 0 >>= λ _.
    read_blocks 3 0)
        started
      ≡ (ok dumps, after))
    × IsStamp (wanted 1000 7) 0 0 t
    × (entries_of dumps
        ≡ selected 3 (record { timestamp = t; application_data = 5; bytes = message } ∷ []))
write_put_block-read_blocks_example =
    write_put_block-read_blocks 1000 5 7 0 3 message made 8191 [] [] started started-IsGrowing room
      writable (omega arith) (omega arith)

-- The device with one entry, whose timestamp is the one that the write has given it.
used : File
used =
    (write_put_block-IsGrowing made 8191 [] 1000 5 7 0 message [] started started-IsGrowing room
      writable).1

stamped : Entry
stamped = record {
  timestamp =
      (write_put_block-IsGrowing made 8191 [] 1000 5 7 0 message [] started started-IsGrowing room
        writable).0;
  application_data = 5;
  bytes = message;
}

used-HoldsLogs : HoldsLogs made 8191 ((stamped ∷ []) ∷ []) used
unfolding used stamped
used-HoldsLogs =
    let (t, after, runs, stamp, grown) =
      write_put_block-IsGrowing made 8191 [] 1000 5 7 0 message [] started started-IsGrowing room
        writable in
    IsGrowing-HoldsLogs made 8191 []
      (record { timestamp = t; application_data = 5; bytes = message } ∷ []) after grown
      (omega arith) (grind (arith, stamp.near))

read_blocks-Prints_example :
    (dumps : List Dump) × (q : ℕ) × (read_blocks 3 0 used ≡ (ok dumps, record used { seek = q }))
    × (entries_of dumps ≡ selected 3 (stamped ∷ []))
read_blocks-Prints_example =
    read_blocks-Prints made 8191 3 ((stamped ∷ []) ∷ []) used used-HoldsLogs
