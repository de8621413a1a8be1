-- ===== src/Examples.antt =====
-- The theorems of the other modules at concrete devices, blocks and queues.
mod Regions
mod Commands
use blockdevlogger.Base.{
  ℕ, ◌+◌, ◌-◌, ◌*◌, ◌^◌, ◌≡◌, ◌≢◌, ◌↔◌, refl, sym, ap, ◌∙◌, inl, inr, true, none, some, List, [],
  ◌∷◌, ◌++◌, replicate, ◌≤◌, length, length-replicate, zero, suc, arith,
}
use blockdevlogger.Layout.{
  Header, BlockHeader, HintBlock, blank_block_header, blank_hint_block, encode_block_header,
  encode_hint_block, encode_header, decode_hint_block, decode_header,
}
use blockdevlogger.Layout.RoundTrip.{
  length-encode_hint_block, decode-encode_hint_block, decode-encode_header,
}
use blockdevlogger.Crc32.{crc32buf}
use blockdevlogger.Crc32.Reference.{reference, crc32buf-reference, crc32buf-lt}
use blockdevlogger.Device.{
  SyncEntry, Host, File, Ends, ok, ◌>>=◌, ◌>>◌, SameDevice, HoldsBytes, Stores, read_bytes,
  write_bytes, read-write,
}
use blockdevlogger.Io.{
  io_read_block, io_write_block, io_update_sync_queue, join_entry, join_queue, note_write,
  synced_ranges,
}
use blockdevlogger.Io.Block.{ReadsOrRefuses, io_read_block-ReadsOrRefuses, io_write_block-Stores}
use blockdevlogger.Io.Sync.{Updates, io_update_sync_queue-Updates}
use blockdevlogger.Validate.{validate_block, validate_hintblock, validate_header}
use blockdevlogger.Validate.Laws.{
  IsSound, seal_block, seal_hint_block, seal_header, hint_result, validate_block-seal_block,
  validate_hintblock_result, validate_hintblock_iff, validate_header_iff, validate_header_wraps,
}
use blockdevlogger.Blocks.{
  HintblockState, BlockLocation, blank_state, block_get_validate_master_header,
}
use blockdevlogger.Put.Laws.{IsUsable}
use blockdevlogger.Put.ReadBack.{hint_result-seal_hint_block}
use blockdevlogger.Blocks.Laws.{hint_at}
use blockdevlogger.Hint.{block_get_hintblock_state}
use blockdevlogger.Hint.State.{Describes, block_get_hintblock_state-Describes}
use blockdevlogger.Write.{new_block_header, write_check_free_hintblock, put_at, put_found}
use blockdevlogger.Write.PutAt.{IsBlock, IsPlaced, Put, put_at-Put}
use blockdevlogger.Write.Found.{IsNewest, put_at-IsNewest}
use blockdevlogger.Write.Place.{IsRegion, write_check_free_hintblock-IsPlaced}
use blockdevlogger.Write.Stamp.{IsStamp, wanted, put_found-Put}
use blockdevlogger.Read.{ReadLoop, read_block_loop_callback}
use blockdevlogger.Loop.{block_loop_blocks}
use blockdevlogger.Read.Limit.{StopsAt, read_block_loop_callback-StopsAt}
use blockdevlogger.Init.{new_header, init_dev, all_zero}
use blockdevlogger.Init.RoundTrip.{IsPossible, IsBlank}
use blockdevlogger.Init.Requested.{IsRequested, init_dev-IsRequested}

-- A blank device of 512 MiB, mapped at the address 4096.
abbrev host : Host
host = record {
  fseek = λ p. true;
  fread = λ m p n. some (read_bytes m p n);
  fwrite = λ m p bs. (true, write_bytes m p bs);
  msync = λ e. true;
  page_size = 4096;
}

abbrev device : File
device = record {
  host = host;
  size = 512 * 1024 * 1024;
  seek = 0;
  unsynced_write_bytes = 0;
  memorymap = some 4096;
  sync_queue = [];
  contents = λ a. 0;
  msynced = [];
}

-- Its master header, as the default arguments make it, but for the hash.
abbrev header : Header
header = record {
  header_begin_message = replicate 32 66;
  blocksystem_version = 4;
  pad_character = 255;
  default_hash_algorithm = 0;
  gap = 0;
  block_size = 512;
  total_size = 512 * 1024 * 1024 - 262144;
  header_size = 262144;
  hash = 0;
}

-- The first region: its hint block at 262144 + 8 MiB, the backup 4 MiB before it.
abbrev location : BlockLocation
location = record {
  block_location = 262144;
  hintblock_state = record blank_state {
    blockstart_min = 262144;
    blockstart_max = 8650240;
    location = 8650752;
    backup_location = 4456448;
  };
}

abbrev message : List ℕ
message = 104 ∷ 105 ∷ 0 ∷ []

abbrev block : BlockHeader
block = record blank_block_header { timestamp = 7; data_length = 3 }

usable : IsUsable device header
usable = record {
  works = inl (4096, refl);
  fits = omega arith;
  algorithm = refl;
  smallest = omega arith;
  largest = omega arith;
}

holds : HoldsBytes device.contents
holds a = omega arith

is_block : IsBlock header block message
is_block = record {
  pad_byte = omega arith;
  fits = record {
    timestamp = omega arith;
    application_data = omega arith;
    data_length = omega arith;
    pad = omega arith;
    hash = omega arith;
  };
  declared = refl;
  short = omega arith;
  is_bytes = (omega arith, (omega arith, (omega arith, tt)));
}

-- The same region when the next block is the place of the backup.
abbrev before_backup : BlockLocation
before_backup = record {
  block_location = 0;
  hintblock_state = record (location.hintblock_state) {
    valid = true;
    highest_timestamp = 7;
    hintblock = record blank_hint_block { previous_block_pos = 4455936 };
  };
}

region : IsRegion header device before_backup.hintblock_state 8191 8192
region = record {
  positive = omega arith;
  largest = omega arith;
  backup = refl;
  behind = omega arith;
  inside = omega arith;
  hint = refl;
  low = omega arith;
  room = omega arith;
  last = λ e. refl;
  last_in = λ e. omega arith;
}

free : (write_check_free_hintblock header before_backup).result ≡ 0
unfolding write_check_free_hintblock
free = refl

placed : IsPlaced header device 262144 8650752 4456448
placed = record {
  low = omega arith;
  low_hint = omega arith;
  low_backup = omega arith;
  room = omega arith;
  room_hint = omega arith;
  room_backup = omega arith;
  block_hint = inl (omega arith);
  block_backup = inl (omega arith);
  hint_backup = inr (omega arith);
}

put_at-Put_example :
    (after : File) × (put_at header location block message device ≡ (ok tt, after))
    × SameDevice device after
    × Put header block message 262144 8650752 4456448 device.contents after.contents
put_at-Put_example = put_at-Put header location block message device usable is_block holds placed

put_at-IsNewest_example :
    (state : HintblockState) × (after : File) × ((put_at header location block message >>= λ _.
    block_get_hintblock_state 8650752 header 262144 8650240)
        device
      ≡ (ok state, after))
    × IsNewest state 8650752 262144 7
put_at-IsNewest_example =
    put_at-IsNewest header location block message 262144 8650240 device usable is_block holds placed
      (omega arith) (omega arith) (omega arith)

put_found-Put_example :
    (t : ℕ) × (after : File) × (put_found 1000 message 5 0 0 header location device
      ≡ (ok tt, after))
    × IsStamp (wanted 1000 0) 0 0 t
    × SameDevice device after
    × Put header
        (new_block_header t 5 3)
        message
        262144
        8650752
        4456448
        device.contents
        after.contents
put_found-Put_example =
    put_found-Put 1000 5 0 0 message header location device usable (omega arith) holds
      (omega arith, (omega arith, (omega arith, tt))) (omega arith) (omega arith) (omega arith)
      placed (omega arith, omega arith) (omega arith) (λ old. omega (arith, old.0))

write_check_free_hintblock-IsPlaced_example :
    IsPlaced header device
      ((write_check_free_hintblock header before_backup).location).block_location
      8650752
      4456448
write_check_free_hintblock-IsPlaced_example =
    write_check_free_hintblock-IsPlaced header device before_backup 8191 8192 region free

-- A blank device of 1 MiB, which its stream reads as zeros.
abbrev small_device : File
small_device = record device { size = 1024 * 1024 }

possible : IsPossible 512 262144 small_device
possible = record {
  works = inl (4096, refl);
  low = omega arith;
  smallest = omega arith;
  largest = omega arith;
  divided = refl;
  smallest_pad = omega arith;
  divided_pad = refl;
  room = omega arith;
}

blank : IsBlank 0 small_device
unfolding all_zero read_bytes
blank = (read_bytes small_device.contents 0 1024, refl, all_zero-read_bytes 1024 0)
  where
    all_zero-read_bytes : (n p : ℕ) → all_zero (read_bytes small_device.contents p n) ≡ true
    all_zero-read_bytes zero p = refl
    all_zero-read_bytes (suc n) p = all_zero-read_bytes n (p + 1)

init_dev-IsRequested_example :
    (made : Header) × (after : File) × ((init_dev 0 512 262144 255
          >> block_get_validate_master_header)
        small_device
      ≡ (ok (record { result = 0; header = made }), after))
    × IsRequested made 512 262144 255 1048576
init_dev-IsRequested_example = init_dev-IsRequested 0 512 262144 255 small_device possible blank

-- A read that ends at the last byte.
io_read_block-ReadsOrRefuses_example :
    ReadsOrRefuses 1048064 512 small_device (io_read_block 1048064 512 small_device)
io_read_block-ReadsOrRefuses_example =
    io_read_block-ReadsOrRefuses 1048064 512 small_device (inl (4096, refl)) (omega arith)
      (omega arith) (omega arith)

io_write_block-Stores_example :
    Stores device 512 (message ++ replicate 5 255) (io_write_block 512 message (replicate 5 255))
io_write_block-Stores_example =
    io_write_block-Stores 512 message (replicate 5 255) device (inl (4096, refl)) (omega arith)
      (omega (arith, length-replicate {A = ℕ} 5 255)) (omega arith)
      (omega (arith, length-replicate {A = ℕ} 5 255))

abbrev queue : List SyncEntry
queue = record { start_address = 4096; end_address = 4608 } ∷ []

io_update_sync_queue-Updates_example :
    Updates 4608 5120 4700 queue (io_update_sync_queue queue 4608 5120)
io_update_sync_queue-Updates_example =
    io_update_sync_queue-Updates 4608 5120 4700 queue (omega arith) (omega arith, tt) (omega arith)

crc32buf-reference_example : crc32buf message ≡ reference message
crc32buf-reference_example =
    crc32buf-reference message (omega arith, (omega arith, (omega arith, tt)))

validate_block-seal_block_example :
    validate_block
      (encode_block_header (seal_block block message) ++ (message ++ replicate 477 255))
      header
    ≡ some 0
validate_block-seal_block_example =
    validate_block-seal_block block message (replicate 477 255) header is_block.fits refl
      (omega arith) (omega arith) refl

validate_hintblock_iff_example :
    (validate_hintblock (record blank_hint_block { hash = 9 }) header ≡ some 0)
    ↔ ((9 ≡ crc32buf (encode_hint_block blank_hint_block)) × (blank_hint_block.pad ≡ 0))
validate_hintblock_iff_example =
    validate_hintblock_iff (record blank_hint_block { hash = 9 }) header (omega arith) refl

validate_header_iff_example :
    (validate_header header 1048576 ≡ some 0)
    ↔ ((0 ≡ crc32buf (encode_header header)) × IsSound header 1048576)
validate_header_iff_example = validate_header_iff header 1048576 (omega arith) refl (omega arith)

-- A device of 4 GiB, the size of which is 0 as an `int`.
validate_header_wraps_example : validate_header header (2 ^ 32) ≢ some 0
validate_header_wraps_example = validate_header_wraps header (2 ^ 32) (omega arith) (omega arith)

-- A block in use, with its hint block, on the device, where everything else is 0.
abbrev used : File
used = record device {
  contents =
      write_bytes
        (write_bytes (λ a. 0) 262144 (encode_block_header (seal_block block message) ++ message))
        8650752
        (encode_hint_block
          (seal_hint_block (record blank_hint_block { previous_block_pos = 262144 })));
}

hint_used :
    hint_at used.contents 8650752
    ≡ seal_hint_block (record blank_hint_block { previous_block_pos = 262144 })
hint_used =
    ap decode_hint_block (
      ap (read_bytes used.contents 8650752) (sym (length-encode_hint_block sealed))
      ∙ read-write
          (write_bytes (λ a. 0) 262144 (encode_block_header (seal_block block message) ++ message))
          8650752 (encode_hint_block sealed))
    ∙ decode-encode_hint_block sealed (record {
      previous = omega arith;
      tagged = omega arith;
      pad = omega arith;
      hash = crc32buf-lt _;
    })
  where
    sealed : HintBlock
    sealed = seal_hint_block (record blank_hint_block { previous_block_pos = 262144 })

block_get_hintblock_state-Describes_example :
    (state : HintblockState) × (after : File) × (block_get_hintblock_state 8650752 header 262144
        8650240 used
      ≡ (ok state, after))
    × Describes used.contents header 8650752 262144 8650240 state
    × SameDevice used after
    × (after.contents ≡ used.contents)
block_get_hintblock_state-Describes_example =
    block_get_hintblock_state-Describes 8650752 262144 8650240 header used
      (record {
        works = inl (4096, refl);
        fits = omega arith;
        algorithm = refl;
        narrow = omega arith;
      })
      (validate_hintblock_result (hint_at used.contents 8650752) header refl
        ∙ ap some (
            ap hint_result hint_used
            ∙ hint_result-seal_hint_block header (omega arith) (omega arith)
                (record blank_hint_block { previous_block_pos = 262144 }) refl))
      (omega arith) (omega arith)

-- The bytes of the sealed block.
sealed_block : List ℕ
sealed_block = encode_block_header (seal_block block message) ++ message

-- A read of at most one block, in the region with the block.
abbrev one_block : ReadLoop
one_block = record { timestamp_gteq = 0; limit = 1; result_count = 0; dumped = [] }

abbrev used_state : HintblockState
used_state = record (location.hintblock_state) {
  valid = true;
  highest_timestamp = 7;
  hintblock = record blank_hint_block { previous_block_pos = 262144 };
}

read_block_loop_callback-StopsAt_example :
    Ends
      (StopsAt 1)
      (block_loop_blocks header used_state read_block_loop_callback 512 one_block used)
read_block_loop_callback-StopsAt_example =
    read_block_loop_callback-StopsAt header used_state one_block used (omega arith) (omega arith)
      (omega arith) (omega arith) (λ e. omega (arith, e)) refl (omega arith)
