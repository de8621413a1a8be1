-- ===== src/Io.antt =====
-- src/lib/io.c: positions, reads and writes with their bounds, and the queue of ranges to sync.
-- Pointers into the memory map are numbers from its address on.
pub mod Sync
pub mod Block
pub mod Open
pub mod Termination
use blockdevlogger.Base.{
  ℕ, ◌+◌, ◌-◌, ◌*◌, ◌/◌, ◌<◌, ◌≡◌, Bool, true, false, ◌&&◌, ◌||◌, not, Option, none, some, List, [],
  ◌∷◌, ◌++◌, ltb, leb, ◌==◌, if◌then◌else◌, length, take, u32, add64,
}
use mathlib.Core.Option
use blockdevlogger.Device.{
  SyncEntry, Host, File, Ret, ok, err, M, pure, ◌>>=◌, ◌>>◌, and_then, or_return, fail, Memory,
  read_bytes, write_bytes,
}
use blockdevlogger.Layout.{mmap_sync_size}

abbrev pub sync_queue_max : ℕ
sync_queue_max = 16

pub io_seek : ℕ → M (Unit {0})
io_seek pos f =
    if leb f.size pos
    then (err 1, f)
    else let f' : File = record f { seek = pos } in
      elim f.memorymap [
        | some base ↦ (ok tt, f')
        | none ↦ if f.host.fseek pos then (ok tt, f') else (err 1, f')
      ]

-- `length` is an `unsigned int`.
pub io_read : ℕ → M (List ℕ)
io_read length f =
    let n = u32 length in
    if leb f.size (add64 f.seek n) then (err 1, f) else elim f.memorymap [
      | some base ↦ (ok (read_bytes f.contents f.seek n), f)
      | none ↦ elim (f.host.fread f.contents f.seek n) [
        | some bytes ↦ (ok bytes, f)
        | none ↦ (err 1, f)
      ]
    ]

-- The range joined to one entry, if it touches the entry on the side that is asked first.
unfoldable pub join_entry : ℕ → ℕ → SyncEntry → Option SyncEntry
join_entry start end entry =
    if start == entry.start_address
      || (ltb entry.start_address start && leb start entry.end_address)
    then some (if ltb entry.end_address end then record entry { end_address = end } else entry)
    else if end == entry.end_address || (ltb end entry.end_address && leb entry.start_address end)
    then some
        (if ltb start entry.start_address then record entry { start_address = start } else entry)
    else none

-- The loop over the entries: the first that can be joined is.
unfoldable pub join_queue : ℕ → ℕ → List SyncEntry → Option (List SyncEntry)
join_queue start end [] = none
join_queue start end (entry ∷ queue) = elim (join_entry start end entry) [
  | some joined ↦ some (joined ∷ queue)
  | none ↦ Option.map (◌∷◌ entry) (join_queue start end queue)
]

-- The status, and the queue after the call.
pub io_update_sync_queue : List SyncEntry → ℕ → ℕ → ℕ × List SyncEntry
io_update_sync_queue [] start end = (0, record { start_address = start; end_address = end } ∷ [])
io_update_sync_queue (first ∷ queue) start end = elim (join_queue start end (first ∷ queue)) [
  | some joined ↦ (0, joined)
  | none ↦
      if length (first ∷ queue) == sync_queue_max
      then (1, first ∷ queue)
      else (0, (first ∷ queue) ++ record { start_address = start; end_address = end } ∷ [])
]

-- The range that one entry has `msync` write: its start rounded down to a page, which a power of two
-- is, so that the mask is a multiple; not below the map.
pub synced_range : ℕ → ℕ → SyncEntry → SyncEntry
synced_range page base entry =
    let aligned = entry.start_address / page * page in
    record entry { start_address = if ltb aligned base then base else aligned }

pub synced_ranges : ℕ → ℕ → List SyncEntry → List SyncEntry
synced_ranges page base [] = []
synced_ranges page base (entry ∷ queue) =
    synced_range page base entry ∷ synced_ranges page base queue

-- A failure of `msync` is only reported.
pub io_sync : File → File
io_sync f = record f {
  unsynced_write_bytes = 0;
  sync_queue = [];
  msynced = f.msynced ++ synced_ranges f.host.page_size (Option.get_or f.memorymap 0) f.sync_queue;
}

-- The bookkeeping of a write into the map: queue the range, and sync if there is no room for it or
-- enough has been written.
pub note_write : ℕ → ℕ → File → File
note_write start written f =
    let total = add64 f.unsynced_write_bytes written in
    let (full, queue) = io_update_sync_queue f.sync_queue start (start + written) in
    let f' : File = record f { unsynced_write_bytes = total; sync_queue = queue } in
    if not (full == 0) || leb mmap_sync_size total then io_sync f' else f'

-- The write proper: into the map, or through the stream.
pub put_bytes : List ℕ → M (Unit {0})
put_bytes bytes f = elim f.memorymap [
  | some base ↦ (
    ok tt,
    note_write (base + f.seek) (length bytes)
        (record f { contents = write_bytes f.contents f.seek bytes }),
  )
  | none ↦
      let (done, contents) = f.host.fwrite f.contents f.seek bytes in
      (if done then ok tt else err 1, record f { contents = contents })
]

-- `length` is an `unsigned int`.
pub io_write : List ℕ → M (Unit {0})
io_write source f =
    let n = u32 (length source) in
    if leb f.size (add64 f.seek n) then (err 1, f) else put_bytes (take n source) f

-- The data, and behind it the padding.
pub io_write_block : ℕ → List ℕ → List ℕ → M (Unit {0})
io_write_block position source padding = do
  or_return 1 (io_seek position)
  or_return 1 (io_write source)
  or_return 1 (io_seek (add64 position (length source)))
  or_return 1 (io_write padding)

pub io_read_block : ℕ → ℕ → M (List ℕ)
io_read_block position data_length = do
  or_return 1 (io_seek position)
  or_return 1 (io_read data_length)

-- The map is synced as a whole, unmapped, and the stream closed. The status tells a failed `msync`.
unfoldable pub io_close : File → ℕ × File
io_close f = elim f.memorymap [
  | some base ↦
      let whole : SyncEntry = record { start_address = base; end_address = base + f.size } in
      (if f.host.msync whole then 0 else 1, record f { msynced = f.msynced ++ whole ∷ [] })
  | none ↦ (0, f)
]
