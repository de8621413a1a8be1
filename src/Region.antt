-- ===== src/Region.antt =====
-- The abstract view of a region (src/lib/blocks.c, write.c and read.c): a log, to which a write adds
-- an entry at the end, and of which a read prints the entries in order.
pub mod Places
pub mod Log
pub mod Print
pub mod Read
pub mod State
pub mod Find
pub mod Kept
pub mod Write
pub mod Logs
pub mod Rounds
pub mod Oldest
pub mod ReadAll
pub mod ReadBlocks
pub mod WriteRead
pub mod Init
pub mod Sequence
pub mod Full
use blockdevlogger.Base.{
  ℕ, zero, suc, ◌+◌, ◌*◌, ◌≤◌, ◌<◌, ◌^◌, ◌≡◌, Bool, true, false, List, [], ◌∷◌, ◌++◌, ltb, leb,
  if◌then◌else◌, length, take,
}
use blockdevlogger.Layout.{Header, BlockHeader}
use blockdevlogger.Device.{File, Memory}
use blockdevlogger.Blocks.Laws.{read_block_at}
use blockdevlogger.Put.Block.{IsStored}
use blockdevlogger.Read.{Dump}
use blockdevlogger.Write.{new_block_header}

pub record Entry : Type 0 where
  pub timestamp : ℕ
  pub application_data : ℕ
  pub bytes : List ℕ

abbrev pub header_of : Entry → BlockHeader
header_of e = new_block_header e.timestamp e.application_data (length e.bytes)

-- The entry that a printed block stands for: its data without the padding.
abbrev pub entry_of : Dump → Entry
entry_of d = record {
  timestamp = (d.block).timestamp;
  application_data = (d.block).application_data;
  bytes = take (d.block).data_length d.block_data;
}

abbrev pub entries_of : List Dump → List Entry
entries_of [] = []
entries_of (d ∷ dumps) = entry_of d ∷ entries_of dumps

-- The entries that a read from a timestamp on selects.
abbrev pub selected : ℕ → List Entry → List Entry
selected timestamp_gteq [] = []
selected timestamp_gteq (e ∷ entries) =
    if leb timestamp_gteq e.timestamp
    then e ∷ selected timestamp_gteq entries
    else selected timestamp_gteq entries

-- The blocks of a region are numbered from its first one; the one with the number `c` is the place of
-- the backup hint block. The entry `n` has the block `slot c n`.
unfoldable pub slot : ℕ → ℕ → ℕ
slot c n = if ltb n c then n else n + 1

abbrev pub place : Header → ℕ → ℕ → ℕ → ℕ
place header lo c n = lo + slot c n * header.block_size

-- The entries, from the number `n` on, are stored in their places.
abbrev pub Holds : Header → ℕ → ℕ → Memory → ℕ → List Entry → Type 0
Holds header lo c m n [] = Unit
Holds header lo c m n (e ∷ entries) =
    IsStored (header_of e) e.bytes (read_block_at m (place header lo c n) header)
    × Holds header lo c m (suc n) entries
