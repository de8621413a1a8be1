-- ===== src/Layout.antt =====
-- src/lib/blocks.h and src/lib/defaults.h: the three structs that are stored on a device, their
-- bytes (little endian, with the alignment of the 64-bit targets), and the constants.
pub mod RoundTrip
use blockdevlogger.Base.{
  ℕ, ◌+◌, ◌*◌, ◌/◌, ◌<◌, ◌^◌, ◌≡◌, List, [], ◌∷◌, ◌++◌, take, length, le_bytes, field_at,
}

-- The numbers of defaults.h.
abbrev pub blocksystem_version : ℕ
blocksystem_version = 4

abbrev pub default_blocksize : ℕ
default_blocksize = 512

abbrev pub minimum_blocksize : ℕ
minimum_blocksize = 512

abbrev pub maximum_blocksize : ℕ
maximum_blocksize = 8192

abbrev pub blocksize_divisor : ℕ
blocksize_divisor = 256

abbrev pub default_header_pad : ℕ
default_header_pad = 256 * 1024

abbrev pub minimum_header_pad : ℕ
minimum_header_pad = 1024

abbrev pub header_pad_divisor : ℕ
header_pad_divisor = 256

abbrev pub mmap_sync_size : ℕ
mmap_sync_size = 65536

abbrev pub hintblock_spacing : ℕ
hintblock_spacing = 8 * 1024 * 1024

-- BDL_HINTBLOCK_BACKUP_POSITION is -(8 MiB) / 2; this is its absolute value.
abbrev pub backup_distance : ℕ
backup_distance = hintblock_spacing / 2

abbrev pub small_size_threshold : ℕ
small_size_threshold = 256 * 1024 * 1024

abbrev pub blank_start_size : ℕ
blank_start_size = 1024

-- struct bdl_header. `gap` is what the compiler leaves before the first `uint64_t`.
pub record Header : Type 0 where
  pub header_begin_message : List ℕ
  pub blocksystem_version : ℕ
  pub pad_character : ℕ
  pub default_hash_algorithm : ℕ
  pub gap : ℕ
  pub block_size : ℕ
  pub total_size : ℕ
  pub header_size : ℕ
  pub hash : ℕ

abbrev pub size_of_header : ℕ
size_of_header = 64

-- The fields behind the message.
abbrev pub encode_header_fields : Header → List ℕ
encode_header_fields h =
    le_bytes 2 h.blocksystem_version
    ++ (le_bytes 1 h.pad_character
        ++ (le_bytes 1 h.default_hash_algorithm
            ++ (le_bytes 4 h.gap
                ++ (le_bytes 8 h.block_size
                    ++ (le_bytes 8 h.total_size
                        ++ (le_bytes 4 h.header_size ++ le_bytes 4 h.hash))))))

pub encode_header : Header → List ℕ
encode_header h = h.header_begin_message ++ encode_header_fields h

pub decode_header : List ℕ → Header
decode_header bs = record {
  header_begin_message = take 32 bs;
  blocksystem_version = field_at 32 2 bs;
  pad_character = field_at 34 1 bs;
  default_hash_algorithm = field_at 35 1 bs;
  gap = field_at 36 4 bs;
  block_size = field_at 40 8 bs;
  total_size = field_at 48 8 bs;
  header_size = field_at 56 4 bs;
  hash = field_at 60 4 bs;
}

-- struct bdl_block_header
pub record BlockHeader : Type 0 where
  pub timestamp : ℕ
  pub application_data : ℕ
  pub data_length : ℕ
  pub pad : ℕ
  pub hash : ℕ

abbrev pub size_of_block_header : ℕ
size_of_block_header = 32

-- The hash is the last field, at this offset.
abbrev pub block_hash_offset : ℕ
block_hash_offset = 28

pub encode_block_header : BlockHeader → List ℕ
encode_block_header b =
    le_bytes 8 b.timestamp
    ++ (le_bytes 8 b.application_data
        ++ (le_bytes 8 b.data_length ++ (le_bytes 4 b.pad ++ le_bytes 4 b.hash)))

pub decode_block_header : List ℕ → BlockHeader
decode_block_header bs = record {
  timestamp = field_at 0 8 bs;
  application_data = field_at 8 8 bs;
  data_length = field_at 16 8 bs;
  pad = field_at 24 4 bs;
  hash = field_at 28 4 bs;
}

-- struct bdl_hint_block
pub record HintBlock : Type 0 where
  pub previous_block_pos : ℕ
  pub previous_tagged_block_pos : ℕ
  pub pad : ℕ
  pub hash : ℕ

abbrev pub size_of_hint_block : ℕ
size_of_hint_block = 24

pub encode_hint_block : HintBlock → List ℕ
encode_hint_block h =
    le_bytes 8 h.previous_block_pos
    ++ (le_bytes 8 h.previous_tagged_block_pos ++ (le_bytes 4 h.pad ++ le_bytes 4 h.hash))

unfoldable pub decode_hint_block : List ℕ → HintBlock
decode_hint_block bs = record {
  previous_block_pos = field_at 0 8 bs;
  previous_tagged_block_pos = field_at 8 8 bs;
  pad = field_at 16 4 bs;
  hash = field_at 20 4 bs;
}

-- What `memset(…, '\0', …)` leaves.
abbrev pub blank_block_header : BlockHeader
blank_block_header = record {
  timestamp = 0;
  application_data = 0;
  data_length = 0;
  pad = 0;
  hash = 0;
}

abbrev pub blank_hint_block : HintBlock
blank_hint_block = record {
  previous_block_pos = 0;
  previous_tagged_block_pos = 0;
  pad = 0;
  hash = 0;
}

-- The fields lie in the ranges of their C types.
pub record FitsHeader (h : Header) : Type 0 where
  pub message : length h.header_begin_message ≡ 32
  pub version : h.blocksystem_version < 2 ^ 16
  pub pad_character : h.pad_character < 2 ^ 8
  pub algorithm : h.default_hash_algorithm < 2 ^ 8
  pub gap : h.gap < 2 ^ 32
  pub block_size : h.block_size < 2 ^ 64
  pub total_size : h.total_size < 2 ^ 64
  pub header_size : h.header_size < 2 ^ 32
  pub hash : h.hash < 2 ^ 32

pub record FitsBlockHeader (b : BlockHeader) : Type 0 where
  pub timestamp : b.timestamp < 2 ^ 64
  pub application_data : b.application_data < 2 ^ 64
  pub data_length : b.data_length < 2 ^ 64
  pub pad : b.pad < 2 ^ 32
  pub hash : b.hash < 2 ^ 32

pub record FitsHintBlock (h : HintBlock) : Type 0 where
  pub previous : h.previous_block_pos < 2 ^ 64
  pub tagged : h.previous_tagged_block_pos < 2 ^ 64
  pub pad : h.pad < 2 ^ 32
  pub hash : h.hash < 2 ^ 32
