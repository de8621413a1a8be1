-- ===== src/Validate/Laws.antt =====
-- What the three validations accept, and that what the program seals is accepted.
use blockdevlogger.Base.{
  ℕ, ◌+◌, ◌*◌, ◌%◌, ◌^◌, ◌≤◌, ◌<◌, ◌≡◌, ◌≢◌, refl, sym, ◌∙◌, ap, ◌↔◌, false, some, List, ◌++◌, ltb,
  le→ltb, ◌==◌, not, if◌then◌else◌, length, take, take-append, length-append, append_assoc,
  put_field, add64, sub32, arith,
}
use blockdevlogger.Layout.{
  Header, BlockHeader, HintBlock, FitsBlockHeader, encode_block_header, decode_block_header,
  encode_hint_block, encode_header, minimum_blocksize, maximum_blocksize, blocksize_divisor,
}
use blockdevlogger.Layout.RoundTrip.{
  decode-encode_block_header, length-encode_block_header, put_field-encode_block_header,
}
use blockdevlogger.Crc32.{crc32buf}
use blockdevlogger.Crc32.Reference.{crc32buf-lt}
use blockdevlogger.Crypt.{crypt_check_hash_of_zero, sub32-eq-zero}
use blockdevlogger.Validate.{validate_block, validate_hintblock, header_is_refused, validate_header}

-- A block header with the checksum of itself and its data.
abbrev pub seal_block : BlockHeader → List ℕ → BlockHeader
seal_block b bytes = record b {
  hash = crc32buf (encode_block_header (record b { hash = 0 }) ++ bytes);
}

abbrev pub seal_hint_block : HintBlock → HintBlock
seal_hint_block h = record h { hash = crc32buf (encode_hint_block (record h { hash = 0 })) }

abbrev pub seal_header : Header → Header
seal_header h = record h { hash = crc32buf (encode_header (record h { hash = 0 })) }

-- The results of the two validations for algorithm 0, where no checksum computation fails.
abbrev pub hint_result : HintBlock → ℕ
hint_result h =
    if not (h.pad == 0)
    then 1
    else sub32 h.hash (crc32buf (encode_hint_block (record h { hash = 0 })))

abbrev pub block_result : List ℕ → Header → ℕ
block_result bytes master_header =
    let b = decode_block_header bytes in
    let total_size = add64 32 b.data_length in
    if ltb master_header.block_size total_size
    then 1
    else sub32 b.hash (crc32buf (put_field 28 4 0 (take total_size bytes)))

pub validate_hintblock_result :
    (h : HintBlock) (master_header : Header)
    → master_header.default_hash_algorithm ≡ 0
    → validate_hintblock h master_header ≡ some (hint_result h)
unfolding validate_hintblock
validate_hintblock_result h mh a =
    rw
      (
        crypt_check_hash_of_zero (encode_hint_block (record h { hash = 0 })) _ h.hash a,
        validate_hintblock,
      )
      (ground arith)

pub validate_block_result :
    (bytes : List ℕ) (master_header : Header)
    → master_header.default_hash_algorithm ≡ 0
    → validate_block bytes master_header ≡ some (block_result bytes master_header)
unfolding validate_block
validate_block_result bytes mh a = ground (
  arith,
  crypt_check_hash_of_zero
      (put_field 28 4 0 (take (add64 32 (decode_block_header bytes).data_length) bytes)) _
      (decode_block_header bytes).hash a,
)

-- What the checksum of a stored block is taken of.
hashed_part :
    (b : BlockHeader) (bytes padding : List ℕ)
    → put_field 28 4 0 (take (32 + length bytes) (encode_block_header b ++ (bytes ++ padding)))
      ≡ encode_block_header (record b { hash = 0 }) ++ bytes
hashed_part b bytes padding =
    ap (λ bs. put_field 28 4 0 (take (32 + length bytes) bs))
      (sym (append_assoc (encode_block_header b) bytes padding))
    ∙ ap (put_field 28 4 0) (
        take-append (encode_block_header b ++ bytes) padding (32 + length bytes) (
          length-append (encode_block_header b) bytes
          ∙ ap (λ (n : ℕ). n + length bytes) (length-encode_block_header b)))
    ∙ put_field-encode_block_header b bytes 0

-- For a block as it is stored, whatever follows the data, `validate_block` returns the difference
-- of the stored checksum and the CRC32 of header and data, provided that these fit the block size.
pub validate_block_stored :
    (b : BlockHeader) (bytes padding : List ℕ) (master_header : Header)
    → FitsBlockHeader b
    → b.data_length ≡ length bytes
    → 32 + length bytes ≤ master_header.block_size
    → master_header.block_size < 2 ^ 64
    → master_header.default_hash_algorithm ≡ 0
    → validate_block (encode_block_header b ++ (bytes ++ padding)) master_header
      ≡ some (sub32 b.hash (crc32buf (encode_block_header (record b { hash = 0 }) ++ bytes)))
unfolding validate_block
validate_block_stored b bytes padding mh v e h k a =
    rw
      (
        decode-encode_block_header b (bytes ++ padding) v,
        whole,
        le→ltb mh.block_size (32 + length bytes) h,
        hashed_part b bytes padding,
        crypt_check_hash_of_zero (encode_block_header (record b { hash = 0 }) ++ bytes) _ b.hash a,
      )
      refl
  where
    whole : (32 + b.data_length) % 2 ^ 64 ≡ 32 + length bytes
    whole = omega arith

-- With algorithm 0 and a block size below 2^64, a block whose fields fit their types and whose data
-- has the declared length and fits the block size is accepted once it is sealed with its checksum,
-- whatever pads it.
pub validate_block-seal_block :
    (b : BlockHeader) (bytes padding : List ℕ) (master_header : Header)
    → FitsBlockHeader b
    → b.data_length ≡ length bytes
    → 32 + length bytes ≤ master_header.block_size
    → master_header.block_size < 2 ^ 64
    → master_header.default_hash_algorithm ≡ 0
    → validate_block (encode_block_header (seal_block b bytes) ++ (bytes ++ padding)) master_header
      ≡ some 0
validate_block-seal_block b bytes padding mh v e h k a =
    validate_block_stored (seal_block b bytes) bytes padding mh sealed e h k a
    ∙ ap some ((sub32-eq-zero crc crc small small).1 refl)
  where
    crc : ℕ
    crc = crc32buf (encode_block_header (record b { hash = 0 }) ++ bytes)

    small : crc < 2 ^ 32
    small = crc32buf-lt _

    sealed : FitsBlockHeader (seal_block b bytes)
    sealed = record {
      timestamp = v.timestamp;
      application_data = v.application_data;
      data_length = v.data_length;
      pad = v.pad;
      hash = small;
    }

-- The bytes of a block that count: its header and the data that it declares, as a 64-bit sum.
abbrev pub whole_size : List ℕ → ℕ
whole_size bytes = (32 + (decode_block_header bytes).data_length) % 2 ^ 64

-- What makes the bytes of a block a valid one: those that count fit the block size, and the stored checksum
-- is their CRC32 with the four bytes of the checksum, at offset 28, set to 0.
pub record IsWhole (bytes : List ℕ) (block_size : ℕ) : Type 0 where
  pub fits : whole_size bytes ≤ block_size
  pub sealed :
      (decode_block_header bytes).hash ≡ crc32buf (put_field 28 4 0 (take (whole_size bytes) bytes))

-- With algorithm 0, a hint block with a checksum of 32 bits is accepted exactly when its checksum is the CRC32 of its fields and
-- its pad is 0.
pub validate_hintblock_iff :
    (h : HintBlock) (master_header : Header)
    → h.hash < 2 ^ 32
    → master_header.default_hash_algorithm ≡ 0
    → (validate_hintblock h master_header ≡ some 0)
      ↔ ((h.hash ≡ crc32buf (encode_hint_block (record h { hash = 0 }))) × (h.pad ≡ 0))
unfolding validate_hintblock
validate_hintblock_iff h mh small a =
    rw
      (
        crypt_check_hash_of_zero (encode_hint_block (record h { hash = 0 })) _ h.hash a,
        validate_hintblock,
      )
      (ground (
        arith,
        sub32-eq-zero h.hash (crc32buf (encode_hint_block (record h { hash = 0 }))) small
            (crc32buf-lt _),
      ))

-- The checks of a master header, in numbers.
pub record IsSound (h : Header) (file_size : ℕ) : Type 0 where
  pub two_blocks : h.block_size * 2 ≤ h.total_size
  pub inside : h.total_size ≤ file_size
  pub whole_blocks : h.total_size % h.block_size ≡ 0
  pub version : h.blocksystem_version ≡ 4
  pub smallest : minimum_blocksize ≤ h.block_size
  pub largest : h.block_size ≤ maximum_blocksize
  pub divided : h.block_size % blocksize_divisor ≡ 0

header_is_refused_iff :
    (h : Header) (file_size : ℕ)
    → file_size < 2 ^ 31
    → (header_is_refused h file_size ≡ false) ↔ IsSound h file_size
unfolding header_is_refused
header_is_refused_iff h file_size small = ground arith

-- With algorithm 0, a checksum of 32 bits and a file below 2 GiB, a master header is accepted exactly when its checksum is
-- the CRC32 of its fields and it passes every check.
pub validate_header_iff :
    (h : Header) (file_size : ℕ)
    → h.hash < 2 ^ 32
    → h.default_hash_algorithm ≡ 0
    → file_size < 2 ^ 31
    → (validate_header h file_size ≡ some 0)
      ↔ ((h.hash ≡ crc32buf (encode_header (record h { hash = 0 }))) × IsSound h file_size)
unfolding validate_header
validate_header_iff h file_size small a size =
    rw
      (crypt_check_hash_of_zero (encode_header (record h { hash = 0 })) _ h.hash a, validate_header)
      (ground (
        arith,
        sub32-eq-zero h.hash (crc32buf (encode_header (record h { hash = 0 }))) small
            (crc32buf-lt _),
        header_is_refused_iff h file_size size,
      ))

-- A file size is cut to an `int` before the comparison: where the low 32 bits of the size are below
-- 2 GiB and below the header's total size, the header is never accepted, however large the file is.
pub validate_header_wraps :
    (h : Header) (file_size : ℕ)
    → file_size % 2 ^ 32 < 2 ^ 31
    → file_size % 2 ^ 32 < h.total_size
    → validate_header h file_size ≢ some 0
unfolding validate_header header_is_refused
validate_header_wraps h file_size low short = ground arith
