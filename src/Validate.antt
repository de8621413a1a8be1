-- ===== src/Validate.antt =====
-- src/lib/validate.c: when a block, a hint block and the master header are accepted. `none` is the
-- status 1 of a failed checksum computation; a result is the bit pattern of `*result`.
pub mod Laws
use blockdevlogger.Base.{
  ℕ, ◌+◌, ◌*◌, ◌%◌, ◌^◌, ◌≤◌, ◌<◌, Bool, true, false, not, ◌||◌, Option, none, some, List, ltb,
  ◌==◌, if◌then◌else◌, take, put_field, add64, int_to_u64,
}
use blockdevlogger.Layout.{
  Header, BlockHeader, HintBlock, size_of_block_header, block_hash_offset, encode_header,
  encode_hint_block, decode_block_header, minimum_blocksize, maximum_blocksize, blocksize_divisor,
  blocksystem_version,
}
use blockdevlogger.Crypt.{crypt_check_hash}

-- The buffer holds a whole block: `all_data` and what follows it.
pub validate_block : List ℕ → Header → Option ℕ
validate_block all_data master_header =
    let header = decode_block_header all_data in
    let total_size = add64 size_of_block_header header.data_length in
    if ltb master_header.block_size total_size
    then some 1
    else crypt_check_hash (put_field block_hash_offset 4 0 (take total_size all_data))
        master_header.default_hash_algorithm header.hash

pub validate_hintblock : HintBlock → Header → Option ℕ
validate_hintblock header_orig master_header =
    elim (crypt_check_hash (encode_hint_block (record header_orig { hash = 0 }))
      master_header.default_hash_algorithm header_orig.hash) [
        | none ↦ none
        | some result ↦ if not (header_orig.pad == 0) then some 1 else some result
      ]

-- The checks behind the checksum: each that fails sets the result to 1. `file_size` is an `int`,
-- which the comparison widens.
pub header_is_refused : Header → ℕ → Bool
header_is_refused header file_size =
    ltb header.total_size (header.block_size * 2 % 2 ^ 64)
    || (ltb (int_to_u64 file_size) header.total_size
        || (not (header.total_size % header.block_size == 0)
            || (if not (header.blocksystem_version == blocksystem_version)
                then true
                else if ltb header.block_size minimum_blocksize
                then true
                else if ltb maximum_blocksize header.block_size
                then true
                else not (header.block_size % blocksize_divisor == 0))))

pub validate_header : Header → ℕ → Option ℕ
validate_header header file_size =
    elim (crypt_check_hash (encode_header (record header { hash = 0 }))
      header.default_hash_algorithm header.hash) [
        | none ↦ none
        | some result ↦
            if not (result == 0)
            then some 1
            else (if header_is_refused header file_size then some 1 else some 0)
      ]
