-- ===== src/Init.antt =====
-- src/lib/init.c: initializing a blank device with a master header.
pub mod RoundTrip
pub mod Requested
use blockdevlogger.Base.{
  ℕ, ◌+◌, ◌-◌, ◌*◌, ◌%◌, ◌^◌, Bool, true, false, ◌&&◌, ◌||◌, not, Option, none, some, List, [], ◌∷◌,
  ltb, ◌==◌, if◌then◌else◌, replicate, u32,
}
use blockdevlogger.Layout.{
  Header, size_of_header, encode_header, blocksystem_version, minimum_blocksize, maximum_blocksize,
  blocksize_divisor, minimum_header_pad, header_pad_divisor, blank_start_size, default_blocksize,
  default_header_pad,
}
use blockdevlogger.Crypt.{crypt_hash_data}
use blockdevlogger.Device.{
  File, Ret, ok, err, M, pure, ◌>>=◌, ◌>>◌, and_then, or_return, fail, leave,
}
use blockdevlogger.Io.{io_write_block}

-- BDL_CONFIG_HEADER_START of configure.ac, "BLOCK DEVICE LOGGER", with the zeros of `strncpy`.
abbrev pub header_start : List ℕ
header_start =
    66
    ∷ 76
    ∷ 79
    ∷ 67
    ∷ 75
    ∷ 32
    ∷ 68
    ∷ 69
    ∷ 86
    ∷ 73
    ∷ 67
    ∷ 69
    ∷ 32
    ∷ 76
    ∷ 79
    ∷ 71
    ∷ 71
    ∷ 69
    ∷ 82
    ∷ replicate 13 0

unfoldable pub all_zero : List ℕ → Bool
all_zero [] = true
all_zero (b ∷ bytes) = (b == 0) && all_zero bytes

-- The stream is read where it stands, at `position`, also where the device is mapped. The code looks
-- at the bytes four at a time, as an `int`.
pub check_blank_device : ℕ → M (Unit {0})
check_blank_device position f = elim (f.host.fread f.contents position blank_start_size) [
  | none ↦ (err 1, f)
  | some bytes ↦ (if all_zero bytes then ok tt else err 1, f)
]

-- The checks that `init_dev` calls redundant.
pub arguments_are_bugs : ℕ → ℕ → Bool
arguments_are_bugs blocksize header_pad =
    ltb header_pad minimum_header_pad
    || (not (header_pad % header_pad_divisor == 0)
        || (ltb maximum_blocksize blocksize
            || (ltb blocksize minimum_blocksize || not (blocksize % blocksize_divisor == 0))))

-- The master header before it is hashed, for a device of `size` bytes.
unfoldable pub new_header : ℕ → ℕ → ℕ → ℕ → Header
new_header blocksize header_pad padchar size = record {
  header_begin_message = header_start;
  blocksystem_version = blocksystem_version;
  pad_character = padchar % 2 ^ 8;
  default_hash_algorithm = 0;
  gap = 0;
  block_size = blocksize;
  total_size = size - header_pad - (size - header_pad) % blocksize;
  header_size = u32 header_pad;
  hash = 0;
}

-- The hash, and the write.
pub put_header : Header → ℕ → M (Unit {0})
put_header header header_pad =
    elim (crypt_hash_data (encode_header header) header.default_hash_algorithm) [
      | none ↦ fail 1
      | some hash ↦ or_return 1 (
          io_write_block 0 (encode_header (record header { hash = hash }))
            (replicate (header_pad - size_of_header) header.pad_character))
    ]

-- `position` is where the stream stands. `header_pad` is below 2^31, the size of an array.
pub init_dev : ℕ → ℕ → ℕ → ℕ → M (Unit {0})
init_dev position blocksize header_pad padchar f =
    if arguments_are_bugs blocksize header_pad
    then (Ret.exit, f)
    else (do
      or_return 1 (check_blank_device position)
      if ltb f.size (header_pad + blocksize * 2)
          then fail 1
          else put_header (new_header blocksize header_pad padchar f.size) header_pad)
        f

-- `bdl_init_dev` of src/lib/interface.c: a size of 0 stands for the default, and sizes that
-- `init_dev` would call bugs are refused.
pub bdl_init_dev : ℕ → ℕ → ℕ → ℕ → M (Unit {0})
bdl_init_dev position blocksize header_pad padchar =
    let blocksize' = if blocksize == 0 then default_blocksize else blocksize in
    let header_pad' = if header_pad == 0 then default_header_pad else header_pad in
    if ltb maximum_blocksize blocksize'
      || (ltb blocksize' minimum_blocksize
          || (not (blocksize' % blocksize_divisor == 0)
              || (ltb header_pad' minimum_header_pad
                  || not (header_pad' % header_pad_divisor == 0))))
    then fail 1
    else init_dev position blocksize' header_pad' padchar
