-- ===== src/Put/Block.antt =====
-- A data block that has been put is read back as it was, and found valid.
use blockdevlogger.Base.{
  ℕ, ◌+◌, ◌-◌, ◌≤◌, ◌<◌, ◌^◌, ◌≡◌, refl, sym, subst, of_some, ap, ◌∙◌, List, ◌++◌, append_assoc,
  length, length-append, length-replicate, replicate, take, take-append, drop-append, arith,
}
use blockdevlogger.Layout.{Header, BlockHeader, encode_block_header, FitsBlockHeader}
use blockdevlogger.Layout.RoundTrip.{
  length-encode_block_header, decode-encode_block_header, encode_block_header-IsBytes,
}
use blockdevlogger.Crc32.Reference.{crc32buf-lt, IsBytes}
use blockdevlogger.Device.{
  Memory, read_bytes, write_bytes, read-write, append-IsBytes, replicate-IsBytes,
}
use blockdevlogger.Validate.Laws.{
  seal_block, block_result, validate_block-seal_block, validate_block_result,
}
use blockdevlogger.Blocks.{ReadBlock}
use blockdevlogger.Blocks.Laws.{block_of, read_block_at}
use blockdevlogger.Put.Laws.{block_bytes}

-- What reading the block's place gives, in a memory where it was put.
abbrev pub IsStored : BlockHeader → List ℕ → ReadBlock → Type 0
IsStored b bytes r =
    (r.result ≡ 0)
    × (r.block_header ≡ seal_block b bytes)
    × (take (length bytes) r.block_data ≡ bytes)

module _ (header : Header) (pad_byte : header.pad_character < 256) (b : BlockHeader)
    (bytes : List ℕ) (fits : FitsBlockHeader b) (declared : b.data_length ≡ length bytes)
    (room : 32 + length bytes ≤ header.block_size) (small : header.block_size < 2 ^ 64)
    (algorithm : header.default_hash_algorithm ≡ 0) where
  whole : List ℕ
  whole = encode_block_header (seal_block b bytes) ++ bytes

  length-whole : length whole ≡ 32 + length bytes
  unfolding whole
  length-whole =
      length-append (encode_block_header (seal_block b bytes)) bytes
      ∙ ap (λ (n : ℕ). n + length bytes) (length-encode_block_header (seal_block b bytes))

  padding : List ℕ
  unfolding whole
  padding = replicate (header.block_size - length whole) header.pad_character

  pub length-block_bytes : length (block_bytes header b bytes) ≡ header.block_size
  unfolding padding whole
  length-block_bytes = omega (
    arith,
    length-whole,
    length-append whole padding,
    length-replicate (header.block_size - length whole) header.pad_character,
  )

  pub block_bytes-IsBytes : IsBytes bytes → IsBytes (block_bytes header b bytes)
  block_bytes-IsBytes v =
      append-IsBytes _ _ (append-IsBytes _ _ (encode_block_header-IsBytes _) v)
        (replicate-IsBytes _ header.pad_character pad_byte)

  seal_block-Fits : FitsBlockHeader (seal_block b bytes)
  seal_block-Fits = record {
    timestamp = fits.timestamp;
    application_data = fits.application_data;
    data_length = fits.data_length;
    pad = fits.pad;
    hash = crc32buf-lt _;
  }

  stored_as :
      block_bytes header b bytes ≡ encode_block_header (seal_block b bytes) ++ (bytes ++ padding)
  unfolding padding whole
  stored_as = append_assoc (encode_block_header (seal_block b bytes)) bytes _

  accepted :
      block_result (encode_block_header (seal_block b bytes) ++ (bytes ++ padding)) header ≡ 0
  accepted = of_some _ _ (
      sym (
        validate_block_result (encode_block_header (seal_block b bytes) ++ (bytes ++ padding))
          header algorithm)
      ∙ validate_block-seal_block b bytes padding header fits declared room small algorithm)

  decoded :
      IsStored b bytes
        (block_of (encode_block_header (seal_block b bytes) ++ (bytes ++ padding)) header)
  decoded = (
    accepted,
    decode-encode_block_header (seal_block b bytes) (bytes ++ padding) seal_block-Fits,
    ap (take (length bytes)) (
          drop-append (encode_block_header (seal_block b bytes)) (bytes ++ padding) 32
            (length-encode_block_header (seal_block b bytes)))
        ∙ take-append bytes padding (length bytes) refl,
  )

  pub read_block-IsStored :
      (m : Memory) (pos : ℕ)
      → read_bytes m pos header.block_size ≡ block_bytes header b bytes
      → IsStored b bytes (read_block_at m pos header)
  read_block-IsStored m pos e =
      subst (λ bs. IsStored b bytes (block_of bs header)) (sym (e ∙ stored_as)) decoded

  pub read-write_block :
      (m : Memory) (pos : ℕ)
      → read_bytes (write_bytes m pos (block_bytes header b bytes)) pos header.block_size
        ≡ block_bytes header b bytes
  read-write_block m pos =
      ap (read_bytes (write_bytes m pos (block_bytes header b bytes)) pos) (sym length-block_bytes)
      ∙ read-write m pos (block_bytes header b bytes)
