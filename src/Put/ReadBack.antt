-- ===== src/Put/ReadBack.antt =====
-- What has been put is read back, and found valid.
use blockdevlogger.Base.{
  ℕ, ◌-◌, ◌≤◌, ◌<◌, ◌^◌, ◌≡◌, refl, sym, ap, ◌∙◌, List, length, length-append, length-replicate,
  replicate, arith,
}
use blockdevlogger.Layout.{Header, HintBlock, encode_hint_block, decode_hint_block, FitsHintBlock}
use blockdevlogger.Layout.RoundTrip.{
  length-encode_hint_block, decode-encode_hint_block, encode_hint_block-IsBytes,
  decode_hint_block-Fits,
}
use blockdevlogger.Crc32.{crc32buf}
use blockdevlogger.Crc32.Reference.{crc32buf-lt, IsBytes}
use blockdevlogger.Crypt.{sub32-eq-zero}
use blockdevlogger.Device.{
  Memory, HoldsBytes, read_bytes, read-write_front, write_bytes-HoldsBytes, append-IsBytes,
  replicate-IsBytes, read_bytes-IsBytes,
}
use blockdevlogger.Validate.Laws.{seal_hint_block, hint_result}
use blockdevlogger.Blocks.{ReadHintBlock}
use blockdevlogger.Blocks.Laws.{hint_at, read_hint}
use blockdevlogger.Put.{new_hint_block}
use blockdevlogger.Put.Laws.{hint_bytes, with_hint}

module _ (header : Header) (small : 24 ≤ header.block_size)
    (pad_byte : header.pad_character < 256) where
  new_hint : Memory → ℕ → ℕ → ℕ → HintBlock
  new_hint m pos block_position tagged = new_hint_block (read_hint m pos) block_position tagged

  pub new_hint_block_pad :
      (m : Memory) (pos block_position tagged : ℕ)
      → (new_hint_block (read_hint m pos) block_position tagged).pad ≡ 0
  unfolding new_hint_block
  new_hint_block_pad m pos bp tagged = ground arith

  pub new_hint_block_last :
      (old : ReadHintBlock) (block_position tagged : ℕ)
      → (new_hint_block old block_position tagged).previous_block_pos ≡ block_position
  unfolding new_hint_block
  new_hint_block_last old bp tagged = refl

  seal_hint_block-Fits :
      (m : Memory) (pos block_position tagged : ℕ)
      → HoldsBytes m
      → block_position < 2 ^ 64
      → tagged < 2 ^ 64
      → FitsHintBlock (seal_hint_block (new_hint_block (read_hint m pos) block_position tagged))
  unfolding new_hint_block
  seal_hint_block-Fits m pos bp tagged h low low' = ground (
    arith,
    decode_hint_block-Fits (read_bytes m pos 24) (read_bytes-IsBytes m pos 24 h),
    crc32buf-lt
        (encode_hint_block (record (new_hint_block (read_hint m pos) bp tagged) { hash = 0 })),
  )

  hint_bytes-IsBytes :
      (old : ReadHintBlock) (block_position tagged : ℕ)
      → IsBytes (hint_bytes header old block_position tagged)
  hint_bytes-IsBytes old bp tagged =
      append-IsBytes _ _ (encode_hint_block-IsBytes _)
        (replicate-IsBytes _ header.pad_character pad_byte)

  pub length-hint_bytes :
      (old : ReadHintBlock) (block_position tagged : ℕ)
      → length (hint_bytes header old block_position tagged) ≡ header.block_size
  length-hint_bytes old bp tagged =
      let sealed = encode_hint_block (seal_hint_block (new_hint_block old bp tagged)) in
      omega (
        arith,
        length-append sealed (replicate (header.block_size - length sealed) header.pad_character),
        length-replicate (header.block_size - length sealed) header.pad_character,
        length-encode_hint_block (seal_hint_block (new_hint_block old bp tagged)),
      )

  pub with_hint-HoldsBytes :
      (m : Memory) (block_position tagged pos : ℕ)
      → HoldsBytes m
      → HoldsBytes (with_hint header block_position tagged pos m)
  with_hint-HoldsBytes m bp tagged pos h =
      write_bytes-HoldsBytes m pos _ h (hint_bytes-IsBytes _ bp tagged)

  -- The hint block that was put is the one that is found there.
  pub hint_at-with_hint :
      (m : Memory) (block_position tagged pos : ℕ)
      → HoldsBytes m
      → block_position < 2 ^ 64
      → tagged < 2 ^ 64
      → hint_at (with_hint header block_position tagged pos m) pos
        ≡ seal_hint_block (new_hint_block (read_hint m pos) block_position tagged)
  hint_at-with_hint m bp tagged pos h low low' =
      ap decode_hint_block (
        ap (read_bytes (with_hint header bp tagged pos m) pos)
          (sym (length-encode_hint_block sealed))
        ∙ read-write_front m pos (encode_hint_block sealed) padding)
      ∙ decode-encode_hint_block sealed (seal_hint_block-Fits m pos bp tagged h low low')
    where
      sealed : HintBlock
      sealed = seal_hint_block (new_hint_block (read_hint m pos) bp tagged)

      padding : List ℕ
      padding =
          replicate (header.block_size - length (encode_hint_block sealed)) header.pad_character

  pub hint_result-seal_hint_block :
      (h : HintBlock) → h.pad ≡ 0 → hint_result (seal_hint_block h) ≡ 0
  hint_result-seal_hint_block h e =
      let crc = crc32buf (encode_hint_block (record h { hash = 0 })) in
      ground (arith, (sub32-eq-zero crc crc (crc32buf-lt _) (crc32buf-lt _)).1 refl)
