-- ===== src/Put/Laws.antt =====
-- What the functions that put blocks store, and that it is read back as valid.
use blockdevlogger.Base.{
  ℕ, ◌+◌, ◌-◌, ◌≤◌, ◌<◌, ◌%◌, ◌^◌, ◌≡◌, ◌≢◌, ap, ◌∙◌, false, some, List, ◌++◌, ◌==◌, length,
  length-append, length-replicate, replicate, int_to_u64_small, arith,
}
use blockdevlogger.Layout.{Header, BlockHeader, HintBlock, encode_block_header, encode_hint_block}
use blockdevlogger.Layout.RoundTrip.{length-encode_block_header, length-encode_hint_block}
use blockdevlogger.Crc32.{crc32buf}
use blockdevlogger.Crypt.{crypt_hash_data, crypt_hash_data_of_zero}
use blockdevlogger.Device.{
  File, Memory, ok, Works, SameDevice, SameDevice-Works, SameDevice-trans, Stores, write_bytes,
  bind_ok, bind_return_ok, return_ok,
}
use blockdevlogger.Io.{io_write_block}
use blockdevlogger.Io.Block.{FitsSize, io_write_block-Stores}
use blockdevlogger.Validate.Laws.{seal_block, seal_hint_block}
use blockdevlogger.Blocks.{ReadHintBlock, block_get_valid_hintblock}
use blockdevlogger.Blocks.Laws.{read_hint, block_get_valid_hintblock_lem}
use blockdevlogger.Put.{
  write_put_and_pad_block, new_hint_block, put_hintblock, write_update_hintblock,
  write_checksum_and_put_block,
}

-- A device that works, and a master header that passed the checks which the writers rely on.
pub record IsUsable (f : File) (header : Header) : Type 0 where
  pub works : Works f
  pub fits : FitsSize f
  pub algorithm : header.default_hash_algorithm ≡ 0
  pub smallest : 512 ≤ header.block_size
  pub largest : header.block_size ≤ 8192

pub IsUsable-same :
    (f f' : File) (header : Header) → SameDevice f f' → IsUsable f header → IsUsable f' header
IsUsable-same f f' header s u = record {
  works = SameDevice-Works f f' s u.works;
  fits = rw s.0 u.fits;
  algorithm = u.algorithm;
  smallest = u.smallest;
  largest = u.largest;
}

pub write_put_and_pad_block-Stores :
    (pos : ℕ) (bytes : List ℕ) (pad total_size : ℕ) (f : File)
    → Works f
    → FitsSize f
    → pos < 2 ^ 31
    → length bytes ≤ total_size
    → total_size < 2 ^ 31
    → pos + total_size < f.size
    → Stores f pos
        (bytes ++ replicate (total_size - length bytes) pad)
        (write_put_and_pad_block pos bytes pad total_size)
write_put_and_pad_block-Stores pos bytes pad total f w v low fits small room = record {
  after = put.after;
  runs =
      unfold write_put_and_pad_block in
      rw (int_to_u64_small pos low)
        (return_ok 1 (io_write_block pos bytes padding) f put.after tt put.runs);
  same = put.same;
  stored = put.stored;
}
  where
    padding : List ℕ
    padding = replicate (total - length bytes) pad

    padded : length padding ≡ total - length bytes
    padded = length-replicate (total - length bytes) pad

    put : Stores f pos (bytes ++ padding) (io_write_block pos bytes padding)
    put =
        io_write_block-Stores pos bytes padding f w v (omega (arith, padded)) (omega arith)
          (omega (arith, padded))

-- A hint block as it is stored, with its padding.
abbrev pub hint_bytes : Header → ReadHintBlock → ℕ → ℕ → List ℕ
hint_bytes header old block_position tagged =
    let bytes = encode_hint_block (seal_hint_block (new_hint_block old block_position tagged)) in
    bytes ++ replicate (header.block_size - length bytes) header.pad_character

pub put_hintblock-Stores :
    (block_position tagged pos : ℕ) (header : Header) (f : File)
    → IsUsable f header
    → pos < 2 ^ 31
    → pos + header.block_size < f.size
    → Stores f pos
        (hint_bytes header (read_hint f.contents pos) block_position tagged)
        (put_hintblock block_position tagged pos header)
put_hintblock-Stores bp tagged pos header f u low room = record {
  after = put.after;
  runs =
      unfold put_hintblock in
      bind_return_ok 1 (block_get_valid_hintblock pos header) _ f f1 (read_hint f.contents pos)
        (block_get_valid_hintblock_lem pos header f u.works u.fits (omega arith) u.algorithm)
      ∙ rw hashed (
          return_ok 1 (write_put_and_pad_block pos bytes header.pad_character header.block_size) f1
            put.after tt put.runs);
  same = put.same;
  stored = put.stored;
}
  where
    f1 : File
    f1 = record f { seek = pos }

    new : HintBlock
    new = new_hint_block (read_hint f.contents pos) bp tagged

    hashed :
        crypt_hash_data (encode_hint_block new) header.default_hash_algorithm
        ≡ some (crc32buf (encode_hint_block (record new { hash = 0 })))
    hashed = unfold new_hint_block in crypt_hash_data_of_zero _ _ u.algorithm

    bytes : List ℕ
    bytes =
        encode_hint_block (seal_hint_block (new_hint_block (read_hint f.contents pos) bp tagged))

    put :
        Stores f1 pos
          (bytes ++ replicate (header.block_size - length bytes) header.pad_character)
          (write_put_and_pad_block pos bytes header.pad_character header.block_size)
    put =
        write_put_and_pad_block-Stores pos bytes header.pad_character header.block_size f1 u.works
          u.fits low (omega (arith, length-encode_hint_block, u.smallest))
          (omega (arith, u.largest)) room

-- The memory after a hint block and its backup have been put.
abbrev pub with_hint : Header → ℕ → ℕ → ℕ → Memory → Memory
with_hint header block_position tagged pos m =
    write_bytes m pos (hint_bytes header (read_hint m pos) block_position tagged)

pub write_update_hintblock_lem :
    (block_position tagged pos backup : ℕ) (header : Header) (f : File)
    → IsUsable f header
    → pos < 2 ^ 31
    → backup < 2 ^ 31
    → backup ≢ pos
    → pos + header.block_size < f.size
    → backup + header.block_size < f.size
    → (after : File) × (write_update_hintblock block_position tagged pos backup header f
        ≡ (ok tt, after))
      × SameDevice f after
      × (after.contents
          ≡ with_hint header block_position tagged backup
              (with_hint header block_position tagged pos f.contents))
unfolding write_update_hintblock
write_update_hintblock_lem bp tagged pos backup header f u low low' ne room room' =
    then_backup (put_hintblock-Stores bp tagged pos header f u low room)
  where
    then_backup :
        Stores f pos
          (hint_bytes header (read_hint f.contents pos) bp tagged)
          (put_hintblock bp tagged pos header)
        → (after : File) × (write_update_hintblock bp tagged pos backup header f ≡ (ok tt, after))
          × SameDevice f after
          × (after.contents
              ≡ with_hint header bp tagged backup (with_hint header bp tagged pos f.contents))
    then_backup first = (
      second.after,
      bind_ok (put_hintblock bp tagged pos header) _ f f1 tt first.runs
          ∙ rw other
              (return_ok 1 (put_hintblock bp tagged backup header) f1 second.after tt second.runs),
      SameDevice-trans f f1 second.after first.same second.same,
      second.stored ∙ ap (with_hint header bp tagged backup) first.stored,
    )
      where
        f1 : File
        f1 = first.after

        other : (backup == pos) ≡ false
        other = ground arith

        second :
            Stores f1 backup
              (hint_bytes header (read_hint f1.contents backup) bp tagged)
              (put_hintblock bp tagged backup header)
        second =
            put_hintblock-Stores bp tagged backup header f1 (IsUsable-same f f1 header first.same u)
              low' (rw first.same.0 room')

-- A block as it is stored, with its padding.
abbrev pub block_bytes : Header → BlockHeader → List ℕ → List ℕ
block_bytes header b bytes =
    let whole = encode_block_header (seal_block b bytes) ++ bytes in
    whole ++ replicate (header.block_size - length whole) header.pad_character

pub write_checksum_and_put_block-Stores :
    (b : BlockHeader) (bytes : List ℕ) (header : Header) (pos : ℕ) (f : File)
    → IsUsable f header
    → pos < 2 ^ 31
    → 32 + length bytes ≤ header.block_size
    → pos + header.block_size < f.size
    → Stores f pos (block_bytes header b bytes) (write_checksum_and_put_block b bytes header pos)
write_checksum_and_put_block-Stores b bytes header pos f u low fits room = record {
  after = put.after;
  runs =
      unfold write_checksum_and_put_block in
      let word : pos % 2 ^ 32 ≡ pos = omega arith in
      rw
        (
          crypt_hash_data_of_zero (encode_block_header (record b { hash = 0 }) ++ bytes) _
              u.algorithm,
          write_checksum_and_put_block,
          word,
        )
        (return_ok 1 (write_put_and_pad_block pos whole header.pad_character header.block_size) f
          put.after tt put.runs);
  same = put.same;
  stored = put.stored;
}
  where
    whole : List ℕ
    whole = encode_block_header (seal_block b bytes) ++ bytes

    put :
        Stores f pos
          (whole ++ replicate (header.block_size - length whole) header.pad_character)
          (write_put_and_pad_block pos whole header.pad_character header.block_size)
    put =
        write_put_and_pad_block-Stores pos whole header.pad_character header.block_size f u.works
          u.fits low
          (omega (
            arith,
            length-append (encode_block_header (seal_block b bytes)) bytes,
            length-encode_block_header (seal_block b bytes),
          ))
          (omega (arith, u.largest)) room
