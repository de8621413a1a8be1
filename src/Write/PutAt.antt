-- ===== src/Write/PutAt.antt =====
-- src/lib/write.c: what the write proper leaves on the device.
use blockdevlogger.Base.{ℕ, ◌+◌, ◌≤◌, ◌<◌, ◌^◌, ◌≡◌, sym, subst, ap, ◌∙◌, ◌⊎◌, List, length, arith}
use blockdevlogger.Layout.{Header, BlockHeader, HintBlock, decode_hint_block, FitsBlockHeader}
use blockdevlogger.Crc32.Reference.{IsBytes}
use blockdevlogger.Device.{
  File, Memory, ok, SameDevice, SameDevice-trans, HoldsBytes, Stores, read_bytes, write_bytes,
  write_bytes_outside, read-write_disjoint, write_bytes-HoldsBytes, bind_return_ok, return_ok,
}
use blockdevlogger.Validate.Laws.{hint_result}
use blockdevlogger.Blocks.{BlockLocation}
use blockdevlogger.Blocks.Laws.{hint_at, read_hint, read_block_at}
use blockdevlogger.Put.{new_hint_block, write_checksum_and_put_block, write_update_hintblock}
use blockdevlogger.Put.Laws.{
  IsUsable, IsUsable-same, block_bytes, hint_bytes, with_hint, write_update_hintblock_lem,
  write_checksum_and_put_block-Stores,
}
use blockdevlogger.Put.ReadBack.{
  length-hint_bytes, new_hint_block_pad, new_hint_block_last, hint_at-with_hint,
  with_hint-HoldsBytes, hint_result-seal_hint_block,
}
use blockdevlogger.Put.Block.{
  length-block_bytes, block_bytes-IsBytes, IsStored, read_block-IsStored, read-write_block,
}
use blockdevlogger.Write.{put_at}

-- Two ranges of one block each have no byte in common.
abbrev pub IsApart : ℕ → ℕ → ℕ → Type 0
IsApart n p q = (p + n ≤ q) ⊎ (q + n ≤ p)

-- The block, its hint block and the backup lie on the device, apart from each other.
pub record IsPlaced (header : Header) (f : File) (p h k : ℕ) : Type 0 where
  pub low : p < 2 ^ 31
  pub low_hint : h < 2 ^ 31
  pub low_backup : k < 2 ^ 31
  pub room : p + header.block_size < f.size
  pub room_hint : h + header.block_size < f.size
  pub room_backup : k + header.block_size < f.size
  pub block_hint : IsApart header.block_size p h
  pub block_backup : IsApart header.block_size p k
  pub hint_backup : IsApart header.block_size h k

-- A data block and its header that go into one block.
pub record IsBlock (header : Header) (b : BlockHeader) (bytes : List ℕ) : Type 0 where
  pub pad_byte : header.pad_character < 256
  pub fits : FitsBlockHeader b
  pub declared : b.data_length ≡ length bytes
  pub short : 32 + length bytes ≤ header.block_size
  pub is_bytes : IsBytes bytes

-- The hint block at `pos` is valid and names the block at `p` as the last one.
abbrev pub Names : Memory → ℕ → ℕ → Type 0
Names m pos p = (hint_result (hint_at m pos) ≡ 0) × ((hint_at m pos).previous_block_pos ≡ p)

-- What the write leaves: the block is valid and as it was given, both hint blocks name it, and no
-- byte outside of the three places is changed.
pub record Put (header : Header) (b : BlockHeader) (bytes : List ℕ) (p h k : ℕ) (m m' : Memory)
    : Type 0 where
  pub block : IsStored b bytes (read_block_at m' p header)
  pub hint : Names m' h p
  pub backup : Names m' k p
  pub bytes_kept : HoldsBytes m'
  pub frame :
      (a : ℕ)
      → (a < p) ⊎ (p + header.block_size ≤ a)
      → (a < h) ⊎ (h + header.block_size ≤ a)
      → (a < k) ⊎ (k + header.block_size ≤ a)
      → m' a ≡ m a

module _ (header : Header) (smallest : 512 ≤ header.block_size)
    (pad_byte : header.pad_character < 256) where
  with_hint_outside :
      (m : Memory) (p t pos a : ℕ)
      → (a < pos) ⊎ (pos + header.block_size ≤ a)
      → with_hint header p t pos m a ≡ m a
  with_hint_outside m p t pos a h =
      write_bytes_outside m pos (hint_bytes header (read_hint m pos) p t) a (
        grind (
          arith,
          length-hint_bytes header (omega (arith, smallest)) pad_byte (read_hint m pos) p t,
        ))

  read-with_hint_apart :
      (m : Memory) (p t pos q n : ℕ)
      → n ≤ header.block_size
      → IsApart header.block_size q pos
      → read_bytes (with_hint header p t pos m) q n ≡ read_bytes m q n
  read-with_hint_apart m p t pos q n le apart =
      read-write_disjoint m pos (hint_bytes header (read_hint m pos) p t) q n (
        grind (
          arith,
          length-hint_bytes header (omega (arith, smallest)) pad_byte (read_hint m pos) p t,
        ))

  with_hint-Names :
      (m : Memory) (p pos : ℕ)
      → HoldsBytes m
      → p < 2 ^ 31
      → Names (with_hint header p 0 pos m) pos p
  with_hint-Names m p pos holds low =
      let e =
        hint_at-with_hint header (omega (arith, smallest)) pad_byte m p 0 pos holds (omega arith)
          (omega arith) in
      (
        ap hint_result e
            ∙ hint_result-seal_hint_block header (omega (arith, smallest)) pad_byte
                (new_hint_block (read_hint m pos) p 0)
                (new_hint_block_pad header (omega (arith, smallest)) pad_byte m pos p 0),
        ap (λ (x : HintBlock). x.previous_block_pos) e
            ∙ new_hint_block_last header (omega (arith, smallest)) pad_byte (read_hint m pos) p 0,
      )

module _ (header : Header) (b : BlockHeader) (bytes : List ℕ) (f : File) (u : IsUsable f header)
    (v : IsBlock header b bytes) (holds : HoldsBytes f.contents) (p h k : ℕ)
    (placed : IsPlaced header f p h k) where
  m1 : Memory
  m1 = write_bytes f.contents p (block_bytes header b bytes)

  m2 : Memory
  m2 = with_hint header p 0 h m1

  m3 : Memory
  m3 = with_hint header p 0 k m2

  length-stored : length (block_bytes header b bytes) ≡ header.block_size
  length-stored =
      length-block_bytes header v.pad_byte b bytes v.fits v.declared v.short
        (omega (arith, u.largest)) u.algorithm

  m1-HoldsBytes : HoldsBytes m1
  unfolding m1
  m1-HoldsBytes = write_bytes-HoldsBytes f.contents p _ holds (
      block_bytes-IsBytes header v.pad_byte b bytes v.fits v.declared v.short
        (omega (arith, u.largest)) u.algorithm v.is_bytes)

  m2-HoldsBytes : HoldsBytes m2
  unfolding m2
  m2-HoldsBytes =
      with_hint-HoldsBytes header (omega (arith, u.smallest)) v.pad_byte m1 p 0 h m1-HoldsBytes

  block_kept : read_bytes m3 p header.block_size ≡ block_bytes header b bytes
  unfolding m3 m2 m1
  block_kept =
      read-with_hint_apart header u.smallest v.pad_byte m2 p 0 k p header.block_size (omega arith)
        placed.block_backup
      ∙ read-with_hint_apart header u.smallest v.pad_byte m1 p 0 h p header.block_size (omega arith)
          placed.block_hint
      ∙ read-write_block header v.pad_byte b bytes v.fits v.declared v.short
          (omega (arith, u.largest)) u.algorithm f.contents p

  hint_kept : hint_at m3 h ≡ hint_at m2 h
  unfolding m3
  hint_kept = ap decode_hint_block (
      read-with_hint_apart header u.smallest v.pad_byte m2 p 0 k h 24 (omega (arith, u.smallest))
        placed.hint_backup)

  hint-Names : Names m2 h p
  unfolding m2
  hint-Names = with_hint-Names header u.smallest v.pad_byte m1 p h m1-HoldsBytes placed.low

  put : Put header b bytes p h k f.contents m3
  unfolding m3 m2 m1
  put = record {
    block =
        read_block-IsStored header v.pad_byte b bytes v.fits v.declared v.short
          (omega (arith, u.largest)) u.algorithm m3 p block_kept;
    hint =
        subst (λ (x : HintBlock). (hint_result x ≡ 0) × (x.previous_block_pos ≡ p)) (sym hint_kept)
          hint-Names;
    backup = with_hint-Names header u.smallest v.pad_byte m2 p k m2-HoldsBytes placed.low;
    bytes_kept =
        with_hint-HoldsBytes header (omega (arith, u.smallest)) v.pad_byte m2 p 0 k m2-HoldsBytes;
    frame = λ a out out_h out_k.
        with_hint_outside header u.smallest v.pad_byte m2 p 0 k a out_k
        ∙ with_hint_outside header u.smallest v.pad_byte m1 p 0 h a out_h
        ∙ write_bytes_outside f.contents p (block_bytes header b bytes) a
            (grind (arith, length-stored));
  }

-- On a usable device, for a block that fits and places that are apart and lie below 2^31 on the device, the write
-- succeeds; the block is then read back as valid and as it was given, its hint block and the backup
-- are valid and name it as the last one, and no byte outside the three places is changed.
pub put_at-Put :
    (header : Header) (location : BlockLocation) (b : BlockHeader) (bytes : List ℕ) (f : File)
    → IsUsable f header
    → IsBlock header b bytes
    → HoldsBytes f.contents
    → IsPlaced header f location.block_location location.hintblock_state.location
        location.hintblock_state.backup_location
    → (after : File) × (put_at header location b bytes f ≡ (ok tt, after))
      × SameDevice f after
      × Put header b bytes location.block_location location.hintblock_state.location
          location.hintblock_state.backup_location f.contents after.contents
unfolding put_at m3 m2 m1
put_at-Put header location b bytes f u v holds placed =
    then_hint
      (write_checksum_and_put_block-Stores b bytes header p f u placed.low v.short placed.room)
  where
    p : ℕ
    p = location.block_location

    h : ℕ
    h = location.hintblock_state.location

    k : ℕ
    k = location.hintblock_state.backup_location

    then_hint :
        Stores f p (block_bytes header b bytes) (write_checksum_and_put_block b bytes header p)
        → (after : File) × (put_at header location b bytes f ≡ (ok tt, after))
          × SameDevice f after
          × Put header b bytes p h k f.contents after.contents
    then_hint first = (
      second.0,
      bind_return_ok 1 (write_checksum_and_put_block b bytes header p) _ f first.after tt first.runs
          ∙ return_ok 1 (write_update_hintblock p 0 h k header) first.after second.0 tt second.1,
      SameDevice-trans f first.after second.0 first.same second.2,
      subst (Put header b bytes p h k f.contents)
          (ap (λ m. with_hint header p 0 k (with_hint header p 0 h m)) (sym first.stored)
            ∙ sym second.3)
          (put header b bytes f u v holds p h k placed),
    )
      where
        second :
            (after : File) × (write_update_hintblock p 0 h k header first.after ≡ (ok tt, after))
            × SameDevice first.after after
            × (after.contents
                ≡ with_hint header p 0 k (with_hint header p 0 h (first.after).contents))
        second =
            write_update_hintblock_lem p 0 h k header first.after
              (IsUsable-same f first.after header first.same u) placed.low_hint placed.low_backup
              (grind (arith, placed.hint_backup, u.smallest)) (rw first.same.0 placed.room_hint)
              (rw first.same.0 placed.room_backup)
