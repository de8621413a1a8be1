-- ===== src/Io/Block.antt =====
-- Reads and writes of whole blocks: what they return and store, and their bounds.
use blockdevlogger.Base.{
  ℕ, ◌+◌, ◌≤◌, ◌<◌, ◌^◌, ◌%◌, ◌≡◌, refl, sym, subst, ap, ◌∙◌, inl, inr, some, Option-cases, List,
  ◌++◌, lt→leb, Bool-cases, leb, leb→lt, leb→le, length, take_all, add64, arith,
}
use blockdevlogger.Device.{
  File, Ret, ok, err, read_bytes, write_bytes, write-write, Works, SameDevice, SameDevice-Works,
  SameDevice-trans, bind_return_ok, return_ok, Stores,
}
use blockdevlogger.Io.{
  io_seek, io_read, io_write, put_bytes, io_sync, note_write, io_read_block, io_write_block,
}

-- `size` fits its type, as the sums of the bounds checks need.
abbrev pub FitsSize : File → Type 0
FitsSize f = f.size < 2 ^ 63

io_seek_lem :
    (pos : ℕ) (f : File) → Works f → pos < f.size → io_seek pos f ≡ (ok tt, record f { seek = pos })
unfolding io_seek
io_seek_lem pos f (inl (base, e)) h = ground arith
io_seek_lem pos f (inr r) h = ground (arith, r.fseek_lem pos)

io_read_lem :
    (n : ℕ) (f : File)
    → Works f
    → FitsSize f
    → f.seek + n < f.size
    → n < 2 ^ 32
    → io_read n f ≡ (ok (read_bytes f.contents f.seek n), f)
unfolding io_read
io_read_lem n f (inl (base, e)) v h k =
    let word : n % 2 ^ 32 ≡ n = omega arith in
    rw (word, lt→leb f.size (add64 f.seek n) (omega arith)) (ground arith)
io_read_lem n f (inr r) v h k =
    let word : n % 2 ^ 32 ≡ n = omega arith in
    rw (word, lt→leb f.size (add64 f.seek n) (omega arith))
      (ground (arith, r.fread_lem f.contents f.seek n))

note_write_keeps :
    (start written : ℕ) (f : File)
    → SameDevice f (note_write start written f)
      × ((note_write start written f).contents ≡ f.contents)
unfolding note_write io_sync
note_write_keeps start written f = ground arith

put_bytes_mapped :
    (bytes : List ℕ) (f : File) (base : ℕ)
    → f.memorymap ≡ some base
    → Stores f f.seek bytes (put_bytes bytes)
put_bytes_mapped bytes f base e = record {
  after = after;
  runs = unfold put_bytes in ground arith;
  same = (note_write_keeps (base + f.seek) (length bytes) written).0;
  stored = (note_write_keeps (base + f.seek) (length bytes) written).1;
}
  where
    written : File
    written = record f { contents = write_bytes f.contents f.seek bytes }

    after : File
    after = note_write (base + f.seek) (length bytes) written

put_bytes-Stores : (bytes : List ℕ) (f : File) → Works f → Stores f f.seek bytes (put_bytes bytes)
put_bytes-Stores bytes f (inl (base, e)) = put_bytes_mapped bytes f base e
put_bytes-Stores bytes f (inr r) = elim (Option-cases f.memorymap) [
  | inl e ↦ record {
    after = record f { contents = write_bytes f.contents f.seek bytes };
    runs = unfold put_bytes in ground (arith, r.fwrite_lem f.contents f.seek bytes);
    same = (refl, refl, refl);
    stored = refl;
  }
  | inr (base, e) ↦ put_bytes_mapped bytes f base e
]

io_write-Stores :
    (source : List ℕ) (f : File)
    → Works f
    → FitsSize f
    → f.seek + length source < f.size
    → length source < 2 ^ 32
    → Stores f f.seek source (io_write source)
io_write-Stores source f w v h k = record {
  after = put.after;
  runs = enters ∙ put.runs;
  same = put.same;
  stored = put.stored;
}
  where
    put : Stores f f.seek source (put_bytes source)
    put = put_bytes-Stores source f w

    enters : io_write source f ≡ put_bytes source f
    enters =
        unfold io_write in
        let word : length source % 2 ^ 32 ≡ length source = omega arith in
        rw
          (
            word,
            lt→leb f.size (add64 f.seek (length source)) (omega arith),
            take_all source (length source) (omega arith),
          )
          refl

-- A read inside the device and short of its last byte.
pub io_read_block_lem :
    (pos n : ℕ) (f : File)
    → Works f
    → FitsSize f
    → pos + n < f.size
    → n < 2 ^ 32
    → io_read_block pos n f ≡ (ok (read_bytes f.contents pos n), record f { seek = pos })
unfolding io_read_block
io_read_block_lem pos n f w v h k =
    bind_return_ok 1 (io_seek pos) _ f (record f { seek = pos }) tt
      (io_seek_lem pos f w (omega arith))
    ∙ return_ok 1 (io_read n) (record f { seek = pos }) _ _
        (io_read_lem n (record f { seek = pos }) w v h k)

-- What a read of `n` bytes at `pos` comes to.
pub data ReadsOrRefuses (pos n : ℕ) (f : File) : Ret (List ℕ) × File → Type 0 where
  reads :
      pos + n < f.size
      → ReadsOrRefuses pos n f (ok (read_bytes f.contents pos n), record f { seek = pos })
  refuses_place : f.size ≤ pos → ReadsOrRefuses pos n f (err 1, f)
  refuses_length :
      pos < f.size → f.size ≤ pos + n → ReadsOrRefuses pos n f (err 1, record f { seek = pos })

-- On a device that works, of less than 2^63 bytes, a read of less than 2^32 bytes from below 2^63: if it
-- ends short of the last byte, it returns the bytes there and moves the position; if it ends at the last
-- byte or behind it, it fails with status 1, and moves the position only where that is on the device.
-- No byte is changed and nothing is synced.
pub io_read_block-ReadsOrRefuses :
    (pos n : ℕ) (f : File)
    → Works f
    → FitsSize f
    → pos < 2 ^ 63
    → n < 2 ^ 32
    → ReadsOrRefuses pos n f (io_read_block pos n f)
unfolding io_read_block io_seek io_read
io_read_block-ReadsOrRefuses pos n f w v p k = elim (Bool-cases (leb f.size (pos + n))) [
  | inr short ↦
      let inside : pos + n < f.size = leb→lt f.size (pos + n) short in
      subst (ReadsOrRefuses pos n f) (sym (io_read_block_lem pos n f w v inside k)) (reads inside)
  | inl long ↦ elim (Bool-cases (leb f.size pos)) [
    | inl behind ↦ rw (io_read_block, io_seek, behind) (refuses_place (leb→le f.size pos behind))
    | inr before ↦
        let word : n % 2 ^ 32 ≡ n = omega arith in
        let sum : (pos + n) % 2 ^ 64 ≡ pos + n = omega arith in
        let on : pos < f.size = leb→lt f.size pos before in
        subst (ReadsOrRefuses pos n f)
          (sym (
            bind_return_ok 1 (io_seek pos) _ f (record f { seek = pos }) tt (io_seek_lem pos f w on)
            ∙ rw (word, sum, long) refl))
          (refuses_length on (leb→le f.size (pos + n) long))
  ]
]

-- On a device that works, of less than 2^63 bytes, a write inside the device and short of its last
-- byte, of data and padding of less than 2^32 bytes each, succeeds and stores the data with the
-- padding behind it, and nothing else.
pub io_write_block-Stores :
    (pos : ℕ) (source padding : List ℕ) (f : File)
    → Works f
    → FitsSize f
    → pos + length source + length padding < f.size
    → length source < 2 ^ 32
    → length padding < 2 ^ 32
    → Stores f pos (source ++ padding) (io_write_block pos source padding)
io_write_block-Stores pos source padding f w v h k l =
    after_data (io_write-Stores source f1 w v (omega arith) k)
  where
    f1 : File
    f1 = record f { seek = pos }

    after_data :
        Stores f1 pos source (io_write source)
        → Stores f pos (source ++ padding) (io_write_block pos source padding)
    after_data first = after_padding (io_write-Stores padding f3 works fits room l)
      where
        f2 : File
        f2 = first.after

        f3 : File
        f3 = record f2 { seek = pos + length source }

        works : Works f3
        works = SameDevice-Works f f3 first.same w

        fits : f2.size < 2 ^ 63
        fits = rw first.same.0 v

        room : pos + length source + length padding < f2.size
        room = rw first.same.0 h

        seeks : io_seek (add64 pos (length source)) f2 ≡ (ok tt, f3)
        seeks =
            let e : (pos + length source) % 2 ^ 64 ≡ pos + length source = omega arith in
            rw e (io_seek_lem (pos + length source) f2 works (omega arith))

        after_padding :
            Stores f3 (pos + length source) padding (io_write padding)
            → Stores f pos (source ++ padding) (io_write_block pos source padding)
        after_padding second = record {
          after = second.after;
          runs =
              unfold io_write_block in
              bind_return_ok 1 (io_seek pos) _ f f1 tt (io_seek_lem pos f w (omega arith))
              ∙ bind_return_ok 1 (io_write source) _ f1 f2 tt first.runs
              ∙ bind_return_ok 1 (io_seek (add64 pos (length source))) _ f2 f3 tt seeks
              ∙ return_ok 1 (io_write padding) f3 second.after tt second.runs;
          same = SameDevice-trans f f2 second.after first.same second.same;
          stored =
              second.stored
              ∙ ap (λ m. write_bytes m (pos + length source) padding) first.stored
              ∙ write-write f.contents pos source padding;
        }
