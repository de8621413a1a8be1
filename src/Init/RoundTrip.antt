-- ===== src/Init/RoundTrip.antt =====
-- src/lib/init.c with validate.c: a device that has been initialized is found valid.
use blockdevlogger.Base.{
  subst, ℕ, ◌+◌, ◌-◌, ◌*◌, ◌/◌, ◌%◌, ◌^◌, ◌≤◌, ◌<◌, ◌≡◌, refl, sym, ap, ◌∙◌, ◌⊎◌, inl, inr, true,
  false, some, List, ◌++◌, ltb, le→ltb, length, length-append, length-replicate, replicate, arith,
}
use native.Mathlib.Nat.{div-add-mod, mod-lt, mul-mod_right, mul-le-mul_right}
use blockdevlogger.Layout.{Header, encode_header, decode_header, FitsHeader}
use blockdevlogger.Layout.RoundTrip.{
  length-encode_header, decode-encode_header, encode_header-IsBytes,
}
use blockdevlogger.Crc32.Reference.{IsBytes, crc32buf-lt}
use blockdevlogger.Crypt.{crypt_hash_data_of_zero}
use blockdevlogger.Device.{
  File, ok, Works, SameDevice, HoldsBytes, write_bytes-HoldsBytes, write_bytes_outside,
  append-IsBytes, replicate-IsBytes, Stores, read_bytes, write_bytes, read-write_front,
  bind_return_ok, return_ok,
}
use blockdevlogger.Io.{io_write_block}
use blockdevlogger.Io.Block.{io_write_block-Stores}
use blockdevlogger.Validate.{validate_header}
use blockdevlogger.Validate.Laws.{IsSound, seal_header, validate_header_iff}
use blockdevlogger.Init.{
  all_zero, check_blank_device, arguments_are_bugs, new_header, put_header, init_dev,
}

-- Arguments that are no bugs, and a device that they fit, of less than 2 GiB.
pub record IsPossible (blocksize header_pad : ℕ) (f : File) : Type 0 where
  pub works : Works f
  pub low : f.size < 2 ^ 31
  pub smallest : 512 ≤ blocksize
  pub largest : blocksize ≤ 8192
  pub divided : blocksize % 256 ≡ 0
  pub smallest_pad : 1024 ≤ header_pad
  pub divided_pad : header_pad % 256 ≡ 0
  pub room : header_pad + blocksize * 2 ≤ f.size

-- The stream gives zeros where it stands.
abbrev pub IsBlank : ℕ → File → Type 0
IsBlank position f =
    (bytes : List ℕ) × (f.host.fread f.contents position 1024 ≡ some bytes)
    × (all_zero bytes ≡ true)

pub whole_blocks :
    (n bs : ℕ) → 1 ≤ bs → bs * 2 ≤ n → (bs * 2 ≤ n - n % bs) × ((n - n % bs) % bs ≡ 0)
whole_blocks n bs h two = (
  elim (le-or-lt (n / bs)) [
    | inl le ↦
        let few : n / bs * bs ≤ 1 * bs = mul-le-mul_right bs le in
        omega (arith, div-add-mod n bs, mod-lt n h)
    | inr gt ↦
        let many : 2 * bs ≤ n / bs * bs = mul-le-mul_right bs gt in
        omega (arith, div-add-mod n bs, mod-lt n h)
  ],
  ap (λ x. x % bs) product ∙ mul-mod_right bs (n / bs),
)
  where
    le-or-lt : (q : ℕ) → (q ≤ 1) ⊎ (2 ≤ q)
    le-or-lt q = ground arith

    product : n - n % bs ≡ bs * (n / bs)
    product = omega (arith, div-add-mod n bs)

module _ (blocksize header_pad padchar : ℕ) (f : File) (v : IsPossible blocksize header_pad f) where
  made : Header
  made = seal_header (new_header blocksize header_pad padchar f.size)

  made-Fits : FitsHeader made
  unfolding made new_header
  made-Fits = record {
    message = refl;
    version = omega arith;
    pad_character = omega arith;
    algorithm = omega arith;
    gap = omega arith;
    block_size = omega (arith, v.largest);
    total_size = omega (arith, v.low);
    header_size = omega (arith, v.low, v.room);
    hash = crc32buf-lt _;
  }

  made-IsSound : IsSound made f.size
  unfolding made new_header
  made-IsSound =
      let total =
        whole_blocks (f.size - header_pad) blocksize (omega (arith, v.smallest))
          (omega (arith, v.room)) in
      record {
        two_blocks = total.0;
        inside = omega arith;
        whole_blocks = total.1;
        version = refl;
        smallest = v.smallest;
        largest = v.largest;
        divided = v.divided;
      }

  accepted : validate_header made f.size ≡ some 0
  unfolding made new_header
  accepted = (validate_header_iff made f.size (crc32buf-lt _) refl v.low).1 (refl, made-IsSound)

  padding : List ℕ
  padding =
      replicate (header_pad - 64) (new_header blocksize header_pad padchar f.size).pad_character

  length-made : length (encode_header made) ≡ 64
  length-made = length-encode_header made made-Fits

  length-padding : length padding ≡ header_pad - 64
  unfolding padding
  length-padding = length-replicate (header_pad - 64) _

  put_header-Stores :
      Stores f 0
        (encode_header made ++ padding)
        (put_header (new_header blocksize header_pad padchar f.size) header_pad)
  unfolding padding made new_header put_header
  put_header-Stores =
      let put : Stores f 0 (encode_header made ++ padding)
          (io_write_block 0 (encode_header made) padding) =
        io_write_block-Stores 0 (encode_header made) padding f v.works (omega (arith, v.low))
          (omega (arith, length-made, length-padding, v.room, v.smallest, v.smallest_pad))
          (omega (arith, length-made)) (omega (arith, length-padding, v.room, v.low)) in
      record {
        after = put.after;
        runs =
            rw
              (
                put_header,
                crypt_hash_data_of_zero
                    (encode_header (new_header blocksize header_pad padchar f.size)) 0 refl,
              )
              (return_ok 1 (io_write_block 0 (encode_header made) padding) f put.after tt put.runs);
        same = put.same;
        stored = put.stored;
      }

  check_blank_device_lem :
      (position : ℕ) → IsBlank position f → check_blank_device position f ≡ (ok tt, f)
  unfolding check_blank_device
  check_blank_device_lem position (bytes, gives, zeros) = rw (check_blank_device, gives, zeros) refl

  init_dev_lem :
      (position : ℕ)
      → IsBlank position f
      → init_dev position blocksize header_pad padchar f
        ≡ put_header (new_header blocksize header_pad padchar f.size) header_pad f
  unfolding init_dev arguments_are_bugs
  init_dev_lem position (bytes, gives, zeros) =
      let enough : ltb f.size (header_pad + blocksize * 2) ≡ false = le→ltb _ _ v.room in
      rw
        (
          le→ltb header_pad 1024 v.smallest_pad,
          v.divided_pad,
          le→ltb 8192 blocksize v.largest,
          le→ltb blocksize 512 v.smallest,
          v.divided,
        )
        (bind_return_ok 1 (check_blank_device position) _ f f tt
            (check_blank_device_lem position (bytes, gives, zeros))
          ∙ rw enough refl)

new_header-IsBytes : (b h p n : ℕ) → IsBytes (new_header b h p n).header_begin_message
unfolding new_header
new_header-IsBytes b h p n = omega arith

pub new_header_pad : (b h p n : ℕ) → (new_header b h p n).pad_character < 256
unfolding new_header
new_header_pad b h p n = omega arith

-- What the initialization leaves: a valid master header, and no change behind its padding.
pub record IsInitialized (header : Header) (header_pad : ℕ) (f after : File) : Type 0 where
  pub same : SameDevice f after
  pub master : decode_header (read_bytes after.contents 0 64) ≡ header
  pub accepted : validate_header header after.size ≡ some 0
  pub bytes : HoldsBytes f.contents → HoldsBytes after.contents
  pub frame : (a : ℕ) → header_pad ≤ a → after.contents a ≡ f.contents a

pub init_dev-IsInitialized :
    (position blocksize header_pad padchar : ℕ) (f : File)
    → IsPossible blocksize header_pad f
    → IsBlank position f
    → (after : File) × (init_dev position blocksize header_pad padchar f ≡ (ok tt, after))
      × IsInitialized
          (seal_header (new_header blocksize header_pad padchar f.size))
          header_pad
          f
          after
unfolding made padding
init_dev-IsInitialized position blocksize header_pad padchar f v blank =
    let m : Header = made blocksize header_pad padchar f v in
    let pads = padding blocksize header_pad padchar f v in
    let put = put_header-Stores blocksize header_pad padchar f v in
    let after : File = put.after in
    let found : read_bytes after.contents 0 64 ≡ encode_header m =
      ap (λ x. read_bytes x 0 64) put.stored
      ∙ ap (read_bytes (write_bytes f.contents 0 (encode_header m ++ pads)) 0)
          (sym (length-made blocksize header_pad padchar f v))
      ∙ read-write_front f.contents 0 (encode_header m) pads in
    (
      after,
      init_dev_lem blocksize header_pad padchar f v position blank ∙ put.runs,
      record {
        same = put.same;
        master =
            ap decode_header found
            ∙ decode-encode_header m (made-Fits blocksize header_pad padchar f v);
        accepted = rw put.same.0 (accepted blocksize header_pad padchar f v);
        bytes = λ holds. subst HoldsBytes (sym put.stored) (
            write_bytes-HoldsBytes f.contents 0 (encode_header m ++ pads) holds (
              append-IsBytes (encode_header m) pads
                (encode_header-IsBytes m (new_header-IsBytes blocksize header_pad padchar f.size))
                (replicate-IsBytes _ _ (new_header_pad blocksize header_pad padchar f.size))));
        frame = λ a behind.
            ap (λ x. x a) put.stored
            ∙ write_bytes_outside f.contents 0 (encode_header m ++ pads) a (
                inr (
                  omega (
                    arith,
                    length-append (encode_header m) pads,
                    length-made blocksize header_pad padchar f v,
                    length-padding blocksize header_pad padchar f v,
                    v.smallest_pad,
                    behind,
                  )));
      },
    )
