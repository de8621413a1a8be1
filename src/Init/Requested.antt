-- ===== src/Init/Requested.antt =====
-- src/lib/init.c with blocks.c: the master header that is found is the one that was asked for.
use blockdevlogger.Base.{ℕ, ◌+◌, ◌-◌, ◌%◌, ◌≤◌, ◌<◌, ◌≡◌, refl, ◌∙◌, codes, ◌++◌, replicate, arith}
use native.Mathlib.Nat.{mod-lt}
use blockdevlogger.Layout.{Header, encode_header}
use blockdevlogger.Crc32.{crc32buf}
use blockdevlogger.Device.{File, ok, ◌>>◌, SameDevice-Works, bind_ok}
use blockdevlogger.Validate.Laws.{seal_header}
use blockdevlogger.Blocks.{block_get_validate_master_header}
use blockdevlogger.Blocks.Laws.{block_get_validate_master_header_lem}
use blockdevlogger.Init.{new_header, init_dev}
use blockdevlogger.Init.RoundTrip.{IsPossible, IsBlank, whole_blocks, init_dev-IsInitialized}

-- A master header for what was asked for: the text and version of the program, the pad character, the two
-- sizes, as many whole blocks as there is room for behind the header, and the checksum of all this.
pub record IsRequested (header : Header) (blocksize header_pad padchar size : ℕ) : Type 0 where
  pub message : header.header_begin_message ≡ codes "BLOCK DEVICE LOGGER" ++ replicate 13 0
  pub version : header.blocksystem_version ≡ 4
  pub pad_character : header.pad_character ≡ padchar % 256
  pub algorithm : header.default_hash_algorithm ≡ 0
  pub gap : header.gap ≡ 0
  pub block_size : header.block_size ≡ blocksize
  pub header_size : header.header_size ≡ header_pad
  pub whole_blocks : header.total_size % blocksize ≡ 0
  pub inside : header_pad + header.total_size ≤ size
  pub largest : size < header_pad + header.total_size + blocksize
  pub sealed : header.hash ≡ crc32buf (encode_header (record header { hash = 0 }))

made-IsRequested :
    (blocksize header_pad padchar : ℕ) (f : File)
    → IsPossible blocksize header_pad f
    → IsRequested
        (seal_header (new_header blocksize header_pad padchar f.size))
        blocksize
        header_pad
        padchar
        f.size
unfolding new_header
made-IsRequested blocksize header_pad padchar f v =
    let n = f.size - header_pad in
    let rest : n % blocksize < blocksize = mod-lt n (omega (arith, v.smallest)) in
    record {
      message = refl;
      version = refl;
      pad_character = refl;
      algorithm = refl;
      gap = refl;
      block_size = refl;
      header_size = omega (arith, v.low, v.room);
      whole_blocks =
          (whole_blocks n blocksize (omega (arith, v.smallest)) (omega (arith, v.room))).1;
      inside = omega (arith, v.room);
      largest = omega (arith, rest, v.room);
      sealed = refl;
    }

-- A blank device below 2 GiB is initialized with arguments that are no bugs; after that its master
-- header is found valid, and is the one that was asked for: with the text and version of the program,
-- the low 8 bits of the pad character, the block size and the header size that were given, as many whole
-- blocks as fit behind the header, and the checksum of its fields.
pub init_dev-IsRequested :
    (position blocksize header_pad padchar : ℕ) (f : File)
    → IsPossible blocksize header_pad f
    → IsBlank position f
    → (header : Header) × (after : File) × ((init_dev position blocksize header_pad padchar
            >> block_get_validate_master_header)
          f
        ≡ (ok (record { result = 0; header = header }), after))
      × IsRequested header blocksize header_pad padchar f.size
init_dev-IsRequested position blocksize header_pad padchar f v blank =
    let (after, runs, made) =
      init_dev-IsInitialized position blocksize header_pad padchar f v blank in
    (
      seal_header (new_header blocksize header_pad padchar f.size),
      record after { seek = 0 },
      bind_ok (init_dev position blocksize header_pad padchar) _ f after tt runs
          ∙ block_get_validate_master_header_lem
              (seal_header (new_header blocksize header_pad padchar f.size)) 0 after
              (SameDevice-Works f after made.same v.works) (rw made.same.0 (omega (arith, v.low)))
              (rw made.same.0 (omega (arith, v.room, v.smallest_pad, v.smallest))) made.master
              made.accepted,
      made-IsRequested blocksize header_pad padchar f v,
    )
