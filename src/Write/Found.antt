-- ===== src/Write/Found.antt =====
-- src/lib/write.c with blocks.c: a hint block after a write names the block, with its timestamp.
use blockdevlogger.Base.{ℕ, ◌+◌, ◌≤◌, ◌<◌, ◌≡◌, ◌∙◌, refl, sym, subst, ap, true, List, arith}
use blockdevlogger.Layout.{Header, BlockHeader}
use blockdevlogger.Device.{
  File, Memory, ok, ◌>>=◌, SameDevice, SameDevice-Works, HoldsBytes, bind_ok,
}
use blockdevlogger.Blocks.{BlockLocation, HintblockState}
use blockdevlogger.Blocks.Laws.{hint_at, read_block_at}
use blockdevlogger.Put.Block.{IsStored}
use blockdevlogger.Put.Laws.{IsUsable}
use blockdevlogger.Hint.{block_get_hintblock_state}
use blockdevlogger.Hint.Laws.{IsReadable, intact_state, block_get_hintblock_state_lem}
use blockdevlogger.Write.{put_at}
use blockdevlogger.Write.PutAt.{IsBlock, IsPlaced, Put, put_at-Put}

-- A state that names a block at `p` of the timestamp `t` as the last one of the region of `h`.
pub record IsNewest (state : HintblockState) (h p t : ℕ) : Type 0 where
  pub valid : state.valid ≡ true
  pub location : state.location ≡ h
  pub last : state.hintblock.previous_block_pos ≡ p
  pub highest : state.highest_timestamp ≡ t

intact_state-IsNewest :
    (header : Header) (b : BlockHeader) (bytes : List ℕ) (p h k lo hi : ℕ) (m m' : Memory)
    → Put header b bytes p h k m m'
    → IsNewest (intact_state m' header h lo hi) h p b.timestamp
intact_state-IsNewest header b bytes p h k lo hi m m' put =
    let named : IsStored b bytes (read_block_at m' (hint_at m' h).previous_block_pos header) =
      subst (λ q. IsStored b bytes (read_block_at m' q header)) (sym put.hint.1) put.block in
    rw named.0 (record {
      valid = refl;
      location = refl;
      last = put.hint.1;
      highest = ap (λ (x : BlockHeader). x.timestamp) named.1;
    })

IsUsable-IsReadable :
    (f f' : File) (header : Header) → SameDevice f f' → IsUsable f header → IsReadable f' header
IsUsable-IsReadable f f' header s u = record {
  works = SameDevice-Works f f' s u.works;
  fits = rw s.0 u.fits;
  algorithm = u.algorithm;
  narrow = omega (arith, u.largest);
}

-- On a usable device, after the write of a block that fits, at places that are apart, into the region
-- from `lo` to `hi`, the hint block is found valid, names the new block as the last one, and has the
-- timestamp of that block as the highest one.
pub put_at-IsNewest :
    (header : Header) (location : BlockLocation) (b : BlockHeader) (bytes : List ℕ) (lo hi : ℕ)
    (f : File)
    → IsUsable f header
    → IsBlock header b bytes
    → HoldsBytes f.contents
    → IsPlaced header f location.block_location location.hintblock_state.location
        location.hintblock_state.backup_location
    → lo ≤ location.block_location
    → location.block_location ≤ hi
    → hi + header.block_size < f.size
    → (state : HintblockState) × (after : File) × ((put_at header location b bytes >>= λ _.
            block_get_hintblock_state location.hintblock_state.location header lo hi)
          f
        ≡ (ok state, after))
      × IsNewest state location.hintblock_state.location location.block_location b.timestamp
put_at-IsNewest header location b bytes lo hi f u v holds placed low high room =
    then_found (put_at-Put header location b bytes f u v holds placed)
  where
    p : ℕ
    p = location.block_location

    h : ℕ
    h = location.hintblock_state.location

    k : ℕ
    k = location.hintblock_state.backup_location

    then_found :
        (after : File) × (put_at header location b bytes f ≡ (ok tt, after))
          × SameDevice f after
          × Put header b bytes p h k f.contents after.contents
        → (state : HintblockState) × (after : File) × ((put_at header location b bytes >>= λ _.
                block_get_hintblock_state h header lo hi)
              f
            ≡ (ok state, after))
          × IsNewest state h p b.timestamp
    then_found (after, runs, same, put) = (
      intact_state after.contents header h lo hi,
      record after { seek = (hint_at after.contents h).previous_block_pos },
      bind_ok (put_at header location b bytes) _ f after tt runs
          ∙ block_get_hintblock_state_lem h lo hi header after
              (IsUsable-IsReadable f after header same u)
              (record { valid = put.hint.0; low = rw put.hint.1 low; high = rw put.hint.1 high })
              (rw same.0 (omega (arith, placed.room_hint, u.smallest))) (rw same.0 room),
      intact_state-IsNewest header b bytes p h k lo hi f.contents after.contents put,
    )
