-- ===== src/Write/Stamp.antt =====
-- src/lib/write.c: the timestamp of a new block, the checks before the write, and both with it.
use blockdevlogger.Base.{
  ℕ, ◌+◌, ◌-◌, ◌^◌, ◌≤◌, ◌<◌, ◌≡◌, refl, ◌∙◌, ◌⊎◌, inl, inr, false, Bool-cases, ltb, leb, leb→le,
  leb→lt, ltb→lt, ltb→le, le→ltb, ◌==◌, ==_iff, if◌then◌else◌, add64, sub64, List, length, arith,
}
use blockdevlogger.Layout.{Header, BlockHeader}
use blockdevlogger.Device.{File, ok, err, SameDevice, HoldsBytes, bind_ok}
use blockdevlogger.Crc32.Reference.{IsBytes}
use blockdevlogger.Blocks.{BlockLocation}
use blockdevlogger.Put.Laws.{IsUsable}
use blockdevlogger.Write.{choose_timestamp, check_put, put_found, new_block_header}
use blockdevlogger.Write.PutAt.{IsBlock, IsPlaced, Put, put_at-Put}

-- The timestamp that is asked for.
abbrev pub wanted : ℕ → ℕ → ℕ
wanted now timestamp = if timestamp == 0 then now else timestamp

-- A timestamp for a new block behind one of the timestamp `highest`: newer, and the one asked for
-- unless that is too old by no more than `faketimestamp`.
pub record IsStamp (asked highest faketimestamp t : ℕ) : Type 0 where
  pub newer : highest < t
  pub near : (t ≡ asked) ⊎ (t ≡ highest + 1) × (asked ≤ highest) × (highest ≤ asked + faketimestamp)

-- A timestamp that cannot be given: too old, and not near enough.
abbrev pub IsTooOld : ℕ → ℕ → ℕ → Type 0
IsTooOld asked highest faketimestamp =
    (asked ≤ highest) × ((faketimestamp ≡ 0) ⊎ (asked + faketimestamp < highest))

-- The refusal of such a timestamp, by its status: 1 (BDL_WRITE_ERR) where no `faketimestamp` is given, and 2
-- (BDL_WRITE_ERR_TIMESTAMP) only where one is given that does not reach.
abbrev pub IsRefusal : ℕ → ℕ → ℕ → ℕ → Type 0
IsRefusal c asked highest faketimestamp =
    (asked ≤ highest)
    × ((c ≡ 1) × (faketimestamp ≡ 0)
        ⊎ (c ≡ 2) × (1 ≤ faketimestamp) × (asked + faketimestamp < highest))

IsRefusal-IsTooOld :
    (c asked highest fake : ℕ) → IsRefusal c asked highest fake → IsTooOld asked highest fake
IsRefusal-IsTooOld c asked highest fake (old, inl (status, none)) = (old, inl none)
IsRefusal-IsTooOld c asked highest fake (old, inr (status, some, far)) = (old, inr far)

pub choose_timestamp-IsStamp :
    (now highest timestamp faketimestamp : ℕ) (f : File)
    → highest + 1 < 2 ^ 64
    → ((t : ℕ) × (choose_timestamp now highest timestamp faketimestamp f ≡ (ok t, f))
        × IsStamp (wanted now timestamp) highest faketimestamp t)
      ⊎ ((c : ℕ) × (choose_timestamp now highest timestamp faketimestamp f ≡ (err c, f))
          × IsRefusal c (wanted now timestamp) highest faketimestamp)
unfolding choose_timestamp
choose_timestamp-IsStamp now highest timestamp fake f h = elim (Bool-cases (leb w highest)) [
  | inr newer ↦ inl (w, rw newer refl, record { newer = leb→lt w highest newer; near = inl refl })
  | inl old ↦ elim (Bool-cases (fake == 0)) [
    | inl none ↦
        inr (1, rw (old, none) refl, (leb→le w highest old, inl (refl, (==_iff fake 0).0 none)))
    | inr some ↦ elim (Bool-cases (ltb fake (highest - w))) [
      | inl far ↦ inr (
        2,
        rw (old, some, far) refl,
        (
          leb→le w highest old,
          inr (refl, ground (arith, some), omega (arith, ltb→lt fake (highest - w) far)),
        ),
      )
      | inr near ↦
          let fits : add64 highest 1 ≡ highest + 1 = omega arith in
          inl (
            highest + 1,
            rw (old, some, near, fits) refl,
            record {
              newer = omega arith;
              near = inr (
                refl,
                leb→le w highest old,
                omega (arith, ltb→le fake (highest - w) near, leb→le w highest old),
              );
            },
          )
    ]
  ]
]
  where
    w : ℕ
    w = wanted now timestamp

-- The places lie behind the master header.
abbrev pub IsBehind : Header → BlockLocation → Type 0
IsBehind header location =
    (header.header_size ≤ location.block_location)
    × (header.header_size + header.block_size ≤ location.hintblock_state.location)

check_put_lem :
    (header : Header) (location : BlockLocation) (bytes : List ℕ) (f : File)
    → IsUsable f header
    → IsPlaced header f location.block_location location.hintblock_state.location
        location.hintblock_state.backup_location
    → IsBehind header location
    → 32 + length bytes ≤ header.block_size
    → check_put header location (length bytes) f ≡ (ok tt, f)
unfolding check_put
check_put_lem header location bytes f u placed behind short =
    let small : ltb (sub64 header.block_size 32) (length bytes) ≡ false =
      le→ltb _ _ (omega (arith, u.smallest, u.largest)) in
    let block : ltb location.block_location header.header_size ≡ false = le→ltb _ _ behind.0 in
    let sum : add64 header.header_size header.block_size ≡ header.header_size + header.block_size =
      omega (arith, behind.1, placed.low_hint) in
    let hint : ltb location.hintblock_state.location (header.header_size + header.block_size)
        ≡ false =
      le→ltb _ _ behind.1 in
    let other : (location.block_location == location.hintblock_state.backup_location) ≡ false =
      ground (arith, placed.block_backup, u.smallest) in
    rw (small, block, sum, hint, other) refl

-- On a usable device, at a location behind the master header with places that are apart: data that
-- fits a block, with a timestamp of 64 bits that is not too old, is written under a newer timestamp;
-- the block is read back as valid and as it was given, its hint block and the backup are valid and
-- name it as the last one, and no byte outside the three places is changed.
pub put_found-Put :
    (now appdata timestamp faketimestamp : ℕ) (bytes : List ℕ) (header : Header)
    (location : BlockLocation) (f : File)
    → IsUsable f header
    → header.pad_character < 256
    → HoldsBytes f.contents
    → IsBytes bytes
    → appdata < 2 ^ 64
    → wanted now timestamp < 2 ^ 64
    → location.hintblock_state.highest_timestamp + 1 < 2 ^ 64
    → IsPlaced header f location.block_location location.hintblock_state.location
        location.hintblock_state.backup_location
    → IsBehind header location
    → 32 + length bytes ≤ header.block_size
    → ¬ IsTooOld (wanted now timestamp) location.hintblock_state.highest_timestamp faketimestamp
    → (t : ℕ) × (after : File) × (put_found now bytes appdata timestamp faketimestamp header
          location f
        ≡ (ok tt, after))
      × IsStamp (wanted now timestamp) location.hintblock_state.highest_timestamp faketimestamp t
      × SameDevice f after
      × Put header
          (new_block_header t appdata (length bytes))
          bytes
          location.block_location
          location.hintblock_state.location
          location.hintblock_state.backup_location
          f.contents
          after.contents
unfolding put_found
put_found-Put now appdata timestamp fake bytes header location f u pad holds vs da ws hs placed
      behind short fresh =
    elim (choose_timestamp-IsStamp now location.hintblock_state.highest_timestamp timestamp fake f
      hs) [
        | inr (c, e, old) ↦ elim (fresh (IsRefusal-IsTooOld c _ _ _ old)) [ ]
        | inl (t, chosen, stamp) ↦
            let b : BlockHeader = new_block_header t appdata (length bytes) in
            let block : IsBlock header b bytes = record {
              pad_byte = pad;
              fits = record {
                timestamp = grind (arith, stamp.near);
                application_data = da;
                data_length = omega (arith, u.largest);
                pad = omega arith;
                hash = omega arith;
              };
              declared = refl;
              short = short;
              is_bytes = vs;
            } in
            let done = put_at-Put header location b bytes f u block holds placed in
            (
              t,
              done.0,
              bind_ok (choose_timestamp now _ timestamp fake) _ f f t chosen
                  ∙ bind_ok (check_put header location (length bytes)) _ f f tt
                      (check_put_lem header location bytes f u placed behind short)
                  ∙ done.1,
              stamp,
              done.2,
              done.3,
            )
      ]
