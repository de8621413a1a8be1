-- ===== src/Hint/State.antt =====
-- src/lib/blocks.c: what the state of a region promises, whose hint block is accepted.
use blockdevlogger.Base.{
  ℕ, ◌+◌, ◌*◌, ◌^◌, ◌≤◌, ◌<◌, ◌≡◌, ◌↔◌, refl, sym, ap, ◌∙◌, inl, inr, true, false, ◌||◌, Bool-cases,
  some, of_some, ltb, sub64, ◌==◌, not, arith,
}
use blockdevlogger.Layout.{Header, backup_distance, decode_block_header}
use blockdevlogger.Device.{File, Memory, ok, SameDevice, read_bytes, bind_return_ok}
use blockdevlogger.Validate.{validate_block, validate_hintblock}
use blockdevlogger.Validate.Laws.{hint_result, validate_block_result, validate_hintblock_result}
use blockdevlogger.Blocks.{HintblockState, block_get_valid_hintblock}
use blockdevlogger.Blocks.Laws.{hint_at, read_hint, read_block_at, block_get_valid_hintblock_lem}
use blockdevlogger.Hint.{state_from_primary, block_get_hintblock_state}
use blockdevlogger.Hint.Laws.{IsReadable, found_state, intact_state, block_get_hintblock_state_lem}

-- The block that the hint block at `h` names lies between `lo` and `hi` and is accepted.
pub record NamesBlock (m : Memory) (header : Header) (h lo hi : ℕ) : Type 0 where
  pub low : lo ≤ (hint_at m h).previous_block_pos
  pub high : (hint_at m h).previous_block_pos ≤ hi
  pub accepted :
      validate_block (read_bytes m (hint_at m h).previous_block_pos header.block_size) header
      ≡ some 0

-- What the state of a region promises, whose hint block at `h` is accepted: its places, with the backup
-- 4 MiB before the hint block, what the hint block says, and whether it names a block that is accepted,
-- whose timestamp is then the highest one; otherwise that is 0.
pub record Describes (m : Memory) (header : Header) (h lo hi : ℕ) (state : HintblockState)
    : Type 0 where
  pub location : state.location ≡ h
  pub backup : 4 * 1024 * 1024 ≤ h → state.backup_location + 4 * 1024 * 1024 ≡ h
  pub first : state.blockstart_min ≡ lo
  pub last : state.blockstart_max ≡ hi
  pub hint : state.hintblock ≡ hint_at m h
  pub valid_iff : (state.valid ≡ true) ↔ NamesBlock m header h lo hi
  pub newest :
      state.valid ≡ true
      → state.highest_timestamp
        ≡ (decode_block_header
            (read_bytes m (hint_at m h).previous_block_pos header.block_size)).timestamp
  pub unset : state.valid ≡ false → state.highest_timestamp ≡ 0

backup_before :
    (h : ℕ) → h < 2 ^ 63 → 4 * 1024 * 1024 ≤ h → sub64 h backup_distance + 4 * 1024 * 1024 ≡ h
backup_before h small far = omega arith

names_nothing :
    (m : Memory) (header : Header) (h lo hi : ℕ)
    → h < 2 ^ 63
    → ¬ NamesBlock m header h lo hi
    → Describes m header h lo hi (found_state m h lo hi)
names_nothing m header h lo hi small nothing = record {
  location = refl;
  backup = λ far. backup_before h small far;
  first = refl;
  last = refl;
  hint = refl;
  valid_iff = (λ e. ground (arith, e), λ names. absurd (nothing names));
  newest = λ e. ground (arith, e);
  unset = λ e. refl;
}

intact_state-Describes :
    (m : Memory) (header : Header) (h lo hi : ℕ)
    → h < 2 ^ 63
    → header.default_hash_algorithm ≡ 0
    → lo ≤ (hint_at m h).previous_block_pos
    → (hint_at m h).previous_block_pos ≤ hi
    → Describes m header h lo hi (intact_state m header h lo hi)
intact_state-Describes m header h lo hi small a low high =
    let block = read_block_at m (hint_at m h).previous_block_pos header in
    let result =
      validate_block_result (read_bytes m (hint_at m h).previous_block_pos header.block_size) header
        a in
    elim (Bool-cases (not (block.result == 0))) [
      | inl refused ↦ rw refused (
          names_nothing m header h lo hi small (λ names.
            let zero : block.result ≡ 0 = of_some _ _ (sym result ∙ names.accepted) in
            ground (arith, refused, zero)))
      | inr fine ↦
          let zero : block.result ≡ 0 = ground (arith, fine) in
          rw fine (record {
            location = refl;
            backup = λ far. backup_before h small far;
            first = refl;
            last = refl;
            hint = refl;
            valid_iff = (
              λ e. record { low = low; high = high; accepted = result ∙ ap some zero },
              λ names. refl,
            );
            newest = λ e. refl;
            unset = λ e. ground (arith, e);
          })
    ]

-- On a device that works, of less than 2^63 bytes and with algorithm 0, with a hint block that is
-- accepted and lies inside the device with its region: the state that is read has the places of the
-- region and its backup and the fields of the hint block; it is valid exactly when the block that is
-- named lies in the region and is accepted, and then has the timestamp of that block as the highest
-- one. No byte is changed.
pub block_get_hintblock_state-Describes :
    (h lo hi : ℕ) (header : Header) (f : File)
    → IsReadable f header
    → validate_hintblock (hint_at f.contents h) header ≡ some 0
    → h + 24 < f.size
    → hi + header.block_size < f.size
    → (state : HintblockState) × (after : File) × (block_get_hintblock_state h header lo hi f
        ≡ (ok state, after))
      × Describes f.contents header h lo hi state
      × SameDevice f after
      × (after.contents ≡ f.contents)
unfolding block_get_hintblock_state state_from_primary
block_get_hintblock_state-Describes h lo hi header f r accepted room room' =
    let m = f.contents in
    let prev = (hint_at m h).previous_block_pos in
    let small : h < 2 ^ 63 = omega (arith, room, r.fits) in
    let valid : hint_result (hint_at m h) ≡ 0 =
      of_some _ _ (sym (validate_hintblock_result (hint_at m h) header r.algorithm) ∙ accepted) in
    elim (Bool-cases (ltb hi prev || ltb prev lo)) [
      | inr inside ↦
          let low : lo ≤ prev = ground (arith, inside) in
          let high : prev ≤ hi = ground (arith, inside) in
          (
            intact_state m header h lo hi,
            record f { seek = prev },
            block_get_hintblock_state_lem h lo hi header f r
                (record { valid = valid; low = low; high = high }) room room',
            intact_state-Describes m header h lo hi small r.algorithm low high,
            (refl, refl, refl),
            refl,
          )
      | inl outside ↦ (
        found_state m h lo hi,
        record f { seek = h },
        bind_return_ok 1 (block_get_valid_hintblock h header) _ f (record f { seek = h })
              (read_hint m h)
              (block_get_valid_hintblock_lem h header f r.works r.fits room r.algorithm)
            ∙ rw (valid, outside) refl,
        names_nothing m header h lo hi small
            (λ names. ground (arith, outside, names.low, names.high)),
        (refl, refl, refl),
        refl,
      )
    ]
