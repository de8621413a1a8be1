-- ===== src/Region/State.antt =====
-- src/lib/blocks.c and write.c over a region with a log: the state of its hint block, and whether and
-- where it has room.
use blockdevlogger.Base.{
  ℕ, suc, ◌+◌, ◌*◌, ◌≤◌, ◌<◌, ◌≡◌, ◌≢◌, refl, sym, ap, ◌∙◌, subst, inl, inr, true, false, List, [],
  ◌∷◌, length, leb, add64, sub64, arith,
}
use blockdevlogger.Layout.{Header, BlockHeader, backup_distance}
use blockdevlogger.Device.{File, Memory, ok}
use blockdevlogger.Validate.Laws.{hint_result}
use blockdevlogger.Blocks.{BlockLocation, HintblockState}
use blockdevlogger.Blocks.Laws.{hint_at, read_block_at}
use blockdevlogger.Put.Block.{IsStored}
use blockdevlogger.Hint.{block_get_hintblock_state}
use blockdevlogger.Hint.Laws.{IsReadable, intact_state, block_get_hintblock_state_lem}
use blockdevlogger.Hint.Fresh.{block_get_hintblock_state_fresh}
use blockdevlogger.Write.{write_check_free_hintblock, next_block}
use blockdevlogger.Region.{Entry, header_of, place, Holds}
use blockdevlogger.Region.Places.{slot-zero, slot-suc, not_backup}
use blockdevlogger.Region.Log.{IsGeometry, IsLog, newest}

-- What the state says of the last entry: there is none, or its place and its timestamp.
abbrev pub SaysLast : Header → ℕ → ℕ → ℕ → HintblockState → List Entry → Type 0
SaysLast header lo c h state [] = (state.valid ≡ false) × (state.highest_timestamp ≡ 0)
SaysLast header lo c h state (e ∷ entries) =
    (state.valid ≡ true)
    × ((state.hintblock).previous_block_pos ≡ place header lo c (length entries))
    × (state.highest_timestamp ≡ newest 0 (e ∷ entries))
    × (place header lo c (length entries) + header.block_size ≤ h)

-- The state of the hint block of a region with the log of these entries.
pub record IsStateOf (header : Header) (lo c h : ℕ) (state : HintblockState) (entries : List Entry)
    : Type 0 where
  pub location : state.location ≡ h
  pub backup : state.backup_location ≡ lo + c * header.block_size
  pub low : state.blockstart_min ≡ lo
  pub high : state.blockstart_max + header.block_size ≡ h
  pub last : SaysLast header lo c h state entries

pub IsStateOf-newest :
    (header : Header) (lo c h : ℕ) (state : HintblockState) (entries : List Entry)
    → IsStateOf header lo c h state entries
    → state.highest_timestamp ≡ newest 0 entries
IsStateOf-newest header lo c h state [] s = s.last.1
IsStateOf-newest header lo c h state (e ∷ entries) s = s.last.2

pub IsStateOf-valid :
    (header : Header) (lo c h : ℕ) (state : HintblockState) (entries : List Entry)
    → IsStateOf header lo c h state entries
    → 1 ≤ length entries
    → state.valid ≡ true
IsStateOf-valid header lo c h state [] s some = absurd (omega (arith, some))
IsStateOf-valid header lo c h state (e ∷ entries) s some = s.last.0

-- The last entry of a log is stored, and has the newest timestamp.
pub last_stored :
    (header : Header) (lo c : ℕ) (m : Memory) (n t : ℕ) (e : Entry) (entries : List Entry)
    → Holds header lo c m n (e ∷ entries)
    → (b : Entry) × IsStored
        (header_of b)
        b.bytes
        (read_block_at m (place header lo c (n + length entries)) header)
      × (newest t (e ∷ entries) ≡ b.timestamp)
last_stored header lo c m n t e [] holds =
    let at : n ≡ n + 0 = omega arith in
    (
      e,
      subst (λ k. IsStored (header_of e) e.bytes (read_block_at m (place header lo c k) header)) at
          holds.0,
      refl,
    )
last_stored header lo c m n t e (e' ∷ entries) holds =
    let (b, stored, is_newest) = last_stored header lo c m (suc n) e.timestamp e' entries holds.1 in
    let at : suc n + length entries ≡ n + suc (length entries) = omega arith in
    (
      b,
      subst (λ k. IsStored (header_of b) b.bytes (read_block_at m (place header lo c k) header)) at
          stored,
      is_newest,
    )

module _ (header : Header) (f : File) (lo c h : ℕ) (g : IsGeometry header f lo c h) where
  backup_at : sub64 h backup_distance ≡ lo + c * header.block_size
  backup_at = omega (arith, g.distance, g.low)

  pub IsGeometry-IsReadable : IsReadable f header
  IsGeometry-IsReadable = record {
    works = (g.usable).works;
    fits = (g.usable).fits;
    algorithm = (g.usable).algorithm;
    narrow = omega (arith, (g.usable).largest);
  }

  high_at : sub64 h header.block_size + header.block_size ≡ h
  high_at = omega (arith, (g.usable).largest, (g.usable).smallest, g.inside, g.low)

  zero_plus : (n : ℕ) → 0 + n ≡ n
  zero_plus n = omega arith

  intact_state-IsStateOf :
      (e : Entry) (entries : List Entry)
      → IsLog header lo c h f.contents (e ∷ entries)
      → IsStateOf header lo c h
          (intact_state f.contents header h lo (sub64 h header.block_size))
          (e ∷ entries)
  intact_state-IsStateOf e entries log =
      let (b, stored, is_newest) = last_stored header lo c f.contents 0 0 e entries log.holds in
      let at : place header lo c (0 + length entries) ≡ (hint_at f.contents h).previous_block_pos =
        ap (λ k. place header lo c k) (zero_plus (length entries)) ∙ sym log.named.0.1 in
      let named : IsStored (header_of b) b.bytes
          (read_block_at f.contents (hint_at f.contents h).previous_block_pos header) =
        subst (λ q. IsStored (header_of b) b.bytes (read_block_at f.contents q header)) at stored in
      rw named.0 (record {
        location = refl;
        backup = backup_at;
        low = refl;
        high = high_at;
        last = (
          refl,
          log.named.0.1,
          ap (λ (x : BlockHeader). x.timestamp) named.1 ∙ sym is_newest,
          log.named.1,
        );
      })

  -- On a usable device, the hint block of a region with a log is found, without a change of a byte, in
  -- a state that names the last entry and its timestamp, or that is not valid if the log is empty.
  pub block_get_hintblock_state-IsStateOf :
      (entries : List Entry)
      → IsLog header lo c h f.contents entries
      → (state : HintblockState) × (q : ℕ) × (block_get_hintblock_state h header lo
            (sub64 h header.block_size)
            f
          ≡ (ok state, record f { seek = q }))
        × IsStateOf header lo c h state entries
  block_get_hintblock_state-IsStateOf [] log =
      let bad : hint_result (hint_at f.contents (sub64 h backup_distance)) ≢ 0 =
        subst (λ p. hint_result (hint_at f.contents p) ≢ 0) (sym backup_at) log.named.1 in
      (
        _,
        _,
        block_get_hintblock_state_fresh h lo (sub64 h header.block_size) header f
            IsGeometry-IsReadable log.named.0 bad (omega (arith, (g.usable).smallest, g.room))
            (omega (arith, backup_at, (g.usable).smallest, g.inside, g.room)),
        record {
          location = refl;
          backup = backup_at;
          low = refl;
          high = high_at;
          last = (refl, refl);
        },
      )
  block_get_hintblock_state-IsStateOf (e ∷ entries) log = (
    intact_state f.contents header h lo (sub64 h header.block_size),
    _,
    block_get_hintblock_state_lem h lo (sub64 h header.block_size) header f IsGeometry-IsReadable
        (record {
          valid = log.named.0.0;
          low = omega (arith, log.named.0.1);
          high = omega (arith, log.named.0.1, log.named.1, high_at);
        })
        (omega (arith, (g.usable).smallest, g.room)) (omega (arith, high_at, g.room)),
    intact_state-IsStateOf e entries log,
  )

  -- The block behind the last one, past the backup, is the next place.
  next_block-place :
      (state : HintblockState) (n : ℕ)
      → state.backup_location ≡ lo + c * header.block_size
      → (state.hintblock).previous_block_pos ≡ place header lo c n
      → place header lo c n + header.block_size ≤ h
      → next_block header state ≡ place header lo c (suc n)
  unfolding next_block
  next_block-place state n backup last le = elim (slot-suc c n) [
    | inl (next, ne) ↦
        let e = ap (λ k. k * header.block_size) next in
        let apart = not_backup c (suc n) header.block_size (omega (arith, (g.usable).smallest)) in
        ground (arith, e, apart, last, backup, le, g.low)
    | inr (next, at) ↦
        let e = ap (λ k. k * header.block_size) next in
        let e' = ap (λ k. k * header.block_size) at in
        ground (arith, e, e', last, backup, le, g.low, g.inside, (g.usable).largest)
  ]

  -- There is a block behind the last one just if the next place is before the hint block.
  behind-iff_fits :
      (n : ℕ)
      → (place header lo c n + 2 * header.block_size ≤ h
          → place header lo c (suc n) + header.block_size ≤ h)
        × (place header lo c (suc n) + header.block_size ≤ h
            → place header lo c n + 2 * header.block_size ≤ h)
  behind-iff_fits n = elim (slot-suc c n) [
    | inl (next, ne) ↦
        let e = ap (λ k. k * header.block_size) next in
        (λ le. omega (arith, e, le), λ le. omega (arith, e, le))
    | inr (next, at) ↦
        let e = ap (λ k. k * header.block_size) next in
        let e' = ap (λ k. k * header.block_size) at in
        (λ le. omega (arith, e, e', le, g.inside), λ le. omega (arith, e, le))
  ]

  -- A region with a log has room, and then at the next place of the log, just if that place lies
  -- before the hint block.
  pub write_check_free_hintblock-next :
      (location : BlockLocation) (entries : List Entry)
      → IsStateOf header lo c h location.hintblock_state entries
      → place header lo c (length entries) + header.block_size ≤ h
      → ((write_check_free_hintblock header location).result ≡ 0)
        × (((write_check_free_hintblock header location).location).block_location
            ≡ place header lo c (length entries))
        × (((write_check_free_hintblock header location).location).hintblock_state
            ≡ location.hintblock_state)
  unfolding write_check_free_hintblock next_block
  write_check_free_hintblock-next location [] s fits =
      let at = ap (λ k. lo + k * header.block_size) (slot-zero c g.behind) in
      rw s.last.0 (refl, omega (arith, at, s.low), refl)
  write_check_free_hintblock-next location (e ∷ entries) s fits =
      let more = (behind-iff_fits (length entries)).1 fits in
      let test : leb
            (add64 (location.hintblock_state).hintblock.previous_block_pos header.block_size)
            (location.hintblock_state).blockstart_max
          ≡ true =
        ground (arith, s.last.1, more, s.high, g.low) in
      rw (s.last.0, test)
        (
          refl,
          next_block-place location.hintblock_state (length entries) s.backup s.last.1
              (omega (arith, more)),
          refl,
        )

  pub write_check_free_hintblock-full :
      (location : BlockLocation) (entries : List Entry)
      → IsStateOf header lo c h location.hintblock_state entries
      → h < place header lo c (length entries) + header.block_size
      → (write_check_free_hintblock header location).result ≡ 1
  unfolding write_check_free_hintblock
  write_check_free_hintblock-full location [] s full =
      let at = ap (λ k. lo + k * header.block_size) (slot-zero c g.behind) in
      absurd (omega (arith, at, full, g.inside))
  write_check_free_hintblock-full location (e ∷ entries) s full =
      let less = (behind-iff_fits (length entries)).0 in
      let test : leb
            (add64 (location.hintblock_state).hintblock.previous_block_pos header.block_size)
            (location.hintblock_state).blockstart_max
          ≡ false =
        ground (arith, s.last.1, s.last.3, less, s.high, g.low, full) in
      rw (s.last.0, test) refl
