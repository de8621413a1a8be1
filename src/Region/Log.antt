-- ===== src/Region/Log.antt =====
-- A region that holds a log, and what a put at its next place makes of it.
use blockdevlogger.Base.{
  ℕ, suc, ◌+◌, ◌*◌, ◌≤◌, ◌<◌, ◌^◌, ◌≡◌, ◌≢◌, refl, sym, subst, inl, inr, List, [], ◌∷◌, ◌++◌,
  length, length-append, arith,
}
use blockdevlogger.Layout.{Header, backup_distance}
use blockdevlogger.Device.{File, Memory, HoldsBytes, read_bytes, read_bytes_ext}
use blockdevlogger.Validate.Laws.{hint_result}
use blockdevlogger.Blocks.Laws.{hint_at, read_block_at, block_of}
use blockdevlogger.Put.Laws.{IsUsable}
use blockdevlogger.Put.Block.{IsStored}
use blockdevlogger.Write.PutAt.{Names, IsPlaced, Put}
use blockdevlogger.Region.{Entry, header_of, slot, place, Holds}
use blockdevlogger.Region.Places.{slots_apart, slot-ne}
use blockdevlogger.Write.Place.{blocks_apart}

-- Where a region lies: its first block at `lo`, the backup in its block `c`, its hint block at `h`.
pub record IsGeometry (header : Header) (f : File) (lo c h : ℕ) : Type 0 where
  pub usable : IsUsable f header
  pub pad_byte : header.pad_character < 256
  pub behind : 1 ≤ c
  pub inside : lo + c * header.block_size + 2 * header.block_size ≤ h
  pub low : h < 2 ^ 31
  pub room : h + header.block_size < f.size
  pub front : header.header_size ≤ lo
  pub distance : lo + c * header.block_size + backup_distance ≡ h

-- Each timestamp is greater than the one before.
abbrev pub Increasing : ℕ → List Entry → Type 0
Increasing t [] = Unit
Increasing t (e ∷ entries) = (t < e.timestamp) × Increasing e.timestamp entries

-- The last timestamp, or `t` if there is none.
abbrev pub newest : ℕ → List Entry → ℕ
newest t [] = t
newest t (e ∷ entries) = newest e.timestamp entries

pub Increasing-append :
    (t : ℕ) (entries : List Entry) (e : Entry)
    → Increasing t entries
    → newest t entries < e.timestamp
    → Increasing t (entries ++ e ∷ [])
Increasing-append t [] e h lt = (lt, tt)
Increasing-append t (x ∷ entries) e h lt = (h.0, Increasing-append x.timestamp entries e h.1 lt)

pub newest-append :
    (t : ℕ) (entries : List Entry) (e : Entry) → newest t (entries ++ e ∷ []) ≡ e.timestamp
newest-append t [] e = refl
newest-append t (x ∷ entries) e = newest-append x.timestamp entries e

-- The hint block names the last entry, which lies before it; that of an empty log is not valid, nor
-- is its backup.
abbrev pub LastNamed : Header → ℕ → ℕ → ℕ → Memory → List Entry → Type 0
LastNamed header lo c h m [] =
    (hint_result (hint_at m h) ≢ 0) × (hint_result (hint_at m (lo + c * header.block_size)) ≢ 0)
LastNamed header lo c h m (e ∷ entries) =
    Names m h (place header lo c (length entries))
    × (place header lo c (length entries) + header.block_size ≤ h)

-- A region with the log of these entries.
pub record IsLog (header : Header) (lo c h : ℕ) (m : Memory) (entries : List Entry) : Type 0 where
  pub bytes : HoldsBytes m
  pub holds : Holds header lo c m 0 entries
  pub named : LastNamed header lo c h m entries
  pub increasing : Increasing 0 entries

module _ (header : Header) (lo c : ℕ) where
  -- A memory with the same blocks in the places holds the same entries.
  pub Holds-kept :
      (m m' : Memory) (n : ℕ) (entries : List Entry)
      → ((k : ℕ)
          → k < n + length entries
          → read_bytes m' (place header lo c k) header.block_size
            ≡ read_bytes m (place header lo c k) header.block_size)
      → Holds header lo c m n entries
      → Holds header lo c m' n entries
  Holds-kept m m' n [] same h = tt
  Holds-kept m m' n (e ∷ entries) same h = (
    subst (λ bs. IsStored (header_of e) e.bytes (block_of bs header)) (sym (same n (omega arith)))
        h.0,
    Holds-kept m m' (suc n) entries (λ k lt. same k (omega arith)) h.1,
  )

  Holds-append :
      (m : Memory) (n : ℕ) (entries : List Entry) (e : Entry)
      → Holds header lo c m n entries
      → IsStored
          (header_of e)
          e.bytes
          (read_block_at m (place header lo c (n + length entries)) header)
      → Holds header lo c m n (entries ++ e ∷ [])
  Holds-append m n [] e h new =
      let at : n + 0 ≡ n = omega arith in
      (
        subst (λ k. IsStored (header_of e) e.bytes (read_block_at m (place header lo c k) header))
            at new,
        tt,
      )
  Holds-append m n (x ∷ entries) e h new =
      let at : n + suc (length entries) ≡ suc n + length entries = omega arith in
      (
        h.0,
        Holds-append m (suc n) entries e h.1 (
            subst
              (λ k. IsStored (header_of e) e.bytes (read_block_at m (place header lo c k) header))
              at new),
      )

module _ (header : Header) (f : File) (lo c h : ℕ) (g : IsGeometry header f lo c h) where
  -- The next place, the hint block and the backup are apart on the device.
  pub next-IsPlaced :
      (n : ℕ)
      → place header lo c n + header.block_size ≤ h
      → IsPlaced header f (place header lo c n) h (lo + c * header.block_size)
  next-IsPlaced n fits =
      let positive : 1 ≤ header.block_size = omega (arith, g.usable.smallest) in
      record {
        low = omega (arith, g.low);
        low_hint = g.low;
        low_backup = omega (arith, g.inside, g.low);
        room = omega (arith, g.room);
        room_hint = g.room;
        room_backup = omega (arith, g.inside, g.room);
        block_hint = inl fits;
        block_backup =
            grind (arith, blocks_apart header.block_size (slot c n) c positive (slot-ne c n));
        hint_backup = inr (omega (arith, g.inside));
      }

  -- A put at the next place makes the log longer by the new entry, if that is newer.
  pub Put-IsLog :
      (entries : List Entry) (e : Entry) (m m' : Memory)
      → IsLog header lo c h m entries
      → place header lo c (length entries) + header.block_size ≤ h
      → newest 0 entries < e.timestamp
      → Put header
          (header_of e)
          e.bytes
          (place header lo c (length entries))
          h
          (lo + c * header.block_size)
          m
          m'
      → IsLog header lo c h m' (entries ++ e ∷ [])
  Put-IsLog entries e m m' log fits newer put = record {
    bytes = put.bytes_kept;
    holds =
        Holds-append header lo c m' 0 entries e
          (Holds-kept header lo c m m' 0 entries (λ k lt. kept k (omega arith)) log.holds)
          (subst
            (λ n. IsStored (header_of e) e.bytes (read_block_at m' (place header lo c n) header))
            (omega arith) put.block);
    named = named entries fits put.hint;
    increasing = Increasing-append 0 entries e log.increasing newer;
  }
    where
      named :
          (xs : List Entry)
          → place header lo c (length xs) + header.block_size ≤ h
          → Names m' h (place header lo c (length xs))
          → LastNamed header lo c h m' (xs ++ e ∷ [])
      named [] fits' named' = (named', fits')
      named (x ∷ xs) fits' named' =
          subst
            (λ n. Names m' h (place header lo c n) × (place header lo c n + header.block_size ≤ h))
            (omega (arith, length-append xs (e ∷ []))) (named', fits')

      kept :
          (k : ℕ)
          → k < length entries
          → read_bytes m' (place header lo c k) header.block_size
            ≡ read_bytes m (place header lo c k) header.block_size
      kept k lt = read_bytes_ext m' m _ _ (λ a from to.
          let before = slots_apart c k (length entries) header.block_size lt in
          let positive : 1 ≤ header.block_size = omega (arith, g.usable.smallest) in
          put.frame a (inl (omega (arith, to, before))) (inl (omega (arith, to, before, fits))) (
            grind (
              arith,
              to,
              from,
              blocks_apart header.block_size (slot c k) c positive (slot-ne c k),
            )))
