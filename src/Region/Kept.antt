-- ===== src/Region/Kept.antt =====
-- Regions with logs of which no byte is changed hold the same logs.
use blockdevlogger.Base.{
  ℕ, ◌+◌, ◌*◌, ◌≤◌, ◌<◌, ◌≡◌, ◌≢◌, sym, ap, subst, List, [], ◌∷◌, length, arith,
}
use blockdevlogger.Layout.{Header, HintBlock, decode_hint_block}
use blockdevlogger.Device.{File, Memory, SameDevice, HoldsBytes, read_bytes_ext}
use blockdevlogger.Validate.Laws.{hint_result}
use blockdevlogger.Blocks.Laws.{hint_at}
use blockdevlogger.Put.Laws.{IsUsable-same}
use blockdevlogger.Region.{Entry, place}
use blockdevlogger.Region.Places.{slots_le}
use blockdevlogger.Region.Log.{IsGeometry, IsLog, LastNamed, Holds-kept}
use blockdevlogger.Region.Find.{
  first_block, hint_place, IsRegionLog, AllFull, base_behind, base_behind-length,
}

pub IsGeometry-same :
    (header : Header) (f f' : File) (lo c h : ℕ)
    → SameDevice f f'
    → IsGeometry header f lo c h
    → IsGeometry header f' lo c h
IsGeometry-same header f f' lo c h same g = record {
  usable = IsUsable-same f f' header same g.usable;
  pad_byte = g.pad_byte;
  behind = g.behind;
  inside = g.inside;
  low = g.low;
  room = rw same.0 g.room;
  front = g.front;
  distance = g.distance;
}

module _ (header : Header) (lo c h : ℕ) (m m' : Memory)
    (same : (a : ℕ) → lo ≤ a → a < h + header.block_size → m' a ≡ m a)
    (smallest : 512 ≤ header.block_size)
    (inside : lo + c * header.block_size + 2 * header.block_size ≤ h) where
  hint_at-kept : (pos : ℕ) → lo ≤ pos → pos ≤ h → hint_at m' pos ≡ hint_at m pos
  hint_at-kept pos ge le = ap decode_hint_block (
      read_bytes_ext m' m pos 24
        (λ a from to. same a (omega (arith, from, ge)) (omega (arith, to, smallest))))

  LastNamed-kept :
      (entries : List Entry)
      → LastNamed header lo c h m entries
      → LastNamed header lo c h m' entries
  LastNamed-kept [] named = (
    subst (λ (x : HintBlock). hint_result x ≢ 0)
        (sym (hint_at-kept h (omega (arith, inside)) (omega arith))) named.0,
    subst (λ (x : HintBlock). hint_result x ≢ 0)
        (sym (hint_at-kept (lo + c * header.block_size) (omega arith) (omega (arith, inside))))
        named.1,
  )
  LastNamed-kept (e ∷ entries) named = (
    subst
        (λ (x : HintBlock).
          (hint_result x ≡ 0) × (x.previous_block_pos ≡ place header lo c (length entries)))
        (sym (hint_at-kept h (omega (arith, inside)) (omega arith))) named.0,
    named.1,
  )

  entries_inside :
      (entries : List Entry)
      → LastNamed header lo c h m entries
      → (k : ℕ) → k < length entries
      → place header lo c k + header.block_size ≤ h
  entries_inside [] named k lt = absurd (omega (arith, lt))
  entries_inside (e ∷ entries) named k lt =
      let before = slots_le c k (length entries) header.block_size (omega (arith, lt)) in
      omega (arith, before, named.1)

  -- A region of which no byte is changed holds the same log.
  IsLog-kept :
      (entries : List Entry)
      → HoldsBytes m'
      → IsLog header lo c h m entries
      → IsLog header lo c h m' entries
  IsLog-kept entries bytes log = record {
    bytes = bytes;
    holds =
        Holds-kept header lo c m m' 0 entries
          (λ k lt.
            let before = entries_inside entries log.named k (omega (arith, lt)) in
            read_bytes_ext m' m (place header lo c k) header.block_size
              (λ a from to. same a (omega (arith, from)) (omega (arith, to, before))))
          log.holds;
    named = LastNamed-kept entries log.named;
    increasing = log.increasing;
  }

pub IsRegionLog-kept :
    (header : Header) (f f' : File) (c base : ℕ) (entries : List Entry)
    → SameDevice f f'
    → HoldsBytes f'.contents
    → ((a : ℕ)
        → first_block header base ≤ a
        → a < hint_place base + header.block_size
        → f'.contents a ≡ f.contents a)
    → IsRegionLog header f c base entries
    → IsRegionLog header f' c base entries
IsRegionLog-kept header f f' c base entries same bytes kept r =
    let g = r.geometry in
    record {
      geometry = IsGeometry-same header f f' _ c _ same g;
      log =
          IsLog-kept header (first_block header base) c (hint_place base) f.contents f'.contents
            kept (g.usable).smallest g.inside entries bytes r.log;
    }

-- Full regions before the changed bytes stay so.
pub AllFull-kept :
    (header : Header) (f f' : File) (c base : ℕ) (regions : List (List Entry))
    → SameDevice f f'
    → HoldsBytes f'.contents
    → ((a : ℕ) → a < base_behind base regions + header.block_size → f'.contents a ≡ f.contents a)
    → AllFull header f c base regions
    → AllFull header f' c base regions
AllFull-kept header f f' c base [] same bytes kept full = tt
AllFull-kept header f f' c base (entries ∷ regions) same bytes kept full =
    let behind = base_behind-length (hint_place base) regions in
    (
      IsRegionLog-kept header f f' c base entries same bytes
          (λ a ge lt. kept a (omega (arith, lt, behind))) full.0,
      full.1,
      AllFull-kept header f f' c (hint_place base) regions same bytes kept full.2,
    )
