-- ===== src/Region/Init.antt =====
-- src/lib/init.c, write.c and read.c together: from a blank device to what is read back.
use blockdevlogger.Base.{ℕ, ◌+◌, ◌*◌, ◌≤◌, ◌<◌, ◌≡◌, ◌≢◌, refl, sym, subst, inr, [], arith}
use blockdevlogger.Layout.{Header, hintblock_spacing, backup_distance, small_size_threshold}
use blockdevlogger.Device.{File, ok, HoldsBytes}
use blockdevlogger.Validate.Laws.{seal_header, hint_result}
use blockdevlogger.Blocks.Laws.{hint_at}
use blockdevlogger.Init.{new_header, init_dev}
use blockdevlogger.Init.RoundTrip.{
  IsPossible, IsBlank, IsInitialized, init_dev-IsInitialized, new_header_pad,
}
use blockdevlogger.Region.Log.{IsGeometry}
use blockdevlogger.Region.Find.{first_block, hint_place, IsRegionLog}
use blockdevlogger.Region.Kept.{IsRegionLog-kept}
use blockdevlogger.Region.Logs.{AllLogs}
use blockdevlogger.Region.WriteRead.{IsGrowing}

-- A device that can take the first region and the second, with whole blocks up to the backup, and no
-- valid hint blocks in these regions.
pub record IsFresh (blocksize header_pad c : ℕ) (f : File) : Type 0 where
  pub possible : IsPossible blocksize header_pad f
  pub large : small_size_threshold ≤ f.size
  pub bytes : HoldsBytes f.contents
  pub behind : 1 ≤ c
  pub backup : blocksize + c * blocksize ≡ backup_distance
  pub low : header_pad + 2 * hintblock_spacing + blocksize < f.size
  pub no_hint : hint_result (hint_at f.contents (header_pad + hintblock_spacing)) ≢ 0
  pub no_backup : hint_result (hint_at f.contents (header_pad + backup_distance)) ≢ 0
  pub no_second_hint : hint_result (hint_at f.contents (header_pad + 2 * hintblock_spacing)) ≢ 0
  pub no_second_backup :
      hint_result (hint_at f.contents (header_pad + hintblock_spacing + backup_distance)) ≢ 0

module _ (blocksize header_pad padchar c : ℕ) (f : File)
    (v : IsFresh blocksize header_pad c f) where
  made : Header
  made = seal_header (new_header blocksize header_pad padchar f.size)

  made_size : made.header_size ≡ header_pad
  unfolding made new_header
  made_size = omega (arith, (v.possible).room, (v.possible).low)

  made_block : made.block_size ≡ blocksize
  unfolding made new_header
  made_block = refl

  made-IsGeometry :
      (base : ℕ)
      → header_pad ≤ base
      → base + hintblock_spacing + blocksize < f.size
      → IsGeometry made f (first_block made base) c (hint_place base)
  unfolding made new_header
  made-IsGeometry base ge room = record {
    usable = record {
      works = (v.possible).works;
      fits = omega (arith, (v.possible).low);
      algorithm = refl;
      smallest = (v.possible).smallest;
      largest = (v.possible).largest;
    };
    pad_byte = new_header_pad blocksize header_pad padchar f.size;
    behind = v.behind;
    inside = omega (arith, v.backup, (v.possible).largest);
    low = omega (arith, room, (v.possible).low);
    room = room;
    front = omega (arith, made_size, ge);
    distance = omega (arith, v.backup);
  }

  fresh_log :
      (base : ℕ)
      → header_pad ≤ base
      → base + hintblock_spacing + blocksize < f.size
      → hint_result (hint_at f.contents (base + hintblock_spacing)) ≢ 0
      → hint_result (hint_at f.contents (base + backup_distance)) ≢ 0
      → IsRegionLog made f c base []
  unfolding made new_header
  fresh_log base ge room bad bad' = record {
    geometry = made-IsGeometry base ge room;
    log = record {
      bytes = v.bytes;
      holds = tt;
      named =
          (bad, subst (λ p. hint_result (hint_at f.contents p) ≢ 0) (omega (arith, v.backup)) bad');
      increasing = tt;
    };
  }

  -- What is before the first region does not matter.
  after_log :
      (after : File) (base : ℕ)
      → header_pad ≤ base
      → IsInitialized made header_pad f after
      → IsRegionLog made f c base []
      → IsRegionLog made after c base []
  after_log after base ge i r =
      IsRegionLog-kept made f after c base [] i.same (i.bytes v.bytes)
        (λ a from to. i.frame a (omega (arith, from, ge))) r

  IsInitialized-IsGrowing :
      (after : File) → IsInitialized made header_pad f after → IsGrowing made c [] [] after
  IsInitialized-IsGrowing after i =
      let size = i.same.0 in
      let first =
        after_log after header_pad (omega arith) i
          (fresh_log header_pad (omega arith) (omega (arith, v.low)) v.no_hint v.no_backup) in
      let second = after_log after (hint_place header_pad) (omega arith) i (
        fresh_log (hint_place header_pad) (omega arith) (omega (arith, v.low))
          (subst (λ p. hint_result (hint_at f.contents p) ≢ 0) (omega arith) v.no_second_hint)
          v.no_second_backup) in
      record {
        device = record {
          master = i.master;
          accepted = i.accepted;
          large = omega (arith, size, v.large);
          full = tt;
          last = subst (λ b. IsRegionLog made after c b []) (sym made_size) first;
        };
        narrow = omega (arith, made_size, v.low, (v.possible).low);
        some = inr refl;
        behind =
            subst (λ b. AllLogs made after c after.size (hint_place b) []) (sym made_size)
              (inr (omega (arith, size, v.low), second));
        increasing = tt;
      }

-- A fresh device that is initialized holds one empty log, which grows with every write.
pub init_dev-IsGrowing :
    (position blocksize header_pad padchar c : ℕ) (f : File)
    → IsFresh blocksize header_pad c f
    → IsBlank position f
    → (after : File) × (init_dev position blocksize header_pad padchar f ≡ (ok tt, after))
      × IsGrowing (seal_header (new_header blocksize header_pad padchar f.size)) c [] [] after
unfolding made
init_dev-IsGrowing position blocksize header_pad padchar c f v blank =
    let (after, runs, i) =
      init_dev-IsInitialized position blocksize header_pad padchar f v.possible blank in
    (after, runs, IsInitialized-IsGrowing blocksize header_pad padchar c f v after i)
