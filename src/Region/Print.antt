-- ===== src/Region/Print.antt =====
-- src/lib/read.c: what printing a block, or a region, adds to what has been printed.
use blockdevlogger.Base.{
  ℕ, ◌+◌, ◌*◌, ◌≤◌, ◌<◌, ◌≡◌, refl, sym, ap, ◌∙◌, inl, inr, true, false, Bool-cases, List, [], ◌∷◌,
  ◌++◌, append-nil, leb, take, length,
}
use blockdevlogger.Layout.{Header, BlockHeader}
use blockdevlogger.Device.{File}
use blockdevlogger.Validate.Laws.{seal_block}
use blockdevlogger.Blocks.{HintblockState}
use blockdevlogger.Loop.{BlockLoop, BlockView}
use blockdevlogger.Read.{Dump, ReadLoop, dump_block}
use blockdevlogger.Region.{Entry, header_of, entry_of, entries_of, selected, place}

entries_of-append : (xs ys : List Dump) → entries_of (xs ++ ys) ≡ entries_of xs ++ entries_of ys
entries_of-append [] ys = refl
entries_of-append (x ∷ xs) ys = ap (λ es. entry_of x ∷ es) (entries_of-append xs ys)

pub selected-cons :
    (t : ℕ) (e : Entry) (es : List Entry)
    → selected t (e ∷ es) ≡ selected t (e ∷ []) ++ selected t es
selected-cons t e es = elim (Bool-cases (leb t e.timestamp)) [
  | inl newer ↦ rw newer refl
  | inr older ↦ rw older refl
]

-- A stored entry is printed as that entry, if it is new enough.
pub dump_block-selected :
    (e : Entry) (view : BlockView) (d : ReadLoop)
    → view.block ≡ seal_block (header_of e) e.bytes
    → take (length e.bytes) view.block_data ≡ e.bytes
    → (entries_of (dump_block view d).dumped
        ≡ entries_of d.dumped ++ selected d.timestamp_gteq (e ∷ []))
      × ((dump_block view d).timestamp_gteq ≡ d.timestamp_gteq)
      × ((dump_block view d).limit ≡ d.limit)
unfolding dump_block
dump_block-selected e view d same text = elim (Bool-cases (leb d.timestamp_gteq e.timestamp)) [
  | inl newer ↦
      let new : leb d.timestamp_gteq (view.block).timestamp ≡ true =
        ap (λ (b : BlockHeader). leb d.timestamp_gteq b.timestamp) same ∙ newer in
      rw (new, newer)
        (entries_of-append d.dumped _ ∙ ap (λ x. entries_of d.dumped ++ x ∷ []) entry, refl, refl)
  | inr older ↦
      let old : leb d.timestamp_gteq (view.block).timestamp ≡ false =
        ap (λ (b : BlockHeader). leb d.timestamp_gteq b.timestamp) same ∙ older in
      rw (old, older) (sym (append-nil (entries_of d.dumped)), refl, refl)
]
  where
    made : BlockHeader → Entry
    made b = record {
      timestamp = b.timestamp;
      application_data = b.application_data;
      bytes = take b.data_length view.block_data;
    }

    entry : made view.block ≡ e
    entry =
        ap made same
        ∙ ap
            (λ (bs : List ℕ). record {
              timestamp = e.timestamp;
              application_data = e.application_data;
              bytes = bs;
            })
            text

-- The loop's region on the device: the entry with the number `last` is the last one.
pub record IsLoop (header : Header) (state : HintblockState) (f : File) (lo c last : ℕ)
    : Type 0 where
  pub backup : state.backup_location ≡ lo + c * header.block_size
  pub newest : state.hintblock.previous_block_pos ≡ place header lo c last
  pub inside : place header lo c last ≤ state.blockstart_max
  pub room : state.blockstart_max + header.block_size < f.size
  pub positive : 1 ≤ header.block_size
  pub behind : 1 ≤ c

-- What reading the entries adds to what has been printed.
pub record Prints (entries : List Entry) (s s' : BlockLoop ReadLoop) : Type 0 where
  pub result : s'.result ≡ 0
  pub limit : (s'.argument).limit ≡ 0
  pub timestamp_gteq : (s'.argument).timestamp_gteq ≡ (s.argument).timestamp_gteq
  pub printed :
      entries_of (s'.argument).dumped
      ≡ entries_of (s.argument).dumped ++ selected (s.argument).timestamp_gteq entries
