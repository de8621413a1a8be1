-- ===== src/Region/Sequence.antt =====
-- src/lib/init.c, write.c and read.c in sequence: an initialized device, any number of writes, a read.
use blockdevlogger.Base.{
  ℕ, ◌+◌, ◌*◌, ◌≤◌, ◌<◌, ◌^◌, ◌≡◌, refl, sym, ap, ◌∙◌, subst, List, [], ◌∷◌, ◌++◌, append_assoc,
  append-nil, length, length-append, arith,
}
use blockdevlogger.Layout.{Header}
use blockdevlogger.Crc32.Reference.{IsBytes}
use blockdevlogger.Device.{File, ok, M, pure, ◌>>=◌, ◌>>◌, bind_ok}
use blockdevlogger.Validate.Laws.{seal_header}
use blockdevlogger.Init.{new_header, init_dev}
use blockdevlogger.Init.RoundTrip.{IsBlank}
use blockdevlogger.Read.{Dump, read_blocks}
use blockdevlogger.Write.{write_put_block}
use blockdevlogger.Write.Stamp.{wanted}
use blockdevlogger.Region.{Entry, slot, entries_of, selected}
use blockdevlogger.Region.Places.{slots_apart}
use blockdevlogger.Region.Log.{newest, newest-append}
use blockdevlogger.Region.Find.{first_block, hint_place, base_behind}
use blockdevlogger.Region.WriteRead.{IsGrowing, write_put_block-IsGrowing, IsGrowing-HoldsLogs}
use blockdevlogger.Region.ReadBlocks.{read_blocks-Prints}
use blockdevlogger.Region.Init.{IsFresh, init_dev-IsGrowing}

-- Writes with timestamps of their own, one behind the other.
abbrev pub write_all : ℕ → List Entry → M (Unit {0})
write_all now [] = pure tt
write_all now (e ∷ entries) =
    write_put_block now e.bytes e.application_data e.timestamp 0 >>= λ _. write_all now entries

-- Each entry fits a block, and is newer than the one before.
abbrev pub AllFit : Header → ℕ → List Entry → Type 0
AllFit header t [] = Unit
AllFit header t (e ∷ entries) =
    IsBytes e.bytes
    × (e.application_data < 2 ^ 64)
    × (e.timestamp + 2 < 2 ^ 64)
    × (32 + length e.bytes ≤ header.block_size)
    × (t < e.timestamp)
    × AllFit header e.timestamp entries

AllFit-newest :
    (header : Header) (t : ℕ) (entries : List Entry)
    → AllFit header t entries
    → t + 2 < 2 ^ 64
    → newest t entries + 2 < 2 ^ 64
AllFit-newest header t [] h top = top
AllFit-newest header t (e ∷ entries) h top = AllFit-newest header e.timestamp entries h.5 h.2

zero_plus : (n : ℕ) → n ≡ 0 + n
zero_plus n = omega arith

-- A timestamp of its own is the one asked for.
wanted_own : (now t : ℕ) → 1 ≤ t → wanted now t ≡ t
wanted_own now t h = ground arith

module _ (header : Header) (c now : ℕ) (regions : List (List Entry)) where
  base : ℕ
  base = base_behind header.header_size regions

  write_all-IsGrowing :
      (new entries : List Entry) (f : File)
      → IsGrowing header c regions entries f
      → AllFit header (newest 0 entries) new
      → newest 0 entries + 2 < 2 ^ 64
      → first_block header base + slot c (length entries + length new) * header.block_size
        ≤ hint_place base
      → (after : File) × (write_all now new f ≡ (ok tt, after))
        × IsGrowing header c regions (entries ++ new) after
  unfolding base
  write_all-IsGrowing [] entries f d fit top room =
      (f, refl, subst (λ es. IsGrowing header c regions es f) (sym (append-nil entries)) d)
  write_all-IsGrowing (e ∷ new) entries f d fit top room =
      let own = wanted_own now e.timestamp (omega (arith, fit.4)) in
      let apart =
        slots_apart c (length entries) (length entries + length (e ∷ new)) header.block_size
          (omega arith) in
      let (t, after, runs, stamp, grown) =
        write_put_block-IsGrowing header c regions now e.application_data e.timestamp 0 e.bytes
          entries f d (omega (arith, apart, room))
          (record {
            is_bytes = fit.0;
            application_data = fit.1;
            asked = omega (arith, own, fit.2);
            not_last = omega (arith, top);
            short = fit.3;
            not_old = λ old. omega (arith, own, old.0, fit.4);
          }) in
      let same : t ≡ e.timestamp = grind (arith, own, stamp.near, fit.4) in
      let grown' : IsGrowing header c regions (entries ++ e ∷ []) after =
        subst
          (λ n.
            IsGrowing header c regions
              (entries
                ++ record { timestamp = n; application_data = e.application_data; bytes = e.bytes }
                  ∷ [])
              after)
          same grown in
      let last : newest 0 (entries ++ e ∷ []) ≡ e.timestamp = newest-append 0 entries e in
      let count : length (entries ++ e ∷ []) + length new ≡ length entries + length (e ∷ new) =
        omega (arith, length-append entries (e ∷ [])) in
      let (end, rest, all) =
        write_all-IsGrowing new (entries ++ e ∷ []) after grown'
          (subst (λ n. AllFit header n new) (sym last) fit.5) (omega (arith, last, fit.2))
          (subst (λ n. first_block header base + slot c n * header.block_size ≤ hint_place base)
            (sym count) room) in
      (
        end,
        bind_ok (write_put_block now e.bytes e.application_data e.timestamp 0)
              (λ _. write_all now new) f after tt runs
            ∙ rest,
        subst (λ es. IsGrowing header c regions es end) (append_assoc entries (e ∷ []) new) all,
      )

-- A fresh device is initialized, entries that fit are written in the order of their timestamps, no
-- more than the first region holds, and a read follows: all of it succeeds, and the read prints
-- just the entries from the timestamp on, in order.
pub init_dev-write_all-read_blocks :
    (position blocksize header_pad padchar c now timestamp_gteq : ℕ) (e : Entry)
    (entries : List Entry) (f : File)
    → IsFresh blocksize header_pad c f
    → IsBlank position f
    → AllFit (seal_header (new_header blocksize header_pad padchar f.size)) 0 (e ∷ entries)
    → header_pad + blocksize + slot c (length (e ∷ entries)) * blocksize ≤ hint_place header_pad
    → (dumps : List Dump) × (after : File) × ((init_dev position blocksize header_pad padchar
            >> (write_all now (e ∷ entries) >>= λ _. read_blocks timestamp_gteq 0))
          f
        ≡ (ok dumps, after))
      × (entries_of dumps ≡ selected timestamp_gteq (e ∷ entries))
unfolding base new_header
init_dev-write_all-read_blocks position blocksize header_pad padchar c now from e entries f v blank
      fit room =
    let header = seal_header (new_header blocksize header_pad padchar f.size) in
    let size : header.header_size ≡ header_pad =
      omega (arith, (v.possible).room, (v.possible).low) in
    let fits : first_block header header.header_size
          + slot c (length {A = Entry} [] + length (e ∷ entries)) * header.block_size
        ≤ hint_place header.header_size =
      subst
        (λ n.
          first_block header header.header_size + slot c n * blocksize
          ≤ hint_place header.header_size)
        (zero_plus (length (e ∷ entries))) (omega (arith, size, room)) in
    let (made, inits, empty) =
      init_dev-IsGrowing position blocksize header_pad padchar c f v blank in
    let (after, writes, grown) =
      write_all-IsGrowing header c now [] (e ∷ entries) [] made empty fit (omega arith) fits in
    let (dumps, q, reads, printed) = read_blocks-Prints header c from ((e ∷ entries) ∷ []) after (
      IsGrowing-HoldsLogs header c [] (e ∷ entries) after grown (omega arith)
        (omega (arith, AllFit-newest header 0 (e ∷ entries) fit (omega arith)))) in
    (
      dumps,
      record after { seek = q },
      bind_ok (init_dev position blocksize header_pad padchar) _ f made tt inits
          ∙ bind_ok (write_all now (e ∷ entries)) (λ _. read_blocks from 0) made after tt writes
          ∙ reads,
      printed ∙ ap (selected from) (append-nil (e ∷ entries)),
    )
