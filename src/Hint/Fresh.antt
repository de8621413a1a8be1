-- ===== src/Hint/Fresh.antt =====
-- src/lib/blocks.c: the state of a hint block that has never been written, nor its backup.
use blockdevlogger.Base.{ℕ, ◌+◌, ◌<◌, ◌≡◌, ◌≢◌, refl, ◌∙◌, false, ◌==◌, sub64, arith}
use blockdevlogger.Layout.{Header, backup_distance}
use blockdevlogger.Device.{File, ok, bind_return_ok}
use blockdevlogger.Validate.Laws.{hint_result}
use blockdevlogger.Blocks.{block_get_valid_hintblock}
use blockdevlogger.Blocks.Laws.{hint_at, read_hint, block_get_valid_hintblock_lem}
use blockdevlogger.Hint.{
  initial_state, block_hintblock_recover_backup, state_from_backup, block_get_hintblock_state,
}
use blockdevlogger.Hint.Laws.{IsReadable, found_state}

-- Without a valid hint block and a valid backup the state is not valid, and nothing is changed.
pub block_get_hintblock_state_fresh :
    (h lo hi : ℕ) (header : Header) (f : File)
    → IsReadable f header
    → hint_result (hint_at f.contents h) ≢ 0
    → hint_result (hint_at f.contents (sub64 h backup_distance)) ≢ 0
    → h + 24 < f.size
    → sub64 h backup_distance + 24 < f.size
    → block_get_hintblock_state h header lo hi f ≡ (
      ok (record (initial_state h lo hi) {
        hintblock = hint_at f.contents (sub64 h backup_distance);
      }),
      record f { seek = sub64 h backup_distance },
    )
unfolding block_get_hintblock_state state_from_backup block_hintblock_recover_backup
block_get_hintblock_state_fresh h lo hi header f r bad bad_backup room room' =
    let k = sub64 h backup_distance in
    let first : (hint_result (hint_at f.contents h) == 0) ≡ false = ground (arith, bad) in
    let second : (hint_result (hint_at f.contents k) == 0) ≡ false = ground (arith, bad_backup) in
    bind_return_ok 1 (block_get_valid_hintblock h header) _ f (record f { seek = h })
      (read_hint f.contents h)
      (block_get_valid_hintblock_lem h header f r.works r.fits room r.algorithm)
    ∙ rw first (
        bind_return_ok 1 (block_hintblock_recover_backup header (found_state f.contents h lo hi)) _
          (record f { seek = h }) (record f { seek = k })
          (record {
            result = hint_result (hint_at f.contents k);
            state = record (initial_state h lo hi) { hintblock = hint_at f.contents k };
          })
          (bind_return_ok 1 (block_get_valid_hintblock k header) _ (record f { seek = h })
              (record f { seek = k }) (read_hint f.contents k)
              (block_get_valid_hintblock_lem k header (record f { seek = h }) r.works r.fits room'
                r.algorithm)
            ∙ rw second refl)
        ∙ rw second refl)
