-- ===== src/Hint/Termination.antt =====
-- src/lib/blocks.c: finding the state of a hint block always ends, and the state keeps the place and
-- the bounds of its region.
use blockdevlogger.Base.{ℕ, ◌≡◌, refl, not, ◌==◌}
use blockdevlogger.Layout.{Header}
use blockdevlogger.Device.{pure, AlwaysEnds, Ends-call, Ends-if}
use blockdevlogger.Io.Termination.{Any}
use blockdevlogger.Blocks.{
  HintblockState, block_get_valid_hintblock, block_hintblock_get_last_block,
}
use blockdevlogger.Blocks.Termination.{
  block_get_valid_hintblock-Ends, block_hintblock_get_last_block-Ends,
}
use blockdevlogger.Put.{write_update_hintblock}
use blockdevlogger.Put.Termination.{write_update_hintblock-Ends}
use blockdevlogger.Hint.{
  Recovered, restore, block_hintblock_recover_backup, check_last_block, initial_state, reread,
  state_from_backup, state_from_primary, block_get_hintblock_state,
}

-- The place of the hint block and the bounds of the region.
abbrev pub InRegion : ℕ → ℕ → ℕ → HintblockState → Type 0
InRegion pos lo hi state =
    (state.location ≡ pos) × (state.blockstart_min ≡ lo) × (state.blockstart_max ≡ hi)

module _ (header : Header) (pos lo hi : ℕ) where
  Recovers : Recovered → Type 0
  Recovers r = InRegion pos lo hi r.state

  restore-Ends :
      (s : HintblockState) → InRegion pos lo hi s → AlwaysEnds Recovers (restore header s)
  unfolding restore Recovers
  restore-Ends s h =
      Ends-call Any Recovers 1 (write_update_hintblock _ _ _ _ header) _
        (write_update_hintblock-Ends header _ _ _ _) (λ a i f. h)

  recover-Ends :
      (s : HintblockState)
      → InRegion pos lo hi s
      → AlwaysEnds Recovers (block_hintblock_recover_backup header s)
  unfolding block_hintblock_recover_backup Recovers
  recover-Ends s h =
      Ends-call Any Recovers 1 (block_get_valid_hintblock s.backup_location header) _
        (block_get_valid_hintblock-Ends header s.backup_location)
        (λ b i.
          Ends-if Recovers (not (b.result == 0))
            (pure (record { result = b.result; state = record s { hintblock = b.hintblock } })) _
            (λ f. h) (restore-Ends (record s { hintblock = b.hintblock }) h))

  check_last_block-Ends :
      (s : HintblockState)
      → InRegion pos lo hi s
      → AlwaysEnds (InRegion pos lo hi) (check_last_block s header)
  unfolding check_last_block
  check_last_block-Ends s h =
      Ends-call Any (InRegion pos lo hi) 1 (block_hintblock_get_last_block s header) _
        (block_hintblock_get_last_block-Ends header s)
        (λ b i. Ends-if (InRegion pos lo hi) (not (b.result == 0)) (pure s) _ (λ f. h) (λ f. h))

  from_backup-Ends :
      (s : HintblockState)
      → InRegion pos lo hi s
      → AlwaysEnds (InRegion pos lo hi) (state_from_backup pos header s)
  unfolding state_from_backup reread Recovers
  from_backup-Ends s h =
      Ends-call Recovers (InRegion pos lo hi) 1 (block_hintblock_recover_backup header s) _
        (recover-Ends s h)
        (λ r i.
          Ends-if (InRegion pos lo hi) (r.result == 0) (reread pos header r) (pure r.state)
            (Ends-call Any (InRegion pos lo hi) 1 (block_get_valid_hintblock pos header) _
              (block_get_valid_hintblock-Ends header pos)
              (λ b j. check_last_block-Ends (record (r.state) { hintblock = b.hintblock }) i))
            (λ f. i))

  -- Finding the state of a hint block always ends, and the state has the given place and bounds.
  pub block_get_hintblock_state-Ends :
      AlwaysEnds (InRegion pos lo hi) (block_get_hintblock_state pos header lo hi)
  unfolding block_get_hintblock_state state_from_primary
  block_get_hintblock_state-Ends =
      Ends-call Any (InRegion pos lo hi) 1 (block_get_valid_hintblock pos header) _
        (block_get_valid_hintblock-Ends header pos)
        (λ b i.
          let s : HintblockState = record (initial_state pos lo hi) { hintblock = b.hintblock } in
          Ends-if (InRegion pos lo hi) (not (b.result == 0)) (state_from_backup pos header s) _
            (from_backup-Ends s (refl, refl, refl))
            (Ends-if (InRegion pos lo hi) _ (pure s) _ (λ f. (refl, refl, refl))
              (check_last_block-Ends s (refl, refl, refl))))
