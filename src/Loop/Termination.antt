-- ===== src/Loop/Termination.antt =====
-- src/lib/blocks.c: the loop over the blocks of a region has fuel enough, and keeps what its callback
-- keeps.
use native.Mathlib.Nat.{div-add-mod, mod-lt}
use blockdevlogger.Base.{
  ℕ, zero, suc, ◌+◌, ◌-◌, ◌*◌, ◌/◌, ◌^◌, ◌≤◌, ◌<◌, ◌≡◌, refl, ◌⊎◌, inl, inr, Bool, true, false,
  ◌&&◌, Bool-cases, ltb, leb, ◌==◌, add64, arith,
}
use blockdevlogger.Layout.{Header}
use blockdevlogger.Device.{
  M, pure, fail, leave, AlwaysEnds, Ends-call, Ends-bind, Ends-if, Ends-or_return,
}
use blockdevlogger.Io.Termination.{Any}
use blockdevlogger.Blocks.{HintblockState, block_get_validate_block}
use blockdevlogger.Blocks.Termination.{block_get_validate_block-Ends}
use blockdevlogger.Loop.{
  BlockLoop, BlockView, BlockCallback, loop_ok, loop_err, loop_break, block_round, block_rounds,
  blocks_fuel, block_loop_blocks,
}

-- What holds behind a round: the loop may go on from `Strong`, and ends with `Weak`.
abbrev pub Behind : {A : Type 0} → (A → Type 0) → (A → Type 0) → A → ℕ → Type 0
Behind Strong Weak argument result = (result ≡ loop_break) × Weak argument ⊎ Strong argument

pub Ends-elim :
    {A : Type 0} (P : A → Type 0) (b : Bool) (m n : M A)
    → (b ≡ true → AlwaysEnds P m)
    → (b ≡ false → AlwaysEnds P n)
    → AlwaysEnds P (elim b as (λ x. M A) [ true ↦ m | false ↦ n ])
Ends-elim P true m n h i = h refl
Ends-elim P false m n h i = i refl

pub fuel_left :
    (n i last step : ℕ)
    → i ≤ last
    → last + step < 2 ^ 64
    → last + 1 + step ≤ i + suc n * step
    → (1 ≤ n) × (last + 1 + step ≤ add64 i step + n * step)
fuel_left zero i last step le small enough = absurd (omega arith)
fuel_left (suc n) i last step le small enough =
    let whole : add64 i step ≡ i + step = omega arith in (omega arith, rw whole (omega arith))

module _ {A : Type 0} (header : Header) (state : HintblockState) (callback : BlockCallback A)
    (Strong : A → Type 0) (Weak : A → Type 0) (weaken : (a : A) → Strong a → Weak a)
    (kept : (view : BlockView) (s : BlockLoop A)
      → Strong s.argument
      → AlwaysEnds
          (λ (s' : BlockLoop A). Behind Strong Weak s'.argument s'.result)
          (callback view s))
    (positive : 1 ≤ header.block_size)
    (bounded : state.blockstart_max + header.block_size < 2 ^ 64) where
  After : BlockLoop A → Type 0
  After s = Behind Strong Weak s.argument s.result

  block_round-Ends :
      (length i : ℕ) (s : BlockLoop A)
      → Strong s.argument
      → AlwaysEnds After (block_round header state callback length i s)
  unfolding block_round After
  block_round-Ends length i s h =
      Ends-call Any After 1 (block_get_validate_block i header length) _
        (block_get_validate_block-Ends header i length)
        (λ b g.
          Ends-if After (b.result == 1) (pure (record s { result = loop_break })) _
            (λ f. inl (refl, weaken _ h))
            (Ends-or_return After 1 (callback _ (record s { result = b.result }))
              (kept _ (record s { result = b.result }) h)))

  in_bounds :
      (i : ℕ)
      → (leb i state.blockstart_max && leb i state.hintblock.previous_block_pos) ≡ true
      → i ≤ state.blockstart_max
  in_bounds i e = ground arith

  goes_on : (s : BlockLoop A) → After s → (s.result == loop_break) ≡ false → Strong s.argument
  unfolding After
  goes_on s (inl (e, w)) q = absurd (ground arith)
  goes_on s (inr h) q = h

  block_rounds-Ends :
      (fuel length i : ℕ) (s : BlockLoop A)
      → 1 ≤ fuel
      → state.blockstart_max + 1 + header.block_size ≤ i + fuel * header.block_size
      → Strong s.argument
      → AlwaysEnds After (block_rounds header state callback fuel length i s)
  unfolding block_rounds After
  block_rounds-Ends zero length i s pos enough h f = absurd (omega arith)
  block_rounds-Ends (suc fuel) length i s pos enough h f =
      elim (Bool-cases (leb i state.blockstart_max && leb i state.hintblock.previous_block_pos)) [
        | inr e ↦ rw (block_rounds, e) (inr h)
        | inl e ↦
            let left =
              fuel_left fuel i state.blockstart_max header.block_size (in_bounds i e) bounded
                enough in
            elim (Bool-cases (i == state.backup_location)) [
              | inl e' ↦
                  rw (block_rounds, e, e')
                    (block_rounds-Ends fuel length (add64 i header.block_size) s left.0 left.1 h f)
              | inr e' ↦
                  rw (block_rounds, e, e')
                    (Ends-bind After After (block_round header state callback length i s) _
                      (block_round-Ends length i s h)
                      (λ s' after.
                        Ends-elim After (s'.result == loop_break) (pure s') _ (λ q g. after)
                          (λ q.
                            Ends-elim After (s'.result == loop_err) (fail 1) _ (λ r g. tt)
                              (λ r.
                                block_rounds-Ends fuel length (add64 i header.block_size) s' left.0
                                  left.1 (goes_on s' after q))))
                      f)
            ]
      ]

  -- The loop over the blocks of a region always ends, and keeps what its callback keeps.
  pub block_loop_blocks-Ends :
      (length : ℕ) (argument : A)
      → Strong argument
      → AlwaysEnds
          (λ (s : BlockLoop A). Behind Strong Weak s.argument s.result)
          (block_loop_blocks header state callback length argument)
  unfolding block_loop_blocks After
  block_loop_blocks-Ends length argument h =
      Ends-if After (ltb length header.block_size) leave _ (λ f. tt)
        (block_rounds-Ends (blocks_fuel header state callback) length state.blockstart_min
          (record { argument = argument; result = loop_ok }) (omega arith)
          (blocks_enough ((state.blockstart_max - state.blockstart_min) / header.block_size)) h)
    where
      blocks_enough :
          (q : ℕ)
          → state.blockstart_max + 1 + header.block_size
            ≤ state.blockstart_min
              + ((state.blockstart_max - state.blockstart_min) / header.block_size + 2)
                * header.block_size
      blocks_enough q = omega (
        arith,
        div-add-mod (state.blockstart_max - state.blockstart_min) header.block_size,
        mod-lt (state.blockstart_max - state.blockstart_min) positive,
      )
