-- ===== src/Read/Limit.antt =====
-- src/lib/read.c: a read prints no more blocks than its limit, and always ends.
use blockdevlogger.Base.{
  ℕ, ◌^◌, ◌≤◌, ◌<◌, ◌≡◌, ◌≢◌, refl, subst, of_some, inl, inr, ◌&&◌, not, Bool-cases, ltb, leb, ◌==◌,
  if◌then◌else◌, some, [], ◌∷◌, length, length-append, arith,
}
use blockdevlogger.Layout.{Header, hintblock_spacing}
use blockdevlogger.Device.{
  File, pure, leave, Ends, AlwaysEnds, Ends-call, Ends-call_at, Ends-if, Ends-weaken,
}
use blockdevlogger.Blocks.{HintblockState, BlockLocation}
use blockdevlogger.Loop.{
  HintLoop, HintView, BlockLoop, BlockView, loop_ok, loop_break, block_loop_blocks,
  block_loop_hintblocks_large_device,
}
use blockdevlogger.Loop.Termination.{Behind, block_loop_blocks-Ends}
use blockdevlogger.Loop.Regions.{IsShown, block_loop_hintblocks_large_device-Ends}
use blockdevlogger.Read.{
  ReadLoop, dump_block, read_block_loop_callback, check_limit, read_hintblock_loop_callback,
  read_from,
}

module _ (header : Header) (limit : ℕ) (positive : 1 ≤ header.block_size)
    (largest : header.block_size ≤ 8192) (fits : limit < 2 ^ 64) where
  -- The limit has been reached at most, or not yet.
  WithinLimit : ReadLoop → Type 0
  WithinLimit d =
      (d.limit ≡ limit)
      × (limit ≢ 0 → (d.result_count ≡ length d.dumped) × (length d.dumped ≤ limit))

  BelowLimit : ReadLoop → Type 0
  BelowLimit d =
      (d.limit ≡ limit)
      × (limit ≢ 0 → (d.result_count ≡ length d.dumped) × (length d.dumped < limit))

  below_within : (d : ReadLoop) → BelowLimit d → WithinLimit d
  unfolding WithinLimit BelowLimit
  below_within d (e, h) = (e, λ some. ((h some).0, omega (arith, (h some).1)))

  dump_block-WithinLimit :
      (view : BlockView) (d : ReadLoop) → BelowLimit d → WithinLimit (dump_block view d)
  unfolding WithinLimit BelowLimit dump_block
  dump_block-WithinLimit view d (e, h) =
      elim (Bool-cases (leb d.timestamp_gteq (view.block).timestamp)) [
        | inr older ↦ rw older (e, λ some. ((h some).0, omega (arith, (h some).1)))
        | inl newer ↦ rw newer (
          e,
          λ some.
              let one = length-append d.dumped (
                record {
                  block = view.block;
                  block_position = view.block_position;
                  block_data = view.block_data;
                }
                ∷ []) in
              (omega (arith, one, (h some).0, (h some).1), omega (arith, one, (h some).1)),
        )
      ]

  split_limit :
      (d : ReadLoop) (r : ℕ)
      → WithinLimit d
      → Behind BelowLimit WithinLimit d
          (if not (d.limit == 0) && d.result_count == d.limit then loop_break else r)
  unfolding WithinLimit BelowLimit
  split_limit d r (e, h) = elim (Bool-cases (not (d.limit == 0) && d.result_count == d.limit)) [
    | inl reached ↦ rw reached (inl (refl, (e, h)))
    | inr short ↦ inr (e, λ some. ((h some).0, grind (arith, short, e, h some)))
  ]

  block_callback-Ends :
      (view : BlockView) (s : BlockLoop ReadLoop)
      → BelowLimit s.argument
      → AlwaysEnds
          (λ (s' : BlockLoop ReadLoop). Behind BelowLimit WithinLimit s'.argument s'.result)
          (read_block_loop_callback view s)
  unfolding read_block_loop_callback
  block_callback-Ends view s h f =
      split_limit (dump_block view s.argument) s.result (dump_block-WithinLimit view s.argument h)

  Kept : HintLoop ReadLoop → Type 0
  Kept s = Behind BelowLimit WithinLimit s.argument s.result

  check_limit-Ends :
      (s : HintLoop ReadLoop) (blocks : BlockLoop ReadLoop)
      → WithinLimit blocks.argument
      → AlwaysEnds Kept (check_limit s blocks)
  unfolding check_limit Kept WithinLimit BelowLimit
  check_limit-Ends s blocks (e, h) =
      elim (Bool-cases (
        not ((blocks.argument).limit == 0)
        && leb (blocks.argument).limit (blocks.argument).result_count)) [
          | inl full ↦
              rw (check_limit, full)
                (Ends-if Kept (ltb (blocks.argument).limit (blocks.argument).result_count) leave _
                  (λ f. tt) (λ f. inl (refl, (e, h))))
          | inr short ↦
              rw (check_limit, short)
                (λ f. inr (e, λ some. ((h some).0, grind (arith, short, e, h some))))
        ]

  hint_callback-Ends :
      (view : HintView) (s : HintLoop ReadLoop)
      → IsShown header view s.location.hintblock_state
      → BelowLimit s.argument
      → AlwaysEnds Kept (read_hintblock_loop_callback header view s)
  unfolding read_hintblock_loop_callback Kept
  hint_callback-Ends view s shown h =
      let state = s.location.hintblock_state in
      Ends-if Kept (not state.valid) (pure (record s { result = loop_break })) _
        (λ f. inl (refl, below_within s.argument h))
        (Ends-if Kept (ltb state.highest_timestamp (s.argument).timestamp_gteq)
          (pure (record s { result = loop_ok })) _ (λ f. inr h)
          (Ends-call (λ (b : BlockLoop ReadLoop). Behind BelowLimit WithinLimit b.argument b.result)
            Kept 1
            (block_loop_blocks header state read_block_loop_callback header.block_size s.argument)
            (check_limit s)
            (block_loop_blocks-Ends header state read_block_loop_callback BelowLimit WithinLimit
              below_within block_callback-Ends positive
              (omega (arith, shown.blockstart_max, shown.high, largest)) header.block_size
              s.argument h)
            (λ b after. check_limit-Ends s b (behind b after))))
    where
      behind :
          (b : BlockLoop ReadLoop)
          → Behind BelowLimit WithinLimit b.argument b.result
          → WithinLimit b.argument
      behind b (inl (e, w)) = w
      behind b (inr h) = below_within b.argument h

-- What the loop over the blocks of a region leaves of a read: the count is that of the blocks that were
-- printed, these are no more than the limit, and where they are as many, the loop has been told to stop.
pub record StopsAt (limit : ℕ) (b : BlockLoop ReadLoop) : Type 0 where
  pub limit_kept : b.argument.limit ≡ limit
  pub counted : b.argument.result_count ≡ length (b.argument).dumped
  pub bounded : length (b.argument).dumped ≤ limit
  pub stopped : length (b.argument).dumped ≡ limit → b.result ≡ loop_break

StopsAt-Behind :
    (header : Header) (limit : ℕ) (positive : 1 ≤ header.block_size)
    (largest : header.block_size ≤ 8192) (fits : limit < 2 ^ 64) (b : BlockLoop ReadLoop)
    → limit ≢ 0
    → Behind
        (BelowLimit header limit positive largest fits)
        (WithinLimit header limit positive largest fits)
        b.argument
        b.result
    → StopsAt limit b
unfolding WithinLimit BelowLimit
StopsAt-Behind header limit positive largest fits b limited (inl (told, w)) = record {
  limit_kept = w.0;
  counted = (w.1 limited).0;
  bounded = (w.1 limited).1;
  stopped = λ q. told;
}
StopsAt-Behind header limit positive largest fits b limited (inr w) = record {
  limit_kept = w.0;
  counted = (w.1 limited).0;
  bounded = omega (arith, (w.1 limited).1);
  stopped = λ q. absurd (omega (arith, q, (w.1 limited).1));
}

-- A read with a limit other than 0, of 64 bits, that has printed fewer blocks than its limit: the loop over
-- the blocks of the next region, with a block size of 1 to 8192 bytes and positions below 2^63, always
-- ends, and where it succeeds, the read has printed no more blocks than the limit, counts them right,
-- and has been told to stop if they are as many.
pub read_block_loop_callback-StopsAt :
    (header : Header) (state : HintblockState) (d : ReadLoop) (f : File)
    → 1 ≤ header.block_size
    → header.block_size ≤ 8192
    → state.blockstart_max < 2 ^ 63
    → d.limit < 2 ^ 64
    → d.limit ≢ 0
    → d.result_count ≡ length d.dumped
    → length d.dumped < d.limit
    → Ends
        (StopsAt d.limit)
        (block_loop_blocks header state read_block_loop_callback header.block_size d f)
unfolding WithinLimit BelowLimit
read_block_loop_callback-StopsAt header state d f positive largest low fits limited counted below =
    Ends-weaken _ (StopsAt d.limit)
      (λ b. StopsAt-Behind header d.limit positive largest fits b limited)
      (block_loop_blocks header state read_block_loop_callback header.block_size d f)
      (block_loop_blocks-Ends header state read_block_loop_callback
        (BelowLimit header d.limit positive largest fits)
        (WithinLimit header d.limit positive largest fits)
        (below_within header d.limit positive largest fits)
        (block_callback-Ends header d.limit positive largest fits) positive
        (omega (arith, low, largest)) header.block_size d (refl, λ nonzero. (counted, below)) f)

-- The same of a whole read, from the hint block where it begins.
pub read_from-Ends :
    (header : Header) (timestamp_gteq limit : ℕ) (location : BlockLocation) (f : File)
    → 1 ≤ header.block_size
    → header.block_size ≤ 8192
    → header.header_size < 2 ^ 32
    → limit < 2 ^ 64
    → f.size < 2 ^ 63
    → hintblock_spacing ≤ location.hintblock_state.location
    → location.hintblock_state.location < 2 ^ 63
    → Ends
        (λ dumps. limit ≢ 0 → length dumps ≤ limit)
        (read_from header timestamp_gteq limit location f)
unfolding read_from Kept WithinLimit BelowLimit
read_from-Ends header ts limit location f positive largest narrow fits size low high =
    elim (Bool-cases (not location.hintblock_state.valid)) [
      | inl e ↦ rw (read_from, e) (λ some. omega arith)
      | inr e ↦
          rw (read_from, e)
            (Ends-call_at
              (λ (s : HintLoop ReadLoop). WithinLimit header limit positive largest fits s.argument)
              (λ dumps. limit ≢ 0 → length dumps ≤ limit) 1
              (block_loop_hintblocks_large_device header (read_hintblock_loop_callback header)
                (some location) start)
              (λ s. pure (s.argument).dumped) f
              (block_loop_hintblocks_large_device-Ends header (read_hintblock_loop_callback header)
                (BelowLimit header limit positive largest fits)
                (WithinLimit header limit positive largest fits)
                (below_within header limit positive largest fits)
                (hint_callback-Ends header limit positive largest fits) largest (some location)
                start f size narrow (λ l q. at l (of_some location l q))
                (refl, λ nonzero. (refl, omega (arith, nonzero))))
              (λ s w g nonzero. (w.1 nonzero).1))
    ]
  where
    start : ReadLoop
    start = record { timestamp_gteq = ts; limit = limit; result_count = 0; dumped = [] }

    at :
        (l : BlockLocation)
        → location ≡ l
        → (hintblock_spacing ≤ l.hintblock_state.location) × (l.hintblock_state.location < 2 ^ 63)
    at l q =
        subst
          (λ (x : BlockLocation).
            (hintblock_spacing ≤ x.hintblock_state.location)
            × (x.hintblock_state.location < 2 ^ 63))
          q (low, high)
