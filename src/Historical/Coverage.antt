-- ===== src/Historical/Coverage.antt =====
-- The historical handler serves its whole range, for every behaviour of the provider and the
-- receiver.
use native.Mathlib.Nat.{div-le_self}
use event_scanner.Prelude.{
  ℕ, zero, suc, ◌+◌, ◌-◌, ◌≤◌, ◌<◌, ◌≡◌, refl, subst, min, max, Option, none, some, [], ltb, arith,
  add_u64, inl, inr, Bool-cases,
}
use event_scanner.Types.{ok, err, ChannelState, open_channel, closed_channel}
use event_scanner.Env.{Env, Block}
use event_scanner.Task.{Progress, finished, running, panicked}
use event_scanner.Task.Hoare.{
  Trace, Outcome, Hoare, pure-Hoare, call-Hoare, still_running-Hoare, or_panic_some-Hoare,
  bind-Hoare, try_stream-Hoare, weaken-Hoare, fact-Hoare,
}
use event_scanner.RangeIterator.{RangeIterator, forward, collect_forward}
use event_scanner.RangeIterator.Tiling.{TilesUp}
use event_scanner.RangeIterator.Forward.{forward-TilesUp}
use event_scanner.RangeIterator.Step.{block_limit, forward-IsReady}
use event_scanner.RangeStream.{Item}
use event_scanner.Receiver.{View, view, Served, IsGapless}
use event_scanner.Receiver.Rules.{
  ServedTo, Gapless, served→gapless, error_keeps, refused_keeps, refused-Gapless, reorg_restarts,
  OnOpen, stream_ranges-Hoare, report-Hoare,
}
use event_scanner.Historical.{
  HistoricalRangeHandler, unwrap_or, stream_finalized_blocks, get_reorged_end_block,
  stream_until_stable, stream_non_finalized_blocks, handle_stream_historical_range,
}

-- The iterator that a valid handler makes, and the ranges that it yields.
pub forward_tiles :
    (start end size : ℕ)
    → 1 ≤ size
    → end < block_limit
    → (iter : RangeIterator) × (forward start end size ≡ some iter)
      × TilesUp size start (max start (end + 1)) (collect_forward iter)
forward_tiles start end size sized small =
    let (iter, made, ready, _, _, _) = forward-IsReady 0 start end size sized small (omega arith) in
    (
      iter,
      made,
      (forward-TilesUp start end size made (omega arith)
          (omega (arith, div-le_self (end - start) size))).0,
    )

module _ {W : Type 0} (env : Env W) (h : HistoricalRangeHandler) (sized : 1 ≤ h.max_block_range)
    (small : h.end < block_limit) (origin : ℕ) (after : origin ≤ h.start) where
  open h use {start, end, max_block_range as size}

  -- Where the finalized phase leaves the receiver.
  abbrev AfterFinalized : Option (ℕ × ℕ) → Trace Item → Type 0
  AfterFinalized none t = Gapless origin size t
  AfterFinalized (some (next, finalized)) t =
      ServedTo origin size next t × (next ≡ max start (min finalized end + 1))

  stream_finalized_blocks-Hoare :
      Hoare
        (Gapless origin size)
        (ServedTo origin size start)
        (stream_finalized_blocks env h)
        AfterFinalized
  unfolding stream_finalized_blocks
  stream_finalized_blocks-Hoare =
      bind-Hoare (λ answer. ServedTo origin size start) (call-Hoare _ (λ w t p. p))
        (λ answer.
          let upto = min (unwrap_or answer 0) end in
          let (iter, made, tiles) = forward_tiles start upto size sized (omega arith) in
          let no_wrap : add_u64 upto 1 ≡ upto + 1 = omega arith in
          rw made (
            or_panic_some-Hoare _ (
              bind-Hoare (OnOpen origin size (ServedTo origin size (max start (upto + 1))))
                (stream_ranges-Hoare origin size env (collect_forward iter) start
                  (max start (upto + 1)) tiles)
                (elim [
                  | closed_channel ↦ pure-Hoare _ (λ t p. p)
                  | open_channel ↦ rw no_wrap (pure-Hoare _ (λ t p. (p, refl)))
                ]))))

  -- Fetching the end block anew takes nothing from the receiver.
  get_reorged_end_block-Hoare :
      (end_block : Block) (upto : ℕ)
      → Hoare
          (Gapless origin size)
          (ServedTo origin size upto)
          (get_reorged_end_block env end_block)
          (λ r. ServedTo origin size upto)
  unfolding get_reorged_end_block
  get_reorged_end_block-Hoare end_block upto =
      bind-Hoare (λ answer. ServedTo origin size upto) (call-Hoare _ (λ w t p. p))
        (elim [
          | err e ↦
              bind-Hoare (λ state. ServedTo origin size upto)
                (try_stream-Hoare env _ (λ t s. error_keeps origin size _ upto t s)
                  (λ t s. refused_keeps origin size _ upto t s))
                (λ state. pure-Hoare none (λ t s. s))
          | ok block ↦ pure-Hoare _ (λ t s. s)
        ])

  module _ (next common_ancestor : ℕ) (within : next ≤ end)
      (reach : next ≤ max (common_ancestor + 1) origin) (not_below : start ≤ next) where
    stream_until_stable-Hoare :
        (fuel : ℕ) (end_block : Block)
        → Hoare
            (Gapless origin size)
            (ServedTo origin size next)
            (stream_until_stable env h fuel next common_ancestor end_block)
            (OnOpen origin size (ServedTo origin size (end + 1)))
    unfolding stream_until_stable
    stream_until_stable-Hoare zero end_block = still_running-Hoare (served→gapless origin size next)
    stream_until_stable-Hoare (suc fuel) end_block =
        let (iter, made, tiles) = forward_tiles next end size sized small in
        let all : max next (end + 1) ≡ end + 1 = omega arith in
        rw (made, stream_until_stable)
          (or_panic_some-Hoare _ (
            bind-Hoare (OnOpen origin size (ServedTo origin size (end + 1)))
              (stream_ranges-Hoare origin size env (collect_forward iter) next (end + 1)
                (rw all at tiles))
              (elim [
                | closed_channel ↦ pure-Hoare _ (λ t p. p)
                | open_channel ↦
                    bind-Hoare (λ r. ServedTo origin size (end + 1))
                      (get_reorged_end_block-Hoare end_block (end + 1))
                      (elim [
                        | none ↦ pure-Hoare _ (λ t p. p)
                        | some new_end_block ↦
                            bind-Hoare (OnOpen origin size (ServedTo origin size next))
                              (try_stream-Hoare env _
                                (λ t p.
                                  reorg_restarts origin size common_ancestor next t reach
                                    (omega arith))
                                (λ t p.
                                  refused-Gapless origin size _ t
                                    (served→gapless origin size (end + 1) t p)))
                              (elim [
                                | closed_channel ↦ pure-Hoare _ (λ t p. p)
                                | open_channel ↦ stream_until_stable-Hoare fuel new_end_block
                              ])
                      ])
              ])))

  module _ (ordered : start ≤ end) where
    stream_non_finalized_blocks-Hoare :
        (fuel next finalized : ℕ)
        → next ≤ end
        → start ≤ next
        → Hoare
            (Gapless origin size)
            (ServedTo origin size next)
            (stream_non_finalized_blocks env h fuel next finalized)
            (OnOpen origin size (ServedTo origin size (end + 1)))
    unfolding stream_non_finalized_blocks
    stream_non_finalized_blocks-Hoare fuel next finalized within not_below =
        bind-Hoare (λ answer. ServedTo origin size next) (call-Hoare _ (λ w t p. p))
          (elim [
            | err e ↦
                weaken-Hoare
                  (report-Hoare origin size env _ closed_channel (served→gapless origin size next))
                  (λ t p. p)
                  (λ r t p.
                    let shut : closed_channel ≡ r = cc p.1 in
                    subst (λ c. OnOpen origin size (ServedTo origin size (end + 1)) c t) shut p.0)
            | ok end_block ↦
                stream_until_stable-Hoare next (max (next - 1) finalized) within (omega arith)
                  not_below fuel end_block
          ])

    pub handle-Hoare :
        (fuel : ℕ)
        → Hoare
            (Gapless origin size)
            (ServedTo origin size start)
            (handle_stream_historical_range env h fuel)
            (OnOpen origin size (ServedTo origin size (end + 1)))
    unfolding handle_stream_historical_range
    handle-Hoare fuel = bind-Hoare AfterFinalized stream_finalized_blocks-Hoare (elim [
      | none ↦ pure-Hoare _ (λ t p. p)
      | some (next, finalized) ↦
          fact-Hoare (λ t p. p.1)
            (λ at. elim (Bool-cases (ltb end next)) [
              | inl past ↦
                  let all : next ≡ end + 1 = ground (arith, at, past, ordered) in
                  rw past (pure-Hoare _ (λ t p. rw (← all) p.0))
              | inr more ↦ rw more (
                  weaken-Hoare
                    (stream_non_finalized_blocks-Hoare fuel next finalized (ground (arith, more))
                      (omega (arith, at)))
                    (λ t p. p.0) (λ r t p. p))
            ])
    ])

-- What a receiver has of a range when the handler is done with it.
abbrev pub IsServed : ℕ → ℕ → ℕ → Progress ChannelState → View → Type 0
IsServed start end size (finished open_channel) v = Served start size (end + 1) v
IsServed start end size (finished closed_channel) v = IsGapless start size v
IsServed start end size running v = IsGapless start size v
IsServed start end size panicked v = ⊥

-- For a range of blocks below the limit whose start is at or below its end, and a `max_block_range`
-- of at least 1, the historical handler never panics, and when it ends with the channel open the
-- ranges that the receiver got since the last reorg notification are consecutive, of at most
-- `max_block_range` blocks, begin at the start of the range if there was no reorg and at or below
-- the block to resume at otherwise, and reach the end of the requested range, whatever the provider
-- answers. When it is cut short they have no gap either.
pub handle_stream_historical_range_serves :
    {W : Type 0} (env : Env W) (h : HistoricalRangeHandler) (fuel : ℕ) (w : W)
    → 1 ≤ h.max_block_range
    → h.end < block_limit
    → h.start ≤ h.end
    → let (outcome, sent, _) = handle_stream_historical_range env h fuel w in
      IsServed h.start h.end h.max_block_range outcome (view h.start sent)
handle_stream_historical_range_serves env h fuel w sized small ordered = served _ _ (
    (handle-Hoare env h sized small h.start (omega arith) ordered fuel).run [] w (record {
      base = h.start;
      tiled = refl;
      reaches_back = omega arith;
      not_before = omega arith;
      exact = inr refl;
    }))
  where
    served :
        (o : Progress ChannelState) (t : Trace Item)
        → Outcome
            (Gapless h.start h.max_block_range)
            (OnOpen h.start h.max_block_range (ServedTo h.start h.max_block_range (h.end + 1)))
            o
            t
        → IsServed h.start h.end h.max_block_range o (view h.start t)
    served (finished open_channel) t p = p
    served (finished closed_channel) t p = p
    served running t p = p
    served panicked t p = p
