-- ===== src/Live/Gapless.antt =====
-- Live streaming (`stream_live_blocks` of src/block_range_scanner/common.rs) leaves no gap, for
-- every behaviour of the provider, the subscription and the receiver.
use event_scanner.Prelude.{
  ℕ, ◌-◌, ◌^◌, ◌≤◌, ◌<◌, ◌≡◌, ◌≢◌, refl, subst, Bool, false, none, some, [], arith, inl, inr,
  Bool-cases,
}
use event_scanner.Types.{Notification, open_channel, closed_channel, from_notification}
use event_scanner.Env.{Env, Block}
use event_scanner.Task.{delivered, Progress, finished, running, panicked}
use event_scanner.Task.Hoare.{
  Trace, Outcome, Hoare, pure-Hoare, bind-Hoare, try_stream-Hoare, weaken-Hoare, fact-Hoare,
  each_pair,
}
use event_scanner.RangeIterator.Step.{block_limit}
use event_scanner.RangeStream.{Item}
use event_scanner.Receiver.{view, view-snoc, IsGapless}
use event_scanner.ReorgHandler.{ReorgHandler}
use event_scanner.Live.{LiveStreamingState}
use event_scanner.Live.Loop.{
  initialize_live_streaming_state, stream_live_blocks, stream_from_first_block,
}
use event_scanner.Live.Served.{IsLawful, AtEnd}
use event_scanner.Receiver.Rules.{ServedTo, Gapless, served→gapless, refused-Gapless, OnOpen}
use event_scanner.Live.Batches.{stream_range-Hoare}
use event_scanner.Live.Turns.{AtTurn}
use event_scanner.Live.Incomings.{stream_blocks_continuously-Hoare, get_first_block-Hoare}

module _ {W H : Type 0} (env : Env W) (reorg_handler : ReorgHandler W H)
    (lawful : IsLawful env reorg_handler) (stream_start size : ℕ) where
  module _ (sized : 1 ≤ size) where
    pub initialize-Hoare :
        (fuel : ℕ) (block : Block) (confirmations : ℕ) (h : H)
        → fuel ≤ 2 ^ 63
        → block.number < block_limit
        → Hoare
            (Gapless stream_start size)
            (ServedTo stream_start size stream_start)
            (initialize_live_streaming_state env reorg_handler fuel block stream_start confirmations
              size h)
            (λ r t.
              Gapless stream_start size t
              × ((state : LiveStreamingState)
                  → r.0 ≡ some state
                  → (AtTurn env reorg_handler lawful stream_start size) state t))
    unfolding initialize_live_streaming_state AtEnd
    initialize-Hoare fuel block confirmations h enough small =
        bind-Hoare (AtEnd stream_start size (block.number - confirmations))
          ((stream_range-Hoare env reorg_handler lawful stream_start size) fuel stream_start
            (block.number - confirmations) h sized (omega arith) enough)
          (each_pair _ (elim [
            | none ↦ λ h'. pure-Hoare _ (λ t p. (p, λ state e. cc))
            | some previous ↦ λ h'. pure-Hoare _ (λ t p.
                let g = served→gapless stream_start size _ t p.0 in
                (
                  g,
                  λ state e.
                      let made : LiveStreamingState = record {
                        batch_start = stream_start;
                        previous_batch_end = some previous;
                      } in
                      let same : made ≡ state = cc e in
                      subst
                        (λ (s : LiveStreamingState).
                          (AtTurn env reorg_handler lawful stream_start size) s t)
                        same (g, (p.0, p.2)),
                ))
          ]))

    pub stream_from_first_block-Hoare :
        (fuel : ℕ) (block : Block) (confirmations : ℕ) (flag : Bool) (h : H)
        → fuel ≤ 2 ^ 63
        → block.number < block_limit
        → Hoare
            (Gapless stream_start size)
            (ServedTo stream_start size stream_start)
            (stream_from_first_block env reorg_handler fuel block stream_start confirmations size
              flag h)
            (λ r. Gapless stream_start size)
    unfolding stream_from_first_block
    stream_from_first_block-Hoare fuel block confirmations flag h enough small =
        bind-Hoare _ (initialize-Hoare fuel block confirmations h enough small) (
          each_pair _ (elim [
            | none ↦ λ h'. pure-Hoare _ (λ t p. p.0)
            | some state ↦ λ h'.
                weaken-Hoare
                  (stream_blocks_continuously-Hoare env reorg_handler lawful stream_start size sized
                    fuel state confirmations flag h' enough)
                  (λ t p. p.1 state refl) (λ r t p. p)
          ]))

    pub stream_live_blocks-Hoare :
        (fuel confirmations : ℕ) (notify : Bool) (h : H)
        → fuel ≤ 2 ^ 63
        → Hoare
            (Gapless stream_start size)
            (ServedTo stream_start size stream_start)
            (stream_live_blocks env reorg_handler fuel stream_start confirmations size notify h)
            (λ r. Gapless stream_start size)
    unfolding stream_live_blocks
    stream_live_blocks-Hoare fuel confirmations notify h enough =
        bind-Hoare _
          (get_first_block-Hoare env reorg_handler lawful stream_start size sized fuel confirmations
            false (served→gapless stream_start size stream_start))
          (each_pair _ (elim [
            | none ↦ λ flag. pure-Hoare _ (λ t p. p.0)
            | some block ↦ λ flag.
                fact-Hoare (λ t p. (p.1 block refl).1)
                  (λ small.
                    let rest =
                      stream_from_first_block-Hoare fuel block confirmations flag h enough small in
                    elim (Bool-cases notify) [
                      | inl told ↦ rw told (
                          bind-Hoare
                            ((OnOpen stream_start size) (ServedTo stream_start size stream_start))
                            (try_stream-Hoare env _
                              (λ t p.
                                rw
                                  (view-snoc stream_start t
                                    (delivered (from_notification Notification.switching_to_live)))
                                  ((p.1 block refl).0))
                              (λ t p. refused-Gapless stream_start size _ t p.0))
                            (elim [
                              | closed_channel ↦ pure-Hoare _ (λ t p. p)
                              | open_channel ↦ rest
                            ]))
                      | inr quiet ↦
                          rw quiet (weaken-Hoare rest (λ t p. (p.1 block refl).0) (λ r t p. p))
                    ])
          ]))

-- While the provider returns the blocks that were asked for, with block numbers below the limit,
-- `max_block_range` is at least 1 and the fuel at most 2 ^ 63, live streaming never panics and
-- leaves no gap, whatever errors, reorgs and headers come in and whether or not the receiver
-- leaves: after any number of turns the ranges that the receiver got since the last reorg
-- notification are consecutive, of at most `max_block_range` blocks each, and begin at the start of
-- the stream if there was no reorg, at or below the block after the common ancestor otherwise (at
-- or below the start, if the ancestor lies before it), and no range reaches more than one block
-- below the start.
pub stream_live_blocks-IsGapless :
    {W H : Type 0} (env : Env W) (reorg_handler : ReorgHandler W H)
    (fuel stream_start confirmations size : ℕ) (notify : Bool) (h : H) (w : W)
    → IsLawful env reorg_handler
    → 1 ≤ size
    → fuel ≤ 2 ^ 63
    → let (outcome, sent, _) =
        stream_live_blocks env reorg_handler fuel stream_start confirmations size notify h w in
      (outcome ≢ panicked) × IsGapless stream_start size (view stream_start sent)
stream_live_blocks-IsGapless env reorg_handler fuel stream_start confirmations size notify h w
      lawful sized enough =
    not_panicked _ _ (
      (stream_live_blocks-Hoare env reorg_handler lawful stream_start size sized fuel confirmations
          notify h enough).run
        [] w
        (record {
          base = stream_start;
          tiled = refl;
          reaches_back = omega arith;
          not_before = omega arith;
          exact = inr refl;
        }))
  where
    not_panicked :
        (o : Progress (Unit {0})) (t : Trace Item)
        → Outcome (Gapless stream_start size) (λ r. Gapless stream_start size) o t
        → (o ≢ panicked) × Gapless stream_start size t
    not_panicked (finished a) t g = (λ e. cc, g)
    not_panicked running t g = (λ e. cc, g)
    not_panicked panicked t g = absurd g
