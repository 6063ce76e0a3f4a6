-- ===== src/Live/Turns.antt =====
-- One turn of `stream_blocks_continuously` of src/block_range_scanner/common.rs.
use event_scanner.Prelude.{
  ℕ, ◌+◌, ◌-◌, ◌^◌, ◌≤◌, ◌<◌, ◌≡◌, refl, ap, Option, none, some, [], ◌∷◌, ◌++◌, ltb, arith, add_u64,
  inl, inr, Bool-cases,
}
use event_scanner.Types.{
  ok, err, Notification, ChannelState, open_channel, closed_channel, from_notification,
}
use event_scanner.Env.{Env, Block}
use event_scanner.Task.{delivered}
use event_scanner.Task.Hoare.{
  Trace, Hoare, pure-Hoare, call-Hoare, bind-Hoare, try_stream-Hoare, weaken-Hoare, fact-Hoare,
  each_pair,
}
use event_scanner.RangeIterator.Step.{block_limit, after}
use event_scanner.RangeStream.{Item}
use event_scanner.ReorgHandler.{ReorgHandler}
use event_scanner.Live.{LiveStreamingState, handle_reorg_detected, state_after_reorg}
use event_scanner.Live.Loop.{stream_next_batch, handle_incoming_block}
use event_scanner.Live.Served.{IsLawful, AtEnd}
use event_scanner.Receiver.Rules.{
  ServedTo, Gapless, served→gapless, refused-Gapless, OnOpen, report-Hoare, reorg_restarts,
}
use event_scanner.Live.Batches.{stream_range-Hoare}

module _ {W H : Type 0} (env : Env W) (reorg_handler : ReorgHandler W H)
    (lawful : IsLawful env reorg_handler) (stream_start size : ℕ) where
  abbrev pub PreviousServed : Option Block → Trace Item → Type 0
  PreviousServed none t = Unit
  PreviousServed (some block) t =
      ServedTo stream_start size (block.number + 1) t × (block.number < block_limit)

  -- What the state of live streaming says of the receiver.
  unfoldable pub AtState : LiveStreamingState → Trace Item → Type 0
  AtState state t =
      ServedTo stream_start size state.batch_start t × PreviousServed state.previous_batch_end t

  pub AtState-Gapless :
      (state : LiveStreamingState) (t : Trace Item) → AtState state t → Gapless stream_start size t
  unfolding AtState
  AtState-Gapless state t p = served→gapless stream_start size state.batch_start t p.0

  pub AtState-after_reorg :
      (ancestor : Block) (t : Trace Item)
      → ancestor.number < block_limit
      → AtState
          (state_after_reorg ancestor stream_start)
          (t ++ (delivered (from_notification (Notification.reorg_detected ancestor.number)) ∷ []))
  unfolding AtState state_after_reorg
  AtState-after_reorg ancestor t small =
      let at = reorg_restarts stream_start size ancestor.number in
      elim (Bool-cases (ltb ancestor.number stream_start)) [
        | inl before ↦ rw before (at stream_start t (omega arith) (omega arith), tt)
        | inr after ↦
            let started : stream_start ≤ ancestor.number = ground (arith, after) in
            let e : add_u64 ancestor.number 1 ≡ ancestor.number + 1 = omega arith in
            let there = at (ancestor.number + 1) t (omega arith) (omega arith) in
            rw (after, e) (there, (there, small))
      ]

  -- Between turns the previous batch's end is what counts: `batch_start` is set anew by each turn.
  abbrev pub AtTurn : LiveStreamingState → Trace Item → Type 0
  AtTurn state t = Gapless stream_start size t × PreviousServed state.previous_batch_end t

  pub AtState-AtTurn :
      (state : LiveStreamingState) (t : Trace Item) → AtState state t → AtTurn state t
  unfolding AtState
  AtState-AtTurn state t p = (served→gapless stream_start size state.batch_start t p.0, p.1)

  -- What a turn of the loop leaves: it goes on only in a state that tells the truth.
  abbrev pub Turned : ChannelState × LiveStreamingState × H → Trace Item → Type 0
  Turned (state, streaming, h) t =
      Gapless stream_start size t × (state ≡ open_channel → AtTurn streaming t)

  pub handle_reorg_detected-Hoare :
      (ancestor : Block) (state : LiveStreamingState)
      → ancestor.number < block_limit
      → Hoare
          (Gapless stream_start size)
          (Gapless stream_start size)
          (handle_reorg_detected env reorg_handler ancestor stream_start state)
          (λ r t. Gapless stream_start size t × (r.0 ≡ open_channel → AtState r.1 t))
  unfolding handle_reorg_detected
  handle_reorg_detected-Hoare ancestor state small =
      bind-Hoare ((OnOpen stream_start size) (AtState (state_after_reorg ancestor stream_start)))
        (try_stream-Hoare env _ (λ t p. AtState-after_reorg ancestor t small)
          (λ t p. refused-Gapless stream_start size _ t p))
        (elim [
          | closed_channel ↦ pure-Hoare _ (λ t p. (p, λ e. cc))
          | open_channel ↦ pure-Hoare _ (λ t p. (AtState-Gapless _ t p, λ e. p))
        ])

  module _ (sized : 1 ≤ size) (fuel : ℕ) (enough : fuel ≤ 2 ^ 63) where
    pub stream_next_batch-Hoare :
        (batch_end_num : ℕ) (state : LiveStreamingState) (h : H)
        → batch_end_num < block_limit
        → Hoare
            (Gapless stream_start size)
            (AtState state)
            (stream_next_batch env reorg_handler fuel batch_end_num state stream_start size h)
            Turned
    unfolding stream_next_batch AtEnd AtState
    stream_next_batch-Hoare batch_end_num state h small =
        elim (Bool-cases (ltb batch_end_num state.batch_start)) [
          | inl nothing ↦
              rw (nothing, stream_next_batch)
                (pure-Hoare _ (λ t p. (AtState-Gapless state t p, λ e. AtState-AtTurn state t p)))
          | inr batch ↦
              rw (batch, stream_next_batch)
                (bind-Hoare (AtEnd stream_start size batch_end_num)
                  (weaken-Hoare
                    ((stream_range-Hoare env reorg_handler lawful stream_start size) fuel
                      state.batch_start batch_end_num h sized small enough)
                    (λ t p. p.0) (λ b t p. p))
                  (each_pair _ (elim [
                    | none ↦ λ h'. pure-Hoare _ (λ t p. (p, λ e. cc))
                    | some block ↦ λ h'. pure-Hoare _ (λ t p.
                        let g = served→gapless stream_start size _ t p.0 in
                        (g, λ e. (g, (p.0, p.2))))
                  ])))
        ]

    -- One turn of the loop, whatever the reorg check says.
    pub handle_incoming_block-Hoare :
        (incoming : Block) (batch_start : ℕ) (previous : Option Block) (confirmations : ℕ) (h : H)
        → incoming.number < block_limit
        → Hoare
            (Gapless stream_start size)
            (AtTurn (record { batch_start = batch_start; previous_batch_end = previous }))
            (handle_incoming_block env reorg_handler fuel incoming
              (record { batch_start = batch_start; previous_batch_end = previous })
              stream_start
              confirmations
              size
              h)
            Turned
    unfolding handle_incoming_block AtState
    handle_incoming_block-Hoare incoming batch_start none confirmations h small =
        let state : LiveStreamingState = record {
          batch_start = batch_start;
          previous_batch_end = none;
        } in
        pure-Hoare _ (λ t p. (p.0, λ e. p))
    handle_incoming_block-Hoare incoming batch_start (some previous) confirmations h small =
        let state : LiveStreamingState = record {
          batch_start = batch_start;
          previous_batch_end = some previous;
        } in
        bind-Hoare
          (λ r t. AtTurn state t × ((a : Block) → r.0 ≡ ok (some a) → a.number < block_limit))
          (call-Hoare _ (λ w t p. (p, λ a. lawful.ancestors h previous w a)))
          (each_pair _ (elim [
            | err e ↦ λ h'.
                weaken-Hoare
                  ((report-Hoare stream_start size env) e (closed_channel, state, h') (λ t p. p.0))
                  (λ t p. p.0)
                  (λ r t p. (
                    p.0,
                    λ opened.
                        cc (opened, ap (λ (c : ChannelState × LiveStreamingState × H). c.0) p.1),
                  ))
            | ok none ↦ λ h'.
                fact-Hoare (λ t p. p.0.1.1)
                  (λ previous_small.
                    let next : add_u64 previous.number 1 ≡ previous.number + 1 = omega arith in
                    weaken-Hoare
                      (stream_next_batch-Hoare (incoming.number - confirmations)
                        (record {
                          batch_start = add_u64 previous.number 1;
                          previous_batch_end = some previous;
                        })
                        h' (omega arith))
                      (λ t p. (rw next p.0.1.0, p.0.1)) (λ r t p. p))
            | ok (some ancestor) ↦ λ h'.
                fact-Hoare (λ t p. p.1 ancestor refl)
                  (λ ancestor_small.
                    bind-Hoare
                      (λ r t. Gapless stream_start size t × (r.0 ≡ open_channel → AtState r.1 t))
                      (weaken-Hoare (handle_reorg_detected-Hoare ancestor state ancestor_small)
                        (λ t p. p.0.0) (λ r t p. p))
                      (each_pair _ (elim [
                        | closed_channel ↦ λ state'. pure-Hoare _ (λ t p. (p.0, λ e. cc))
                        | open_channel ↦ λ state'.
                            weaken-Hoare
                              (stream_next_batch-Hoare (incoming.number - confirmations) state' h'
                                (omega arith))
                              (λ t p. p.1 refl) (λ r t p. p)
                      ])))
          ]))
