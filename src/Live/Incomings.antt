-- ===== src/Live/Incomings.antt =====
-- What comes in from the subscription, and the loop over it, leaves no gap.
use event_scanner.Prelude.{
  ℕ, zero, suc, ◌^◌, ◌≤◌, ◌<◌, ◌≡◌, refl, ap, Bool, false, Option, none, some, arith, inl, inr,
  Bool-cases, Option-cases,
}
use event_scanner.Types.{ok, err, open_channel, closed_channel}
use event_scanner.Env.{Env, Block}
use event_scanner.Task.Hoare.{
  Trace, Hoare, pure-Hoare, call-Hoare, still_running-Hoare, bind-Hoare, weaken-Hoare, fact-Hoare,
  each_pair, each_triple,
}
use event_scanner.RangeIterator.Step.{block_limit}
use event_scanner.RangeStream.{Item}
use event_scanner.ReorgHandler.{ReorgHandler}
use event_scanner.Live.{LiveStreamingState, next_relevant, get_first_block, is_skipped, reported}
use event_scanner.Live.Loop.{stream_blocks_continuously}
use event_scanner.Live.Served.{IsLawful}
use event_scanner.Receiver.Rules.{Gapless, report-Hoare}
use event_scanner.Live.Turns.{AtTurn, Turned, handle_incoming_block-Hoare}

module _ {W H : Type 0} (env : Env W) (reorg_handler : ReorgHandler W H)
    (lawful : IsLawful env reorg_handler) (stream_start size : ℕ) where
  -- What comes in, once what is skipped is gone.
  pub next_relevant-Hoare :
      (fuel confirmations : ℕ) (flag : Bool) {P : Trace Item → Type 0}
      → ((t : Trace Item) → P t → Gapless stream_start size t)
      → Hoare
          (Gapless stream_start size)
          P
          (next_relevant env reorg_handler fuel stream_start confirmations flag)
          (λ r t. P t × ((b : Block) → r.0 ≡ some (ok b) → b.number < block_limit))
  unfolding next_relevant
  next_relevant-Hoare zero confirmations flag keep = still_running-Hoare keep
  next_relevant-Hoare (suc fuel) confirmations flag {P} keep =
      bind-Hoare (λ r t. P t × ((b : Block) → r ≡ some (ok b) → b.number < block_limit))
        (call-Hoare _ (λ w t p. (p, lawful.headers w)))
        (elim [
          | none ↦ pure-Hoare _ (λ t p. p)
          | some item ↦ elim (Bool-cases flag) [
            | inl started ↦ rw started (pure-Hoare _ (λ t p. p))
            | inr waiting ↦ elim (Bool-cases (is_skipped stream_start confirmations item)) [
              | inl skipped ↦
                  rw (waiting, skipped)
                    (weaken-Hoare (next_relevant-Hoare fuel confirmations false keep) (λ t p. p.0)
                      (λ r t p. p))
              | inr relevant ↦ rw (waiting, relevant) (pure-Hoare _ (λ t p. p))
            ]
          ]
        ])

  module _ (sized : 1 ≤ size) where
    pub stream_blocks_continuously-Hoare :
        (fuel : ℕ) (state : LiveStreamingState) (confirmations : ℕ) (flag : Bool) (h : H)
        → fuel ≤ 2 ^ 63
        → Hoare
            (Gapless stream_start size)
            ((AtTurn env reorg_handler lawful stream_start size) state)
            (stream_blocks_continuously env reorg_handler fuel state stream_start confirmations size
              flag h)
            (λ r. Gapless stream_start size)
    unfolding stream_blocks_continuously
    stream_blocks_continuously-Hoare zero state confirmations flag h enough =
        still_running-Hoare (λ t p. p.0)
    stream_blocks_continuously-Hoare (suc fuel) state confirmations flag h enough =
        bind-Hoare
          (λ r t.
            (AtTurn env reorg_handler lawful stream_start size) state t
            × ((b : Block) → r.0 ≡ some (ok b) → b.number < block_limit))
          (next_relevant-Hoare (suc fuel) confirmations flag (λ t p. p.0))
          (each_pair _ (elim [
            | none ↦ λ flag'. pure-Hoare _ (λ t p. p.0.0)
            | some (err e) ↦ λ flag'. elim (Option-cases (reported e)) [
              | inl lagged ↦ rw lagged (
                  weaken-Hoare
                    (stream_blocks_continuously-Hoare fuel state confirmations flag' h
                      (omega arith))
                    (λ t p. p.0) (λ r t p. p))
              | inr (error, failed) ↦ rw failed (
                  weaken-Hoare ((report-Hoare stream_start size env) error tt (λ t p. p.0.0))
                    (λ t p. p) (λ r t p. p.0))
            ]
            | some (ok block) ↦ λ flag'.
                fact-Hoare (λ t p. p.1 block refl)
                  (λ small.
                    bind-Hoare (Turned env reorg_handler lawful stream_start size)
                      (weaken-Hoare
                        ((handle_incoming_block-Hoare env reorg_handler lawful stream_start size)
                          sized (suc fuel) enough block state.batch_start state.previous_batch_end
                          confirmations h small)
                        (λ t p. p.0) (λ r t p. p))
                      (each_triple _ (elim [
                        | closed_channel ↦ λ state' h'. pure-Hoare _ (λ t p. p.0)
                        | open_channel ↦ λ state' h'.
                            weaken-Hoare
                              (stream_blocks_continuously-Hoare fuel state' confirmations flag' h'
                                (omega arith))
                              (λ t p. p.1 refl) (λ r t p. p)
                      ])))
          ]))

    pub get_first_block-Hoare :
        (fuel confirmations : ℕ) (flag : Bool) {P : Trace Item → Type 0}
        → ((t : Trace Item) → P t → Gapless stream_start size t)
        → Hoare
            (Gapless stream_start size)
            P
            (get_first_block env reorg_handler fuel stream_start confirmations flag)
            (λ r t.
              Gapless stream_start size t
              × ((b : Block) → r.0 ≡ some b → P t × (b.number < block_limit)))
    unfolding get_first_block
    get_first_block-Hoare zero confirmations flag keep = still_running-Hoare keep
    get_first_block-Hoare (suc fuel) confirmations flag {P} keep =
        bind-Hoare (λ r t. P t × ((b : Block) → r.0 ≡ some (ok b) → b.number < block_limit))
          (next_relevant-Hoare (suc fuel) confirmations flag keep)
          (each_pair _ (elim [
            | none ↦ λ flag'. pure-Hoare _ (λ t p. (keep t p.0, λ b e. cc))
            | some (ok block) ↦ λ flag'.
                fact-Hoare (λ t p. p.1 block refl)
                  (λ small. pure-Hoare _ (λ t p.
                    (keep t p.0, λ b e. (p.0, let same : block ≡ b = cc e in rw (← same) small))))
            | some (err e) ↦ λ flag'. elim (Option-cases (reported e)) [
              | inl lagged ↦ rw lagged (
                  weaken-Hoare (get_first_block-Hoare fuel confirmations flag' keep) (λ t p. p.0)
                    (λ r t p. p))
              | inr (error, failed) ↦ rw failed (
                  weaken-Hoare
                    ((report-Hoare stream_start size env) error (none, flag') (λ t p. keep t p.0))
                    (λ t p. p)
                    (λ r t p. (p.0, λ b e. cc (e, ap (λ (c : Option Block × Bool). c.0) p.1))))
            ]
          ]))
