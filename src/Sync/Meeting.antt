-- ===== src/Sync/Meeting.antt =====
-- Where the catch-up of the sync mode meets its live streaming.
use event_scanner.Prelude.{
  ℕ, ◌-◌, ◌^◌, ◌≤◌, ◌<◌, ◌≡◌, ◌≢◌, ◌⊎◌, inl, inr, refl, Option, none, some, [], ◌∷◌, ◌++◌,
  append-nil, ltb, true, false, arith, Bool-cases,
}
use event_scanner.Types.{
  Result, ok, err, ProviderError, ScannerError, from_provider_error, Notification,
  from_notification, from_error,
}
use event_scanner.Env.{Env, BlockId, Call}
use event_scanner.Task.{
  Task, Progress, Attempt, delivered, refused, finished, running, panicked, pure, call, ◌>>=◌, ◌>>◌,
  try_stream,
}
use event_scanner.Task.Hoare.{Trace}
use event_scanner.RangeIterator.{BlockRange}
use event_scanner.RangeIterator.Step.{block_limit}
use event_scanner.RangeStream.{Item}
use event_scanner.Receiver.{view, view-snoc, Served, IsGapless}
use event_scanner.ReorgHandler.{ReorgHandler}
use event_scanner.Live.Loop.{stream_live_blocks}
use event_scanner.Live.Served.{IsLawful}
use event_scanner.Live.Gapless.{stream_live_blocks-IsGapless}
use event_scanner.Sync.{
  SyncHandler, catchup_historical_blocks, transition_to_live, catchup_then_live, live_only, run,
}
use event_scanner.Sync.Catchup.{
  HasBoundedTip, IsPastTip, IsCaughtUp, catchup_historical_blocks-IsCaughtUp,
}

-- One item, and not a range, with which the stream ends: an error, or one that the receiver did not
-- get.
abbrev pub IsLast : Attempt Item → Type 0
IsLast (delivered item) = (e : ScannerError) × (item ≡ from_error e)
IsLast (refused item) = Unit

-- Live streaming from `next`, announced; or the stream ends before.
abbrev pub GoesLive : ℕ → ℕ → Trace Item → Type 0
GoesLive size next t =
    ((live : Trace Item) × (t ≡ delivered (from_notification Notification.switching_to_live) ∷ live)
      × IsGapless next size (view next live))
    ⊎ ((a : Attempt Item) × (t ≡ a ∷ []) × IsLast a)

-- The catch-up serves the receiver up to the block where live streaming begins, past the confirmed
-- tip; or it ends before.
abbrev pub Meets : {W : Type 0} → Env W → ℕ → ℕ → ℕ → ℕ → Trace Item → Type 0
Meets env confirmations tip size start sent =
    ((next : ℕ) × (past : Trace Item) × (t : Trace Item) × (sent ≡ past ++ t)
      × IsPastTip env confirmations start tip next
      × Served start size next (view start past)
      × GoesLive size next t)
    ⊎ IsGapless start size (view start sent)

-- An error is the last item.
report-IsLast :
    {W : Type 0} (env : Env W) (e : ScannerError) (w : W)
    → let (outcome, sent, _) = (try_stream {T = BlockRange} env (from_error e) >> pure tt) w in
      (outcome ≡ finished tt) × (a : Attempt Item) × (sent ≡ a ∷ []) × IsLast a
unfolding try_stream pure ◌>>=◌
report-IsLast env e w = elim (Bool-cases (env.send_is_ok w).0) [
  | inl sent ↦ rw sent (refl, delivered (from_error e), refl, (e, refl))
  | inr gone ↦ rw gone (refl, refused (from_error e), refl, tt)
]

-- A last item takes nothing from the receiver.
last_keeps :
    (start size : ℕ) (t : Trace Item) (a : Attempt Item)
    → IsLast a
    → IsGapless start size (view start t)
    → IsGapless start size (view start (t ++ (a ∷ [])))
last_keeps start size t (delivered item) (e, same) g = rw (same, view-snoc start t) g
last_keeps start size t (refused item) last g = rw (view-snoc start t) g

-- What a task of the sync mode gives: no panic, and what it sends.
abbrev pub Gives : {W A : Type 0} → (Trace Item → Type 0) → Progress A × Trace Item × W → Type 0
Gives P (outcome, sent, w) = (outcome ≢ panicked) × P sent

module _ {W H : Type 0} (env : Env W) (reorg_handler : ReorgHandler W H)
    (lawful : IsLawful env reorg_handler) (size : ℕ) (sized : 1 ≤ size) (fuel : ℕ)
    (enough : fuel ≤ 2 ^ 63) where
  subscribed :
      (next confirmations : ℕ) (h : H) (w : W) (answer : Result ProviderError (Unit {0}))
      → (env.subscribe_blocks w).0 ≡ answer
      → Gives
          (GoesLive size next)
          (transition_to_live env reorg_handler fuel next confirmations size h w)
  unfolding transition_to_live try_stream pure call ◌>>=◌
  subscribed next confirmations h w (err x) e =
      let (ends, a, one, last) =
        report-IsLast env (from_provider_error x) (env.subscribe_blocks w).1 in
      rw e (rw (ends, one) ((λ bad. cc bad), inr (a, refl, last)))
  subscribed next confirmations h w (ok sub) e =
      elim (Bool-cases (env.send_is_ok (env.subscribe_blocks w).1).0) [
        | inl sent ↦
            let (alive, gapless) =
              stream_live_blocks-IsGapless env reorg_handler fuel next confirmations size false h
                (env.send_is_ok (env.subscribe_blocks w).1).1 lawful sized enough in
            rw (e, sent) (alive, inl (_, refl, gapless))
        | inr gone ↦ rw (e, gone) ((λ bad. cc bad), inr (_, refl, tt))
      ]

  caught_up :
      (start tip confirmations : ℕ) (h : H) (w w' : W)
      (o : Progress (Result ScannerError (Option ℕ))) (past : Trace Item)
      → catchup_historical_blocks env fuel start tip confirmations size w ≡ (o, past, w')
      → IsCaughtUp env confirmations start tip size o (view start past)
      → Gives
          (Meets env confirmations tip size start)
          (catchup_then_live env reorg_handler fuel start tip confirmations size h w)
  unfolding catchup_then_live pure ◌>>=◌
  caught_up start tip confirmations h w w' (finished (ok (some next))) past e (served, handover) =
      let (alive, live) = subscribed next confirmations h w' _ refl in
      rw e (alive, inl (next, past, _, refl, handover, served, live))
  caught_up start tip confirmations h w w' (finished (ok none)) past e gapless =
      rw (e, append-nil) ((λ bad. cc bad), inr gapless)
  caught_up start tip confirmations h w w' (finished (err x)) past e gapless =
      let (ends, a, one, last) = report-IsLast env x w' in
      rw (e, ends, one) ((λ bad. cc bad), inr (last_keeps start size past a last gapless))
  caught_up start tip confirmations h w w' running past e gapless =
      rw e ((λ bad. cc bad), inr gapless)
  caught_up start tip confirmations h w w' panicked past e bad = absurd bad

  pub catchup_then_live-Meets :
      (start tip confirmations : ℕ) (h : H) (w : W)
      → HasBoundedTip env
      → tip < block_limit
      → Gives
          (Meets env confirmations tip size start)
          (catchup_then_live env reorg_handler fuel start tip confirmations size h w)
  catchup_then_live-Meets start tip confirmations h w bounded small =
      caught_up start tip confirmations h w _ _ _ refl (
        catchup_historical_blocks-IsCaughtUp env fuel start tip confirmations size w bounded sized
          small)

-- The task that `run` makes once both numbers are known.
pub run-Meets :
    {W H : Type 0} (env : Env W) (reorg_handler : ReorgHandler W H)
    (try_join_numbers : BlockId → Call W (Result ProviderError (ℕ × ℕ))) (fuel : ℕ)
    (handler : SyncHandler) (h : H) (w : W) (start latest : ℕ)
    → IsLawful env reorg_handler
    → 1 ≤ handler.max_block_range
    → fuel ≤ 2 ^ 63
    → HasBoundedTip env
    → ((w' : W) → (env.subscribe_blocks w').0 ≡ ok tt)
    → (try_join_numbers handler.start_id w).0 ≡ ok (start, latest)
    → latest < block_limit
    → (task : Task Item W (Unit {0})) × ((run env reorg_handler try_join_numbers fuel handler h w).0
        ≡ ok task)
      × ((w' : W)
          → Gives
              (Meets env handler.block_confirmations
                (latest - handler.block_confirmations)
                handler.max_block_range
                start)
              (task w'))
unfolding run live_only
run-Meets env reorg_handler try_join_numbers fuel handler h w start latest lawful sized enough
      bounded subscribes found small =
    let size : ℕ = handler.max_block_range in
    let confirmations : ℕ = handler.block_confirmations in
    elim (Bool-cases (ltb (latest - confirmations) start)) [
      | inl ahead ↦ (
        stream_live_blocks env reorg_handler fuel start confirmations size true h,
        rw (found, run, ahead, live_only, subscribes) refl,
        λ w'.
            let (alive, gapless) =
              stream_live_blocks-IsGapless env reorg_handler fuel start confirmations size true h w'
                lawful sized enough in
            (alive, inr gapless),
      )
      | inr behind ↦ (
        catchup_then_live env reorg_handler fuel start (latest - confirmations) confirmations size
            h,
        rw (found, run, behind) refl,
        λ w'.
            catchup_then_live-Meets env reorg_handler lawful size sized fuel enough start
              (latest - confirmations) confirmations h w' bounded (omega (arith, small)),
      )
    ]
