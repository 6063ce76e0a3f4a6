-- ===== src/Live/Stall.antt =====
-- What `stream_blocks_continuously` of src/block_range_scanner/common.rs does once
-- `previous_batch_end` is `None`.
use event_scanner.Prelude.{
  ℕ, zero, suc, ◌-◌, ◌<◌, ◌≡◌, Bool, true, false, none, some, [], arith, All, All-append,
  Bool-cases, Option-cases, inl, inr,
}
use event_scanner.Types.{ok, err, open_channel, from_error}
use event_scanner.Env.{Env, Block}
use event_scanner.Task.{
  Attempt, delivered, refused, Progress, finished, running, panicked, ◌>>=◌, call, pure, try_stream,
}
use event_scanner.Task.Hoare.{
  Trace, Outcome, Hoare, pure-Hoare, call-Hoare, still_running-Hoare, bind-Hoare, try_stream-Hoare,
  pure_bind-Hoare, each_pair,
}
use event_scanner.RangeStream.{Item}
use event_scanner.ReorgHandler.{ReorgHandler}
use event_scanner.Live.{
  LiveStreamingState, handle_reorg_detected, next_relevant, state_after_reorg, is_skipped, reported,
}
use event_scanner.Live.Loop.{stream_next_batch, handle_incoming_block, stream_blocks_continuously}

-- An attempt to send an error.
abbrev pub IsError : Attempt Item → Type 0
IsError (delivered (err e)) = Unit
IsError (refused (err e)) = Unit
IsError (delivered (ok m)) = ⊥
IsError (refused (ok m)) = ⊥

abbrev pub OnlyErrors : Trace Item → Type 0
OnlyErrors = All IsError

-- The state that a reorg below the start leaves.
abbrev pub stalled : ℕ → LiveStreamingState
stalled stream_start = record { batch_start = stream_start; previous_batch_end = none }

module _ {W H : Type 0} (env : Env W) (reorg_handler : ReorgHandler W H)
    (stream_start size : ℕ) where
  next_relevant-OnlyErrors :
      (fuel confirmations : ℕ) (flag : Bool)
      → Hoare OnlyErrors OnlyErrors
          (next_relevant env reorg_handler fuel stream_start confirmations flag)
          (λ r. OnlyErrors)
  unfolding next_relevant
  next_relevant-OnlyErrors zero confirmations flag = still_running-Hoare (λ t p. p)
  next_relevant-OnlyErrors (suc fuel) confirmations flag =
      bind-Hoare (λ r. OnlyErrors) (call-Hoare _ (λ w t p. p))
        (elim [
          | none ↦ pure-Hoare _ (λ t p. p)
          | some item ↦ elim (Bool-cases flag) [
            | inl started ↦ rw started (pure-Hoare _ (λ t p. p))
            | inr waiting ↦ elim (Bool-cases (is_skipped stream_start confirmations item)) [
              | inl skipped ↦
                  rw (waiting, skipped) (next_relevant-OnlyErrors fuel confirmations false)
              | inr relevant ↦ rw (waiting, relevant) (pure-Hoare _ (λ t p. p))
            ]
          ]
        ])

  stall-Hoare :
      (fuel confirmations : ℕ) (flag : Bool) (h : H)
      → Hoare OnlyErrors OnlyErrors
          (stream_blocks_continuously env reorg_handler fuel
            (stalled stream_start)
            stream_start
            confirmations
            size
            flag
            h)
          (λ r. OnlyErrors)
  unfolding stream_blocks_continuously handle_incoming_block
  stall-Hoare zero confirmations flag h = still_running-Hoare (λ t p. p)
  stall-Hoare (suc fuel) confirmations flag h =
      bind-Hoare (λ r. OnlyErrors) (next_relevant-OnlyErrors (suc fuel) confirmations flag)
        (each_pair _ (elim [
          | none ↦ λ flag'. pure-Hoare _ (λ t p. p)
          | some (err e) ↦ λ flag'. elim (Option-cases (reported e)) [
            | inl lagged ↦ rw lagged (stall-Hoare fuel confirmations flag' h)
            | inr (error, failed) ↦ rw failed (
                bind-Hoare (λ r. OnlyErrors)
                  (try_stream-Hoare env (from_error error)
                    (λ t p. All-append IsError t _ p (tt, tt))
                    (λ t p. All-append IsError t _ p (tt, tt)))
                  (λ r. pure-Hoare _ (λ t p. p)))
          ]
          | some (ok block) ↦ λ flag'. pure_bind-Hoare _ (stall-Hoare fuel confirmations flag' h)
        ]))

  -- If a reorg check finds a common ancestor below the start of the stream when the confirmed part
  -- of the chain ends below the start too, the turn goes on with no previous batch; and from there
  -- the loop sends nothing but errors, however many blocks come in.
  pub reorg_before_start_stalls :
      (fuel later : ℕ) (incoming previous ancestor : Block) (batch_start confirmations : ℕ)
      (flag : Bool) (h : H) (w w' : W)
      → (reorg_handler.check h previous w).0.0 ≡ ok (some ancestor)
      → (env.send_is_ok (reorg_handler.check h previous w).1).0 ≡ true
      → ancestor.number < stream_start
      → incoming.number - confirmations < stream_start
      → let (outcome, _, _) =
          handle_incoming_block env reorg_handler fuel incoming
            (record { batch_start = batch_start; previous_batch_end = some previous })
            stream_start
            confirmations
            size
            h
            w in
        (outcome
          ≡ finished (open_channel, stalled stream_start, (reorg_handler.check h previous w).0.1))
        × OnlyErrors
            (stream_blocks_continuously env reorg_handler later
              (stalled stream_start)
              stream_start
              confirmations
              size
              flag
              (reorg_handler.check h previous w).0.1
              w').1
  unfolding handle_incoming_block handle_reorg_detected stream_next_batch state_after_reorg ◌>>=◌
      call pure try_stream
  reorg_before_start_stalls fuel later incoming previous ancestor batch_start confirmations flag h w
        w' found taken below unconfirmed =
      (
        ground (arith, found, taken, below, unconfirmed),
        only_errors _ _ (
            (stall-Hoare later confirmations flag (reorg_handler.check h previous w).0.1).run [] w'
              tt),
      )
    where
      only_errors :
          (o : Progress (Unit {0})) (t : Trace Item)
          → Outcome OnlyErrors (λ r. OnlyErrors) o t
          → OnlyErrors t
      only_errors (finished a) t g = g
      only_errors running t g = g
      only_errors panicked t g = absurd g
