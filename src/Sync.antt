-- ===== src/Sync.antt =====
-- src/block_range_scanner/sync_handler.rs: catches up on past blocks, then streams live ones.
pub mod Catchup
pub mod Ends
pub mod CalmSync
pub mod Meeting
use event_scanner.Prelude.{
  ℕ, zero, suc, Option, none, some, Bool, true, false, ltb, if◌then◌else◌, add_u64, saturating_sub,
}
use event_scanner.Types.{
  Result, ok, err, ProviderError, ScannerError, from_provider_error, Notification, open_channel,
  closed_channel, from_notification, from_error,
}
use event_scanner.Env.{Env, BlockId, Call}
use event_scanner.Task.{Task, pure, still_running, call, ◌>>=◌, ◌>>◌, try_stream}
use event_scanner.RangeStream.{Item}
use event_scanner.ReorgHandler.{ReorgHandler}
use event_scanner.Historical.{HistoricalRangeHandler, handle_stream_historical_range}
use event_scanner.Live.Loop.{stream_live_blocks}

-- The handler's fields, but for the provider, the sender and the reorg handler.
pub record SyncHandler : Type 0 where
  pub max_block_range : ℕ
  pub start_id : BlockId
  pub block_confirmations : ℕ

module _ {W : Type 0} (env : Env W) where
  -- The `while` loop, on fuel.
  unfoldable pub catchup_historical_blocks :
      ℕ → ℕ → ℕ → ℕ → ℕ → Task Item W (Result ScannerError (Option ℕ))
  catchup_historical_blocks zero start_block confirmed_tip block_confirmations max_block_range =
      still_running
  catchup_historical_blocks (suc fuel) start_block confirmed_tip block_confirmations
        max_block_range =
      if ltb start_block confirmed_tip
      then (do
        let handler : HistoricalRangeHandler = record {
          max_block_range = max_block_range;
          start = start_block;
          end = confirmed_tip;
        }
        state ← handle_stream_historical_range env handler (suc fuel)
        elim state [
          | closed_channel ↦ pure (ok none)
          | open_channel ↦ do
            answer ← call env.get_block_number
            elim answer [
              | err e ↦ pure (err (from_provider_error e))
              | ok latest ↦
                  catchup_historical_blocks fuel (add_u64 confirmed_tip 1)
                    (saturating_sub latest block_confirmations) block_confirmations max_block_range
            ]
        ])
      else pure (ok (some start_block))

module _ {W H : Type 0} (env : Env W) (reorg_handler : ReorgHandler W H) where
  unfoldable pub transition_to_live : ℕ → ℕ → ℕ → ℕ → H → Task Item W (Unit {0})
  transition_to_live fuel start_block block_confirmations max_block_range h = do
    subscription ← call env.subscribe_blocks
    elim subscription [
      | err e ↦ try_stream env (from_error (from_provider_error e)) >> pure tt
      | ok sub ↦ do
        state ← try_stream env (from_notification Notification.switching_to_live)
        elim state [
          | closed_channel ↦ pure tt
          | open_channel ↦
              stream_live_blocks env reorg_handler fuel start_block block_confirmations
                max_block_range false h
        ]
    ]

  -- The task of `spawn_catchup_then_live`.
  unfoldable pub catchup_then_live : ℕ → ℕ → ℕ → ℕ → ℕ → H → Task Item W (Unit {0})
  unfolding catchup_historical_blocks transition_to_live
  catchup_then_live fuel start_block confirmed_tip block_confirmations max_block_range h = do
    caught_up ←
        catchup_historical_blocks env fuel start_block confirmed_tip block_confirmations
          max_block_range
    elim caught_up [
      | ok (some live_start) ↦
          transition_to_live fuel live_start block_confirmations max_block_range h
      | ok none ↦ pure tt
      | err e ↦ try_stream env (from_error e) >> pure tt
    ]

  -- `spawn_live_only`, up to the task that it spawns.
  unfoldable pub live_only :
      ℕ → SyncHandler → ℕ → H → Call W (Result ScannerError (Task Item W (Unit {0})))
  live_only fuel handler start_block h w =
      let (subscription, w') = env.subscribe_blocks w in
      elim subscription [
        | err e ↦ (err (from_provider_error e), w')
        | ok sub ↦ (
          ok (
              stream_live_blocks env reorg_handler fuel start_block handler.block_confirmations
                handler.max_block_range true h),
          w',
        )
      ]

  -- `run`, up to the task that it spawns. `try_join_numbers` is `try_join!` of the start block's
  -- number and the latest block's.
  unfoldable pub run :
      (BlockId → Call W (Result ProviderError (ℕ × ℕ)))
      → ℕ
      → SyncHandler
      → H
      → Call W (Result ScannerError (Task Item W (Unit {0})))
  unfolding live_only catchup_then_live
  run try_join_numbers fuel handler h w =
      let (answer, w') = try_join_numbers handler.start_id w in
      elim answer [
        | err e ↦ (err (from_provider_error e), w')
        | ok (start_block, latest_block) ↦
            let confirmed_tip = saturating_sub latest_block handler.block_confirmations in
            if ltb confirmed_tip start_block then live_only fuel handler start_block h w' else (
              ok (
                  catchup_then_live fuel start_block confirmed_tip handler.block_confirmations
                    handler.max_block_range h),
              w',
            )
      ]
