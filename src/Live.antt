-- ===== src/Live.antt =====
-- src/block_range_scanner/common.rs: live streaming of block ranges behind the tip of the chain,
-- with reorg handling.
pub mod Loop
pub mod Served
pub mod Batches
pub mod Turns
pub mod Incomings
pub mod Gapless
pub mod Stall
pub mod Calm
pub mod CalmRun
pub mod CalmStart
pub mod CalmStream
use event_scanner.Prelude.{
  ℕ, zero, suc, ◌-◌, max, Bool, true, false, Option, none, some, ltb, if◌then◌else◌, add_u64,
  saturating_sub,
}
use event_scanner.Types.{
  Result, ok, err, ProviderError, ScannerError, from_provider_error, Notification, ChannelState,
  open_channel, closed_channel, from_data, from_notification, from_error,
}
use event_scanner.Env.{Env, Block, BlockNumberOrTag}
use event_scanner.Task.{Task, pure, still_running, call, or_panic, ◌>>=◌, ◌>>◌, try_stream}
use event_scanner.RangeIterator.{BlockRange, RangeIterator, forward, next_forward, reset_to}
use event_scanner.RangeStream.{Item}
use event_scanner.ReorgHandler.{ReorgHandler}

pub record LiveStreamingState : Type 0 where
  pub batch_start : ℕ
  pub previous_batch_end : Option Block

-- What a subscription yields: a header, or an error of the provider.
abbrev pub Incoming : Type 0
Incoming = Result ProviderError Block

-- Whether `skip_while` of `skip_to_first_relevant_block` passes over it.
unfoldable pub is_skipped : ℕ → ℕ → Incoming → Bool
is_skipped stream_start block_confirmations (ok header) =
    ltb (saturating_sub header.number block_confirmations) stream_start
is_skipped stream_start block_confirmations (err (ProviderError.lagged n)) = true
is_skipped stream_start block_confirmations (err e) = false

-- The error that a failed subscription is reported by; `none` for a lag, which is passed over.
unfoldable pub reported : ProviderError → Option ScannerError
reported (ProviderError.lagged n) = none
reported ProviderError.timeout = some ScannerError.timeout
reported (ProviderError.rpc_error e) = some (ScannerError.rpc_error e)
reported ProviderError.closed = some ScannerError.subscription_closed
reported ProviderError.block_not_found = some ScannerError.block_not_found

-- How `handle_reorg_detected` resets the streaming position.
unfoldable pub state_after_reorg : Block → ℕ → LiveStreamingState
state_after_reorg common_ancestor stream_start =
    if ltb common_ancestor.number stream_start
    then record { batch_start = stream_start; previous_batch_end = none }
    else record {
      batch_start = add_u64 common_ancestor.number 1;
      previous_batch_end = some common_ancestor;
    }

module _ {W H : Type 0} (env : Env W) (reorg_handler : ReorgHandler W H) where
  -- The stream of `skip_to_first_relevant_block`. The flag says that skipping is over.
  unfoldable pub next_relevant : ℕ → ℕ → ℕ → Bool → Task Item W (Option Incoming × Bool)
  next_relevant zero stream_start block_confirmations flag = still_running
  next_relevant (suc fuel) stream_start block_confirmations flag = do
    incoming ← call env.next_header
    elim incoming [
      | none ↦ pure (none, flag)
      | some item ↦
          let rest = next_relevant fuel stream_start block_confirmations flag in
          if flag
          then pure (some item, true)
          else if is_skipped stream_start block_confirmations item
          then rest
          else pure (some item, true)
    ]

  unfoldable pub get_first_block : ℕ → ℕ → ℕ → Bool → Task Item W (Option Block × Bool)
  unfolding next_relevant reported
  get_first_block zero stream_start block_confirmations flag = still_running
  get_first_block (suc fuel) stream_start block_confirmations flag = do
    (incoming, flag') ← next_relevant (suc fuel) stream_start block_confirmations flag
    elim incoming [
      | none ↦ pure (none, flag')
      | some (ok block) ↦ pure (some block, flag')
      | some (err e) ↦ elim (reported e) [
        | none ↦ get_first_block fuel stream_start block_confirmations flag'
        | some error ↦ try_stream env (from_error error) >> pure (none, flag')
      ]
    ]

  -- `handle_reorg_detected`, with the state that it leaves.
  unfoldable pub handle_reorg_detected :
      Block → ℕ → LiveStreamingState → Task Item W (ChannelState × LiveStreamingState)
  handle_reorg_detected common_ancestor stream_start state = do
    let ancestor_num = common_ancestor.number
    channel_state ← try_stream env (from_notification (Notification.reorg_detected ancestor_num))
    elim channel_state [
      | closed_channel ↦ pure (closed_channel, state)
      | open_channel ↦ pure (open_channel, state_after_reorg common_ancestor stream_start)
    ]

  -- The `while` loop of `stream_range_with_reorg_handling`, on fuel, with the handler's state.
  unfoldable pub stream_batches :
      ℕ → ℕ → RangeIterator → Option Block → H → Task Item W (Option Block × H)
  stream_batches zero min_common_ancestor iter last_batch_end h = still_running
  stream_batches (suc fuel) min_common_ancestor iter last_batch_end h = elim (next_forward iter) [
    | none ↦ pure (last_batch_end, h)
    | some (batch, iter') ↦ do
      answer ← call (env.get_block_by_number (BlockNumberOrTag.number batch.end))
      elim answer [
        | err e ↦ try_stream env (from_error (from_provider_error e)) >> pure (none, h)
        | ok batch_end ↦ do
          state ← try_stream env (from_data batch)
          elim state [
            | closed_channel ↦ pure (none, h)
            | open_channel ↦ do
              (checked, h') ← call (reorg_handler.check h batch_end)
              elim checked [
                | err e ↦ try_stream env (from_error e) >> pure (none, h')
                | ok none ↦ stream_batches fuel min_common_ancestor iter' (some batch_end) h'
                | ok (some common_ancestor) ↦ do
                  state ←
                      try_stream env
                        (from_notification (Notification.reorg_detected common_ancestor.number))
                  elim state [
                    | closed_channel ↦ pure (none, h')
                    | open_channel ↦
                        stream_batches fuel min_common_ancestor
                          (reset_to (max (add_u64 common_ancestor.number 1) min_common_ancestor)
                            iter')
                          (some batch_end) h'
                  ]
              ]
          ]
      ]
  ]

  unfoldable pub stream_range_with_reorg_handling :
      ℕ → ℕ → ℕ → ℕ → ℕ → H → Task Item W (Option Block × H)
  stream_range_with_reorg_handling fuel min_common_ancestor next_start_block end max_block_range h =
      do
        iter ← or_panic (forward next_start_block end max_block_range)
        stream_batches fuel min_common_ancestor iter none h
