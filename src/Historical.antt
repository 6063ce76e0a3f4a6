-- ===== src/Historical.antt =====
-- src/block_range_scanner/historical_range_handler.rs: streams the ranges of `start ..= end`, first
-- the finalized ones, then the others until the end block is stable.
pub mod Coverage
pub mod Calm
use event_scanner.Prelude.{
  ℕ, zero, suc, ◌-◌, min, max, Option, none, some, ◌==◌, ltb, if◌then◌else◌, add_u64,
  saturating_sub,
}
use event_scanner.Types.{
  Result, ok, err, ProviderError, from_provider_error, Notification, ChannelState, open_channel,
  closed_channel, is_closed, from_notification, from_error,
}
use event_scanner.Env.{Env, Block, BlockNumberOrTag, BlockId}
use event_scanner.Task.{Task, pure, still_running, call, or_panic, ◌>>=◌, ◌>>◌, try_stream}
use event_scanner.RangeIterator.{forward, collect_forward}
use event_scanner.RangeStream.{Item, stream_ranges}

-- The handler's fields, but for the provider and the sender, which are the `Env`.
pub record HistoricalRangeHandler : Type 0 where
  pub max_block_range : ℕ
  pub start : ℕ
  pub end : ℕ

-- `Result::unwrap_or`
abbrev pub unwrap_or : {E : Type 0} → Result E ℕ → ℕ → ℕ
unwrap_or (ok n) d = n
unwrap_or (err e) d = d

module _ {W : Type 0} (env : Env W) where
  module _ (h : HistoricalRangeHandler) where
    unfoldable pub stream_finalized_blocks : Task Item W (Option (ℕ × ℕ))
    stream_finalized_blocks = do
      answer ← call (env.get_block_number_by_id (BlockId.by_number BlockNumberOrTag.finalized))
      let finalized_block_num = unwrap_or answer 0
      let finalized_batch_end = min finalized_block_num h.end
      iter ← or_panic (forward h.start finalized_batch_end h.max_block_range)
      state ← stream_ranges env (collect_forward iter)
      elim state [
        | closed_channel ↦ pure none
        | open_channel ↦
            pure (some (max h.start (add_u64 finalized_batch_end 1), finalized_block_num))
      ]

  -- `None` also if the block cannot be fetched, once the error has been sent.
  unfoldable pub get_reorged_end_block : Block → Task Item W (Option Block)
  get_reorged_end_block end_block = do
    answer ← call (env.get_block_by_number (BlockNumberOrTag.number end_block.number))
    elim answer [
      | err e ↦ try_stream env (from_error (from_provider_error e)) >> pure none
      | ok new_end_block ↦
          pure (if new_end_block.hash == end_block.hash then none else some new_end_block)
    ]

  module _ (h : HistoricalRangeHandler) where
    -- The `loop` of `stream_non_finalized_blocks`, on fuel.
    unfoldable pub stream_until_stable : ℕ → ℕ → ℕ → Block → Task Item W ChannelState
    stream_until_stable zero non_finalized_start min_common_ancestor end_block = still_running
    stream_until_stable (suc fuel) non_finalized_start min_common_ancestor end_block = do
      iter ← or_panic (forward non_finalized_start h.end h.max_block_range)
      state ← stream_ranges env (collect_forward iter)
      elim state [
        | closed_channel ↦ pure closed_channel
        | open_channel ↦ do
          reorged_end_block ← get_reorged_end_block end_block
          elim reorged_end_block [
            | none ↦ pure open_channel
            | some new_end_block ↦ do
              state ←
                  try_stream env
                    (from_notification (Notification.reorg_detected min_common_ancestor))
              elim state [
                | closed_channel ↦ pure closed_channel
                | open_channel ↦
                    stream_until_stable fuel non_finalized_start min_common_ancestor new_end_block
              ]
          ]
      ]

    unfoldable pub stream_non_finalized_blocks : ℕ → ℕ → ℕ → Task Item W ChannelState
    stream_non_finalized_blocks fuel non_finalized_start finalized_block_num = do
      let min_common_ancestor = max (saturating_sub non_finalized_start 1) finalized_block_num
      answer ← call (env.get_block_by_number (BlockNumberOrTag.number h.end))
      elim answer [
        | err e ↦ try_stream env (from_error (from_provider_error e)) >> pure closed_channel
        | ok end_block ↦ stream_until_stable fuel non_finalized_start min_common_ancestor end_block
      ]

    -- `handle_stream_historical_range`, the body of both `run` (as a task of its own) and
    -- `run_sync`.
    unfoldable pub handle_stream_historical_range : ℕ → Task Item W ChannelState
    handle_stream_historical_range fuel = do
      phase1 ← stream_finalized_blocks h
      elim phase1 [
        | none ↦ pure closed_channel
        | some (non_finalized_start, finalized_block_num) ↦
            if ltb h.end non_finalized_start
            then pure open_channel
            else stream_non_finalized_blocks fuel non_finalized_start finalized_block_num
      ]
