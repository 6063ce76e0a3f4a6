-- ===== src/Rewind.antt =====
-- src/block_range_scanner/rewind_handler.rs: streams the ranges from a higher block down to a lower
-- one, and rescans upwards what a reorg has replaced.
pub mod Phases
pub mod Rescan
pub mod Order
pub mod Calm
use event_scanner.Prelude.{
  ℕ, Bool, true, false, Option, none, some, List, [], ◌∷◌, ltb, if◌then◌else◌, add_u64,
}
use event_scanner.Types.{
  Result, ok, err, ProviderError, ScannerError, from_provider_error, Notification, ChannelState,
  open_channel, closed_channel, from_data, from_notification, from_error,
}
use event_scanner.Env.{Env, Block, BlockNumberOrTag, BlockId, Call}
use event_scanner.Task.{Task, pure, call, or_panic, ◌>>=◌, ◌>>◌, try_stream}
use event_scanner.RangeIterator.{BlockRange, forward, reverse, collect_forward, collect_reverse}
use event_scanner.RangeStream.{Item, stream_ranges}
use event_scanner.ReorgHandler.{ReorgHandler}
use event_scanner.Historical.{unwrap_or}

-- The handler's fields, but for the provider, the sender and the reorg handler.
pub record RewindHandler : Type 0 where
  pub max_block_range : ℕ
  pub start_id : BlockId
  pub end_id : BlockId

module _ {W : Type 0} (env : Env W) where
  -- `handle_reorg_rescan`, with what becomes of `tip`
  unfoldable pub handle_reorg_rescan : Block → Block → ℕ → Task Item W (ChannelState × Block)
  handle_reorg_rescan tip common_ancestor max_block_range = do
    state ← try_stream env (from_notification (Notification.reorg_detected common_ancestor.number))
    elim state [
      | closed_channel ↦ pure (closed_channel, tip)
      | open_channel ↦ do
        answer ← call (env.get_block_by_number (BlockNumberOrTag.number tip.number))
        elim answer [
          | err e ↦
              try_stream env (from_error (from_provider_error e)) >> pure (closed_channel, tip)
          | ok new_tip ↦ do
            let rescan_from = add_u64 common_ancestor.number 1
            iter ← or_panic (forward rescan_from tip.number max_block_range)
            state ← stream_ranges env (collect_forward iter)
            pure (state, new_tip)
        ]
    ]

module _ {W H : Type 0} (env : Env W) (reorg_handler : ReorgHandler W H) where
  -- The loop of `handle_stream_rewind` over the ranges that the iterator yields.
  unfoldable pub rewind_ranges : List BlockRange → Bool → Block → ℕ → H → Task Item W (Unit {0})
  unfolding handle_reorg_rescan
  rewind_ranges [] check_reorg tip max_block_range h = pure tt
  rewind_ranges (range ∷ ranges) check_reorg tip max_block_range h = do
    state ← try_stream env (from_data range)
    elim state [
      | closed_channel ↦ pure tt
      | open_channel ↦ elim check_reorg [
        | false ↦ rewind_ranges ranges false tip max_block_range h
        | true ↦ do
          (checked, h') ← call (reorg_handler.check h tip)
          elim checked [
            | err e ↦ try_stream env (from_error e) >> pure tt
            | ok none ↦ rewind_ranges ranges true tip max_block_range h'
            | ok (some common_ancestor) ↦ do
              (state, tip') ← handle_reorg_rescan env tip common_ancestor max_block_range
              elim state [
                | closed_channel ↦ pure tt
                | open_channel ↦ rewind_ranges ranges true tip' max_block_range h'
              ]
          ]
      ]
    ]

  unfoldable pub handle_stream_rewind : Block → Block → ℕ → H → Task Item W (Unit {0})
  unfolding rewind_ranges
  handle_stream_rewind from to max_block_range h = do
    answer ← call (env.get_block_number_by_id (BlockId.by_number BlockNumberOrTag.finalized))
    let finalized_block_num = unwrap_or answer 0
    let check_reorg = ltb finalized_block_num from.number
    iter ← or_panic (reverse from.number to.number max_block_range)
    rewind_ranges (collect_reverse iter) check_reorg from max_block_range h

  -- `run`, up to the task that it spawns, which is its result. `try_join_blocks` is `try_join!` of
  -- the two calls of `get_block`.
  unfoldable pub run :
      (BlockId → BlockId → Call W (Result ProviderError (Block × Block)))
      → RewindHandler
      → H
      → Call W (Result ScannerError (Task Item W (Unit {0})))
  run try_join_blocks handler h w =
      let (answer, w') = try_join_blocks handler.start_id handler.end_id w in
      elim answer [
        | err e ↦ (err (from_provider_error e), w')
        | ok (start_block, end_block) ↦ (
          ok (
              if ltb end_block.number start_block.number
              then handle_stream_rewind start_block end_block handler.max_block_range h
              else handle_stream_rewind end_block start_block handler.max_block_range h),
          w',
        )
      ]
