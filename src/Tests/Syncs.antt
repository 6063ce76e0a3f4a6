-- ===== src/Tests/Syncs.antt =====
-- The catch-up over the small chain.
use event_scanner.Prelude.{ℕ, ◌≡◌, refl, some, [], ◌∷◌, arith}
use event_scanner.Types.{ok, from_data}
use event_scanner.Task.{delivered, finished, ◌>>=◌, pure, call, or_panic, try_stream}
use event_scanner.RangeIterator.{BlockRange, forward, collect_forward}
use event_scanner.RangeStream.{stream_ranges}
use event_scanner.Historical.{
  stream_finalized_blocks, get_reorged_end_block, stream_until_stable, stream_non_finalized_blocks,
  handle_stream_historical_range,
}
use event_scanner.Receiver.{view}
use event_scanner.Sync.{catchup_historical_blocks}
use event_scanner.Sync.Catchup.{HasBoundedTip, IsCaughtUp, catchup_historical_blocks-IsCaughtUp}
use event_scanner.Tests.World.{chain_world}

abbrev range : ℕ → ℕ → BlockRange
range a b = record { start = a; end = b }

-- The tip was at block 100 and is at block 104 afterwards, with two confirmations.
catchup_run :
    let (outcome, sent, _) = catchup_historical_blocks chain_world 5 88 98 2 10 0 in
    (outcome ≡ finished (ok (some 103)))
    × (sent
        ≡ delivered (from_data (range 88 90))
          ∷ delivered (from_data (range 91 98))
          ∷ delivered (from_data (range 99 102))
          ∷ [])
unfolding catchup_historical_blocks handle_stream_historical_range stream_finalized_blocks
    stream_non_finalized_blocks stream_until_stable get_reorged_end_block stream_ranges forward
    collect_forward ◌>>=◌ pure call or_panic try_stream
catchup_run = (refl, refl)

chain_world-HasBoundedTip : HasBoundedTip chain_world
chain_world-HasBoundedTip w n e = ground arith

catchup_historical_blocks-IsCaughtUp_example :
    let (outcome, sent, _) = catchup_historical_blocks chain_world 5 88 98 2 10 0 in
    IsCaughtUp chain_world 2 88 98 10 outcome (view 88 sent)
catchup_historical_blocks-IsCaughtUp_example =
    catchup_historical_blocks-IsCaughtUp chain_world 5 88 98 2 10 0 chain_world-HasBoundedTip
      (omega arith) (omega arith)
