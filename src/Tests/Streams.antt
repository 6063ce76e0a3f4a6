-- ===== src/Tests/Streams.antt =====
-- The handlers, over the small chain.
use event_scanner.Prelude.{
  ℕ, ◌≡◌, ◌≢◌, refl, true, false, Option, none, some, [], ◌∷◌, arith, reverse, if◌then◌else◌,
}
use event_scanner.Types.{ok, open_channel, from_data}
use event_scanner.Env.{Block}
use event_scanner.Task.{delivered, finished, panicked, ◌>>=◌, pure, call, or_panic, try_stream}
use event_scanner.RangeIterator.{BlockRange, forward, collect_forward, next_forward}
use event_scanner.Receiver.{view, IsGapless}
use event_scanner.RingBuffer.{limited}
use event_scanner.ReorgHandler
use event_scanner.ReorgHandler.{DefaultReorgHandler}
use event_scanner.ReorgHandler.Reference.{
  Stands, has_hash, ancestor, canonical_part, with_entries, check_reference,
}
use event_scanner.Historical.{
  HistoricalRangeHandler, stream_finalized_blocks, get_reorged_end_block, stream_until_stable,
  stream_non_finalized_blocks, handle_stream_historical_range,
}
use event_scanner.RangeStream.{stream_ranges}
use event_scanner.Historical.Coverage.{IsServed, handle_stream_historical_range_serves}
use event_scanner.Live.{stream_batches, stream_range_with_reorg_handling, is_skipped}
use event_scanner.Live.Loop.{handle_incoming_block, stream_blocks_continuously, stream_live_blocks}
use event_scanner.Live.Gapless.{stream_live_blocks-IsGapless}
use event_scanner.Live.Stall.{OnlyErrors, stalled, reorg_before_start_stalls}
use event_scanner.Tests.World.{block_at, chain_world, no_reorgs, deep_reorgs, chain_world-IsLawful}

abbrev past : HistoricalRangeHandler
past = record { max_block_range = 10; start = 85; end = 104 }

abbrev range : ℕ → ℕ → BlockRange
range a b = record { start = a; end = b }

-- The finalized blocks 85 to 90, then the others.
historical_run : handle_stream_historical_range chain_world past 1 0 ≡ (
  finished open_channel,
  delivered (from_data (range 85 90))
      ∷ delivered (from_data (range 91 100))
      ∷ delivered (from_data (range 101 104))
      ∷ [],
  0,
)
unfolding handle_stream_historical_range stream_finalized_blocks stream_non_finalized_blocks
    stream_until_stable get_reorged_end_block stream_ranges forward collect_forward ◌>>=◌ pure call
    or_panic try_stream
historical_run = refl

handle_stream_historical_range_serves_example :
    let (outcome, sent, _) = handle_stream_historical_range chain_world past 1 0 in
    IsServed 85 104 10 outcome (view 85 sent)
handle_stream_historical_range_serves_example =
    handle_stream_historical_range_serves chain_world past 1 0 (omega arith) (omega arith)
      (omega arith)

-- The subscription starts at block 99; blocks up to 102 are confirmed twice.
live_run :
    (stream_live_blocks chain_world no_reorgs 20 100 2 10 false tt 99).1
    ≡ delivered (from_data (range 100 100))
      ∷ delivered (from_data (range 101 101))
      ∷ delivered (from_data (range 102 102))
      ∷ []
unfolding stream_live_blocks stream_batches stream_range_with_reorg_handling is_skipped forward
    next_forward ◌>>=◌ pure call or_panic try_stream
live_run = refl

stream_live_blocks-IsGapless_example :
    let (outcome, sent, _) = stream_live_blocks chain_world no_reorgs 20 100 2 10 false tt 99 in
    (outcome ≢ panicked) × IsGapless 100 10 (view 100 sent)
stream_live_blocks-IsGapless_example =
    stream_live_blocks-IsGapless chain_world no_reorgs 20 100 2 10 false tt 99 chain_world-IsLawful
      (omega arith) (omega arith)

-- A reorg down to block 90 is found when block 99 comes in, on a stream from block 100.
reorg_before_start_stalls_example :
    let (outcome, _, _) =
      handle_incoming_block chain_world deep_reorgs 5
        (block_at 99)
        (record { batch_start = 101; previous_batch_end = some (block_at 100) })
        100
        0
        10
        tt
        99 in
    (outcome ≡ finished (open_channel, stalled 100, tt))
    × OnlyErrors
        (stream_blocks_continuously chain_world deep_reorgs 20 (stalled 100) 100 0 10 true tt 100).1
reorg_before_start_stalls_example =
    reorg_before_start_stalls chain_world deep_reorgs 100 10 5 20 (block_at 99) (block_at 100)
      (block_at 90) 101 0 true tt 99 100 refl refl (omega arith) (omega arith)

-- Blocks 91 and 95 are stored, and the block at 95 has another hash by now.
abbrev stored : DefaultReorgHandler
stored = record { buffer = record { inner = (91, 98) ∷ (95, 1) ∷ []; capacity = limited 5 } }

abbrev chain : ℕ → Option Block
chain n = some (block_at n)

chain_world-Stands : Stands chain_world chain (block_at 90)
chain_world-Stands = record { blocks = λ n w. refl; final = λ w. refl }

check_finds_ancestor :
    (ReorgHandler.check chain_world stored (record { number = 95; hash = 1 }) 0).0
    ≡ (ok (some (block_at 91)), with_entries stored ((91, 98) ∷ []))
unfolding ReorgHandler.check
check_finds_ancestor = refl

check_reference_example :
    let (common, left) =
      ancestor chain
        (block_at 90)
        (canonical_part chain (block_at 90) (reverse stored.buffer.inner)) in
    (ReorgHandler.check chain_world stored (record { number = 95; hash = 1 }) 0).0 ≡ (
      if has_hash 1 (chain 95)
      then (ok none, ReorgHandler.remember (record { number = 95; hash = 1 }) stored)
      else (ok (some common), with_entries stored left))
check_reference_example =
    check_reference chain_world chain_world-Stands stored (record { number = 95; hash = 1 }) 0
