-- ===== src/Tests/Deliveries.antt =====
-- A started mode and its listener, over the small chain.
use event_scanner.Prelude.{
  ℕ, ◌+◌, ◌≡◌, refl, some, List, [], ◌∷◌, map, All, arith, inl, Option, true,
}
use event_scanner.Types.{
  Result, ok, ProviderError, ScannerError, Notification, from_data, from_notification,
}
use event_scanner.Env.{Block, BlockNumberOrTag, BlockId, Call}
use event_scanner.Task.{finished}
use event_scanner.Task.Total.{Sends}
use event_scanner.RangeIterator.{BlockRange}
use event_scanner.RingBuffer.{limited}
use event_scanner.Historical.Calm.{IsCalm}
use event_scanner.Sync.{catchup_historical_blocks}
use event_scanner.Sync.Ends.{IsBelow, CatchupEnds, catchup_historical_blocks_ends}
use event_scanner.Scanner.{BlockRangeScanner}
use event_scanner.BlockRangeHandler.{Log}
use event_scanner.BlockRangeHandler.Delivery.{logs_of_blocks, logs_in}
use event_scanner.EventScanner.{EventScanner, EventListener, Historic, LatestEvents}
use event_scanner.Modes.{
  StreamHandler, LatestEventsHandler, Started, handle_streaming, handle_latest,
}
use event_scanner.RangeStream.{Item}
use event_scanner.BlockRangeHandler.Pipeline.Rounds.{rounds}
use event_scanner.BlockRangeHandler.Broadcast.{received_from}
use event_scanner.Modes.Handle.{handle, Consumer, IsServed, handle_serves}
use event_scanner.Modes.Latest.{start as start_latest}
use event_scanner.Modes.LatestDelivery.{latest_delivers}
use event_scanner.BlockRangeHandler.Latest.{SentOnce, summary, last_of}
use event_scanner.Modes.Historic.{start as start_historic}
use event_scanner.Modes.Delivery.{items_of, ListenerHas, blocks_between, historic_delivers}
use event_scanner.Tests.World.{block_at, block_by_id, chain_world}

chain_world-IsCalm : IsCalm chain_world block_at 104
chain_world-IsCalm = record { blocks = λ n reached w. refl; numbers = λ n. refl }

chain_world-Sends : Sends chain_world ⊥
chain_world-Sends w = inl refl

chain_world-IsBelow : IsBelow chain_world 104
chain_world-IsBelow w n e = ground arith

catchup_historical_blocks_ends_example :
    let (outcome, sent, _) = catchup_historical_blocks chain_world 20 88 98 2 10 0 in
    (r : Result ScannerError (Option ℕ)) × (outcome ≡ finished r) × CatchupEnds ⊥ 10 88 r sent
catchup_historical_blocks_ends_example =
    catchup_historical_blocks_ends chain_world ⊥ block_at 20 88 98 2 10 104 0 chain_world-Sends
      chain_world-IsCalm chain_world-IsBelow (omega arith) (omega arith) (omega arith) (omega arith)
      (omega arith)

-- Each block has one log.
abbrev pub block_logs : ℕ → List Log
block_logs n = record { block_number = some n; content = n + 40 } ∷ []

abbrev pub logs_for : ℕ → BlockRange → Call ℕ (Result ProviderError (List Log))
logs_for filter range w = (ok (logs_in block_logs range), w)

abbrev pub both_blocks : BlockId → BlockId → Call ℕ (Result ProviderError (Block × Block))
both_blocks a b w = (ok (block_by_id a, block_by_id b), w)

abbrev pub both_numbers : BlockId → Call ℕ (Result ProviderError (ℕ × ℕ))
both_numbers a w = (ok ((block_by_id a).number, 104), w)

abbrev pub block_scanner : BlockRangeScanner
block_scanner = record {
  max_block_range = 3;
  past_blocks_storage_capacity = limited 10;
  buffer_capacity = 5;
}

abbrev pub listener : EventListener ℕ ℕ
listener = record { filter = 1; sender = 2 }

-- The higher block is named first.
abbrev historic_scanner : EventScanner Historic ℕ ℕ
historic_scanner = record {
  config = record {
    from_block = BlockId.by_number BlockNumberOrTag.latest;
    to_block = BlockId.by_number BlockNumberOrTag.safe;
    max_concurrent_fetches = 24;
  };
  block_range_scanner = block_scanner;
  listeners = listener ∷ [];
}

historic_delivers_example :
    (started : Started ℕ (StreamHandler ℕ ℕ)) × ((start_historic chain_world both_blocks
        both_numbers 1 historic_scanner 0).0
      ≡ ok started)
    × (let (outcome, sent, _) = started.stream 0 in
        (outcome ≡ finished tt)
        × ListenerHas
            (handle_streaming chain_world logs_for started.handler listener (items_of sent))
            (logs_of_blocks block_logs (blocks_between 104 95))
            0)
historic_delivers_example =
    historic_delivers chain_world both_blocks both_numbers 0 chain_world logs_for block_at 104
      block_logs historic_scanner listener (block_at 104) (block_at 95) 0 0 0 chain_world-IsCalm
      chain_world-Sends chain_world-Sends (λ r v'. refl) (omega arith) refl (omega arith)
      (omega arith) (omega arith)

abbrev latest_scanner : EventScanner LatestEvents ℕ ℕ
latest_scanner = record {
  config = record {
    count = 4;
    from_block = BlockId.by_number BlockNumberOrTag.latest;
    to_block = BlockId.by_number BlockNumberOrTag.safe;
    block_confirmations = 0;
    max_concurrent_fetches = 24;
  };
  block_range_scanner = block_scanner;
  listeners = listener ∷ [];
}

latest_delivers_example :
    (started : Started ℕ (LatestEventsHandler ℕ ℕ)) × ((start_latest chain_world both_blocks
        both_numbers 0 latest_scanner 0).0
      ≡ ok started)
    × (let (outcome, sent, _) = started.stream 0 in
        (outcome ≡ finished tt)
        × SentOnce
            (summary (last_of 4 (logs_of_blocks block_logs (blocks_between 104 95))))
            (handle_latest chain_world logs_for started.handler listener (items_of sent) 0).1)
latest_delivers_example =
    latest_delivers chain_world both_blocks both_numbers 0 chain_world logs_for block_at 104
      block_logs latest_scanner listener 104 95 0 0 0 chain_world-IsCalm chain_world-Sends
      (λ r v'. refl) (λ k. ((k, refl), tt)) (omega arith) refl (omega arith) (omega arith)
      (omega arith)

-- Two listeners, each with a filter of its own.
abbrev two_listeners : StreamHandler ℕ ℕ
two_listeners = record {
  listeners = listener ∷ record { filter = 3; sender = 4 } ∷ [];
  max_concurrent_fetches = 24;
  broadcast_channel_capacity = 5;
}

abbrev two_items : List Item
two_items =
    from_data (record { start = 3; end = 4 })
    ∷ from_notification Notification.switching_to_live
    ∷ []

handle_serves_example :
    let (outcome, consumers) =
      handle chain_world
        (λ w. (true ∷ true ∷ [], w))
        chain_world
        logs_for
        received_from
        (λ l. rounds 3)
        (λ l. 7)
        two_listeners
        two_items
        0 in
    (outcome ≡ finished tt)
    × (map (λ (c : Consumer ℕ ℕ ℕ). c.0) consumers ≡ two_listeners.listeners)
    × All (IsServed chain_world logs_for (λ l. 7) two_items) consumers
handle_serves_example =
    handle_serves chain_world (λ w. (true ∷ true ∷ [], w)) chain_world logs_for received_from
      (λ l. 7) two_listeners two_items 3 0 chain_world-Sends (λ w'. refl) (λ t. refl) (omega arith)
      (omega arith)
