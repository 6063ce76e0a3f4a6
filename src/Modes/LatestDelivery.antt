-- ===== src/Modes/LatestDelivery.antt =====
-- From the start of the latest-events mode to what its listener is sent, while the chain stands.
use event_scanner.Prelude.{ℕ, ◌≤◌, ◌<◌, ◌≡◌, refl, subst, List, All}
use event_scanner.Types.{Result, ok, ProviderError}
use event_scanner.Env.{Env, Block, BlockId, Call}
use event_scanner.Task.{finished}
use event_scanner.Task.Total.{Sends}
use event_scanner.RangeIterator.{BlockRange}
use event_scanner.RangeIterator.Step.{block_limit}
use event_scanner.Historical.Calm.{IsCalm}
use event_scanner.BlockRangeHandler.{Log}
use event_scanner.BlockRangeHandler.Latest.{HasBlock, SentOnce, summary, last_of}
use event_scanner.BlockRangeHandler.Delivery.{logs_of_blocks, logs_in}
use event_scanner.EventScanner.{EventScanner, EventListener, LatestEvents}
use event_scanner.Modes.{LatestEventsHandler, Started, handle_latest}
use event_scanner.Modes.Latest.{start as start_latest}
use event_scanner.Modes.Delivery.{items_of, blocks_between}
use event_scanner.Modes.RewindDelivery.{rewind_between, stream_rewind-between, collected}

-- The higher of two blocks of a chain goes first.
latest_started :
    {W F S : Type 0} (env : Env W) (chain : ℕ → Block) (top : ℕ) (calm : IsCalm env chain top)
    (scanner : EventScanner LatestEvents F S) (m n : ℕ)
    (try_join_blocks : BlockId → BlockId → Call W (Result ProviderError (Block × Block)))
    (try_join_numbers : BlockId → Call W (Result ProviderError (ℕ × ℕ))) (fuel : ℕ) (w : W)
    → (try_join_blocks scanner.config.from_block scanner.config.to_block w).0
      ≡ ok (chain m, chain n)
    → (started : Started W (LatestEventsHandler F S)) × ((start_latest env try_join_blocks
          try_join_numbers fuel scanner w).0
        ≡ ok started)
      × (started.handler.count ≡ scanner.config.count)
      × (started.stream ≡ rewind_between env chain top calm scanner.block_range_scanner m n)
unfolding start_latest
latest_started env chain top calm scanner m n try_join_blocks try_join_numbers fuel w found =
    let ran =
      stream_rewind-between env chain top calm scanner.block_range_scanner m n try_join_blocks
        try_join_numbers fuel scanner.config.from_block scanner.config.to_block w found in
    (
      record {
        stream = rewind_between env chain top calm scanner.block_range_scanner m n;
        handler = record {
          listeners = scanner.listeners;
          max_concurrent_fetches = scanner.config.max_concurrent_fetches;
          count = scanner.config.count;
          broadcast_channel_capacity = scanner.block_range_scanner.buffer_capacity;
        };
      },
      rw ran refl,
      refl,
      refl,
    )

-- While the chain stands up to `top`, at or above both blocks, and the receiver of the stream never
-- leaves, a latest-events scanner that is started between two blocks of the chain, in whichever order
-- they are named, ends its stream, and a listener that gets all of the stream's items and the
-- provider's logs of each range, each of which has its block number, is sent one item, whether or not
-- it still listens: the last `count` logs from the lower to the higher of the two blocks, in the order
-- of the chain, or that there are none. So this is about a stream whose receiver stays even after the
-- listener has its `count` logs. `max_block_range` is at least 1, and `top` is below the limit of block
-- numbers.
pub latest_delivers :
    {W V F S : Type 0} (env : Env W)
    (try_join_blocks : BlockId → BlockId → Call W (Result ProviderError (Block × Block)))
    (try_join_numbers : BlockId → Call W (Result ProviderError (ℕ × ℕ))) (fuel : ℕ)
    (listening : Env V) (logs_for : F → BlockRange → Call V (Result ProviderError (List Log)))
    (chain : ℕ → Block) (top : ℕ) (block_logs : ℕ → List Log)
    (scanner : EventScanner LatestEvents F S) (listener : EventListener F S) (m n : ℕ) (w w' : W)
    (v : V)
    → IsCalm env chain top
    → Sends env ⊥
    → ((r : BlockRange) (v' : V) → (logs_for listener.filter r v').0 ≡ ok (logs_in block_logs r))
    → ((k : ℕ) → All HasBlock (block_logs k))
    → 1 ≤ scanner.block_range_scanner.max_block_range
    → (try_join_blocks scanner.config.from_block scanner.config.to_block w).0
      ≡ ok (chain m, chain n)
    → m ≤ top
    → n ≤ top
    → top < block_limit
    → (started : Started W (LatestEventsHandler F S)) × ((start_latest env try_join_blocks
          try_join_numbers fuel scanner w).0
        ≡ ok started)
      × (let (outcome, sent, _) = started.stream w' in
          (outcome ≡ finished tt)
          × SentOnce
              (summary
                (last_of scanner.config.count (logs_of_blocks block_logs (blocks_between m n))))
              (handle_latest listening logs_for started.handler listener (items_of sent) v).1)
latest_delivers env try_join_blocks try_join_numbers fuel listening logs_for chain top block_logs
      scanner listener m n w w' v calm sends fetched numbered sized found reached₁ reached₂ small =
    let (started, ok_started, count, stream) =
      latest_started env chain top calm scanner m n try_join_blocks try_join_numbers fuel w found in
    let (ended, told) =
      collected env listening logs_for chain top calm block_logs scanner.block_range_scanner
        started.handler listener m n w' v sends fetched numbered sized reached₁ reached₂ small in
    (
      started,
      ok_started,
      rw stream (
        ended,
        subst
            (λ (k : ℕ).
              SentOnce (summary (last_of k (logs_of_blocks block_logs (blocks_between m n))))
                (handle_latest listening logs_for started.handler listener
                  (items_of
                    (rewind_between env chain top calm scanner.block_range_scanner m n w').1)
                  v).1)
            count told,
      ),
    )
