-- ===== src/Modes/FromLatestDelivery.antt =====
-- From the start of the from-latest mode to what its listener has of both phases, while the chain
-- stands.
use event_scanner.Prelude.{
  ℕ, ◌+◌, ◌-◌, ◌^◌, ◌≤◌, ◌<◌, ◌≡◌, refl, List, add_u64, All, arith, length, inl,
}
use event_scanner.Types.{Result, ok, ProviderError}
use event_scanner.Env.{Env, Block, BlockNumberOrTag, BlockId, Call}
use event_scanner.Task.{finished}
use event_scanner.Task.Total.{Sends}
use event_scanner.RangeIterator.{BlockRange}
use event_scanner.RangeIterator.Step.{block_limit}
use event_scanner.Historical.Calm.{IsCalm}
use event_scanner.Live.{Incoming}
use event_scanner.Live.Calm.{IsFed}
use event_scanner.Live.CalmRun.{IsHeader}
use event_scanner.Sync.CalmSync.{Subscribes, KnowsTip}
use event_scanner.BlockRangeHandler.{Log}
use event_scanner.BlockRangeHandler.Latest.{HasBlock, SentOnce, summary, last_of}
use event_scanner.BlockRangeHandler.Delivery.{logs_of_blocks, logs_in}
use event_scanner.EventScanner.{EventScanner, SyncFromLatestEvents, EventListener}
use event_scanner.Modes.{StreamHandler, LatestEventsHandler, Started, handle_latest}
use event_scanner.Modes.Delivery.{items_of, blocks_between}
use event_scanner.Modes.RewindDelivery.{rewind_between, stream_rewind-between, collected}
use event_scanner.Modes.SyncHearing.{HearsSync, stream_from-HearsSync}
use event_scanner.Modes.FromLatest.{StartedTwice, start_sync, start as start_from_latest}

-- The first phase of a started from-latest mode, on its own: the stream ends, and the listener is
-- sent the last logs of these blocks, or that there are none.
abbrev pub Collects :
    {W V F S : Type 0}
    → Env V
    → (F → BlockRange → Call V (Result ProviderError (List Log)))
    → (ℕ → List Log)
    → EventListener F S
    → ℕ
    → List ℕ
    → W
    → V
    → Started W (LatestEventsHandler F S)
    → Type 0
Collects listening logs_for block_logs listener count blocks w v started =
    let (outcome, sent, _) = started.stream w in
    (outcome ≡ finished tt)
    × SentOnce (summary (last_of count (logs_of_blocks block_logs blocks)))
        (handle_latest listening logs_for started.handler listener (items_of sent) v).1

-- While the chain stands up to `top`, at or above its latest block, and nobody leaves, a scanner of
-- the from-latest mode that is started at a latest block `n` runs its two phases. The first ends,
-- and its listener is sent the last `count` logs up to block `n`, in the order of the chain, or
-- that there are none. The second starts, streams until its subscription ends and its listener ends
-- too: with the logs of every block from `n + 1` up to some block, then the notice that the scanner
-- is live, then the logs of every block from there up to the highest confirmed header, each block
-- once; or with nothing, where block `n + 1` is not yet confirmed and no header reaches it. Where
-- block `n + 1` is below the confirmed tip, the block of the switch is above that tip, not below
-- the tip confirmed at a latest block that the provider answered with, and at most one above `top`;
-- otherwise it is block `n + 1`. Every subscription succeeds and yields the same lags and headers
-- of blocks up to `top`, the fuel is above their number plus `top`, and every log has its block
-- number. `max_block_range` is at least 1, `top` is below the limit of block numbers, and the fuel
-- is at most 2 ^ 63.
pub from_latest_hears :
    {W V F S : Type 0} (env : Env W)
    (try_join_blocks : BlockId → BlockId → Call W (Result ProviderError (Block × Block)))
    (try_join_numbers : BlockId → Call W (Result ProviderError (ℕ × ℕ))) (fuel : ℕ)
    (listening : Env V) (logs_for : F → BlockRange → Call V (Result ProviderError (List Log)))
    (upcoming : W → List Incoming) (chain : ℕ → Block) (top : ℕ) (block_logs : ℕ → List Log)
    (scanner : EventScanner SyncFromLatestEvents F S) (listener : EventListener F S)
    (n first latest : ℕ) (hs : List Incoming) (w₁ w₂ w₃ w₄ : W) (v₁ v₂ : V)
    → IsFed env upcoming
    → IsCalm env chain top
    → Subscribes env upcoming hs
    → KnowsTip env top
    → Sends listening ⊥
    → ((r : BlockRange) (v' : V) → (logs_for listener.filter r v').0 ≡ ok (logs_in block_logs r))
    → ((k : ℕ) → All HasBlock (block_logs k))
    → 1 ≤ scanner.block_range_scanner.max_block_range
    → top < block_limit
    → All (IsHeader top) hs
    → length hs + top + 3 ≤ fuel
    → fuel ≤ 2 ^ 63
    → (env.get_block_number w₁).0 ≡ ok n
    → (try_join_blocks
        (BlockId.by_number (BlockNumberOrTag.number n))
        (BlockId.by_number BlockNumberOrTag.earliest)
        (env.get_block_number w₁).1).0
      ≡ ok (chain n, chain first)
    → n ≤ top
    → first ≤ top
    → (try_join_numbers (BlockId.by_number (BlockNumberOrTag.number (n + 1))) w₃).0
      ≡ ok (n + 1, latest)
    → latest ≤ top
    → upcoming w₄ ≡ hs
    → (twice : StartedTwice W F S) × ((start_from_latest env try_join_blocks try_join_numbers fuel
          scanner w₁).0
        ≡ ok twice)
      × Collects listening logs_for block_logs listener scanner.config.count
          (blocks_between n first)
          w₂
          v₁
          twice.collection
      × (started : Started W (StreamHandler F S)) × ((twice.sync w₃).0 ≡ ok started)
      × HearsSync env top listening logs_for block_logs listener hs
          (n + 1)
          (latest - scanner.config.block_confirmations)
          scanner.config.block_confirmations
          w₄
          v₂
          started
unfolding start_from_latest
from_latest_hears {F = F} {S = S} env try_join_blocks try_join_numbers fuel listening logs_for
      upcoming chain top block_logs scanner listener n first latest hs w₁ w₂ w₃ w₄ v₁ v₂ fed calm
      subscribes tipped hears fetched numbered sized small known enough limited asked found reached₁
      reached₂ found' within awaits =
    let no_wrap : add_u64 n 1 ≡ n + 1 = omega (arith, reached₁, small) in
    let collecting : LatestEventsHandler F S = record {
      listeners = scanner.listeners;
      max_concurrent_fetches = scanner.config.max_concurrent_fetches;
      count = scanner.config.count;
      broadcast_channel_capacity = scanner.block_range_scanner.buffer_capacity;
    } in
    let handler : StreamHandler F S = record {
      listeners = scanner.listeners;
      max_concurrent_fetches = scanner.config.max_concurrent_fetches;
      broadcast_channel_capacity = scanner.block_range_scanner.buffer_capacity;
    } in
    let rewound =
      stream_rewind-between env chain top calm scanner.block_range_scanner n first try_join_blocks
        try_join_numbers fuel (BlockId.by_number (BlockNumberOrTag.number n))
        (BlockId.by_number BlockNumberOrTag.earliest) (env.get_block_number w₁).1 found in
    let (task, ran, heard) =
      stream_from-HearsSync env try_join_blocks try_join_numbers fuel listening logs_for upcoming
        chain top block_logs scanner.block_range_scanner handler listener
        (BlockId.by_number (BlockNumberOrTag.number (n + 1))) scanner.config.block_confirmations
        (n + 1) latest hs w₃ w₄ v₂ fed calm subscribes tipped hears fetched sized small known enough
        limited found' within awaits in
    (
      record {
        collection = record {
          stream = rewind_between env chain top calm scanner.block_range_scanner n first;
          handler = collecting;
        };
        sync = start_sync env try_join_blocks try_join_numbers fuel n scanner;
      },
      rw (asked, rewound) refl,
      collected env listening logs_for chain top calm block_logs scanner.block_range_scanner
          collecting listener n first w₂ v₁ (λ w. inl (fed.sends w)) fetched numbered sized reached₁
          reached₂ small,
      record { stream = task; handler = handler },
      rw (no_wrap, ran) refl,
      heard,
    )
