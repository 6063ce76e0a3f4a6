-- ===== src/Modes/FromBlockDelivery.antt =====
-- From the start of the from-block mode to what its listener has, while the chain stands.
use event_scanner.Prelude.{ℕ, ◌+◌, ◌-◌, ◌^◌, ◌≤◌, ◌<◌, ◌≡◌, refl, List, All, length}
use event_scanner.Types.{Result, ok, ProviderError}
use event_scanner.Env.{Env, Block, BlockId, Call}
use event_scanner.Task.Total.{Sends}
use event_scanner.RangeIterator.{BlockRange}
use event_scanner.RangeIterator.Step.{block_limit}
use event_scanner.Historical.Calm.{IsCalm}
use event_scanner.Live.{Incoming}
use event_scanner.Live.Calm.{IsFed}
use event_scanner.Live.CalmRun.{IsHeader}
use event_scanner.Sync.CalmSync.{Subscribes, KnowsTip}
use event_scanner.BlockRangeHandler.{Log}
use event_scanner.BlockRangeHandler.Delivery.{logs_in}
use event_scanner.EventScanner.{EventScanner, EventListener, SyncFromBlock}
use event_scanner.Modes.{StreamHandler, Started}
use event_scanner.Modes.FromBlock.{start as start_from_block}
use event_scanner.Modes.SyncHearing.{HearsSync, stream_from-HearsSync}

-- While the chain stands up to `top`, at or above its latest block, and nobody leaves, a scanner of
-- the from-block mode starts and streams until its subscription ends, on fuel above the number of
-- headers plus `top`, and a listener that gets the stream's items and the provider's logs of each
-- range ends too. It has the logs of every block from the start block up to some block, then the
-- notice that the scanner is live, then the logs of every block from there up to the highest
-- confirmed header, in the order of the chain and each block once; or nothing, where the start is
-- not yet confirmed and no header reaches it. Where the start is below the confirmed tip, the block
-- of the switch is above that tip, not below the tip confirmed at a latest block that the provider
-- answered with, and at most one above `top`; otherwise it is the start. Every subscription succeeds
-- and yields the same lags and headers of blocks up to `top`.
-- `max_block_range` is at least 1, `top` is below the limit of block numbers, and the fuel is at most
-- 2 ^ 63.
pub from_block_delivers :
    {W V F S : Type 0} (env : Env W)
    (try_join_blocks : BlockId → BlockId → Call W (Result ProviderError (Block × Block)))
    (try_join_numbers : BlockId → Call W (Result ProviderError (ℕ × ℕ))) (fuel : ℕ)
    (listening : Env V) (logs_for : F → BlockRange → Call V (Result ProviderError (List Log)))
    (upcoming : W → List Incoming) (chain : ℕ → Block) (top : ℕ) (block_logs : ℕ → List Log)
    (scanner : EventScanner SyncFromBlock F S) (listener : EventListener F S) (block latest : ℕ)
    (hs : List Incoming) (w w' : W) (v : V)
    → IsFed env upcoming
    → IsCalm env chain top
    → Subscribes env upcoming hs
    → KnowsTip env top
    → Sends listening ⊥
    → ((r : BlockRange) (v' : V) → (logs_for listener.filter r v').0 ≡ ok (logs_in block_logs r))
    → 1 ≤ scanner.block_range_scanner.max_block_range
    → top < block_limit
    → All (IsHeader top) hs
    → length hs + top + 3 ≤ fuel
    → fuel ≤ 2 ^ 63
    → (try_join_numbers scanner.config.from_block w).0 ≡ ok (block, latest)
    → latest ≤ top
    → upcoming w' ≡ hs
    → (started : Started W (StreamHandler F S)) × ((start_from_block env try_join_blocks
          try_join_numbers fuel scanner w).0
        ≡ ok started)
      × HearsSync env top listening logs_for block_logs listener hs block
          (latest - scanner.config.block_confirmations)
          scanner.config.block_confirmations
          w'
          v
          started
unfolding start_from_block
from_block_delivers env try_join_blocks try_join_numbers fuel listening logs_for upcoming chain top
      block_logs scanner listener block latest hs w w' v fed calm subscribes tipped hears fetched
      sized small known enough limited found within awaits =
    let handler : StreamHandler _ _ = record {
      listeners = scanner.listeners;
      max_concurrent_fetches = scanner.config.max_concurrent_fetches;
      broadcast_channel_capacity = scanner.block_range_scanner.buffer_capacity;
    } in
    let (task, ran, heard) =
      stream_from-HearsSync env try_join_blocks try_join_numbers fuel listening logs_for upcoming
        chain top block_logs scanner.block_range_scanner handler listener scanner.config.from_block
        scanner.config.block_confirmations block latest hs w w' v fed calm subscribes tipped hears
        fetched sized small known enough limited found within awaits in
    (record { stream = task; handler = handler }, rw ran refl, heard)
