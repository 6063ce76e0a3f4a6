-- ===== src/Modes/SyncDelivery.antt =====
-- From the start of the sync modes to what their streams send.
use event_scanner.Prelude.{ℕ, ◌+◌, ◌-◌, ◌^◌, ◌≤◌, ◌<◌, ◌≡◌, refl, List, add_u64, All, arith}
use event_scanner.Types.{Result, ok, ProviderError, ScannerError}
use event_scanner.Env.{Env, Block, BlockNumberOrTag, BlockId, Call}
use event_scanner.Task.{finished}
use event_scanner.RangeIterator.Step.{block_limit}
use event_scanner.ReorgHandler.{default_handler, new}
use event_scanner.Live.Served.{IsLawful}
use event_scanner.Sync.Catchup.{HasBoundedTip}
use event_scanner.Sync.Meeting.{Meets, Gives, run-Meets}
use event_scanner.Scanner
use event_scanner.Scanner.{BlockRangeScanner}
use event_scanner.Task.Total.{Sends}
use event_scanner.RangeIterator.{BlockRange}
use event_scanner.Historical.Calm.{IsCalm}
use event_scanner.BlockRangeHandler.{Log}
use event_scanner.BlockRangeHandler.Latest.{HasBlock, SentOnce, summary, last_of}
use event_scanner.BlockRangeHandler.Delivery.{logs_of_blocks, logs_in}
use event_scanner.EventScanner.{EventScanner, SyncFromLatestEvents, EventListener}
use event_scanner.Modes.{StreamHandler, LatestEventsHandler, Started, handle_latest}
use event_scanner.Modes.Delivery.{items_of, blocks_between}
use event_scanner.Modes.RewindDelivery.{rewind_between, stream_rewind-between, collected}
use event_scanner.Modes.FromBlock.{start as start_from_block}
use event_scanner.Modes.FromLatest.{StartedTwice, start_sync, start as start_from_latest}

-- A started sync mode streams what `Meets` says, from a block.
abbrev pub StreamsFrom :
    {W F S : Type 0}
    → Env W
    → ℕ
    → ℕ
    → ℕ
    → ℕ
    → Result ScannerError (Started W (StreamHandler F S))
    → Type 0
StreamsFrom {W} {F} {S} env confirmations tip size block result =
    (started : Started W (StreamHandler F S)) × (result ≡ ok started)
    × ((w : W) → Gives (Meets env confirmations tip size block) (started.stream w))

module _ {W F S : Type 0} (env : Env W)
    (try_join_blocks : BlockId → BlockId → Call W (Result ProviderError (Block × Block)))
    (try_join_numbers : BlockId → Call W (Result ProviderError (ℕ × ℕ))) (fuel : ℕ)
    (lawful : IsLawful env (default_handler env)) (enough : fuel ≤ 2 ^ 63)
    (bounded : HasBoundedTip env) (subscribes : (w : W) → (env.subscribe_blocks w).0 ≡ ok tt) where
  start_sync-StreamsFrom :
      (scanner : EventScanner SyncFromLatestEvents F S) (n latest : ℕ) (w : W)
      → 1 ≤ scanner.block_range_scanner.max_block_range
      → n < block_limit
      → (try_join_numbers (BlockId.by_number (BlockNumberOrTag.number (n + 1))) w).0
        ≡ ok (n + 1, latest)
      → latest < block_limit
      → StreamsFrom env scanner.config.block_confirmations
          (latest - scanner.config.block_confirmations)
          scanner.block_range_scanner.max_block_range
          (n + 1)
          (start_sync env try_join_blocks try_join_numbers fuel n scanner w).0
  unfolding Scanner.stream_from
  start_sync-StreamsFrom scanner n latest w sized in_range found small =
      let no_wrap : add_u64 n 1 ≡ n + 1 = omega (arith, in_range) in
      let (task, ran, meets) =
        run-Meets env (default_handler env) try_join_numbers fuel
          (record {
            max_block_range = scanner.block_range_scanner.max_block_range;
            start_id = BlockId.by_number (BlockNumberOrTag.number (n + 1));
            block_confirmations = scanner.config.block_confirmations;
          })
          (new scanner.block_range_scanner.past_blocks_storage_capacity) w (n + 1) latest lawful
          sized enough bounded subscribes found small in
      (
        record {
          stream = task;
          handler = record {
            listeners = scanner.listeners;
            max_concurrent_fetches = scanner.config.max_concurrent_fetches;
            broadcast_channel_capacity = scanner.block_range_scanner.buffer_capacity;
          };
        },
        rw (no_wrap, ran) refl,
        meets,
      )

-- While the chain stands up to `top`, a scanner of the from-latest mode that is started at a latest
-- block `n` runs its two phases. The first ends, and its listener is sent the last `count` logs up
-- to block `n`, in the order of the chain, or that there are none; the second streams from block `n
-- + 1`, without a panic: historical ranges without a gap and then live ones from where these end,
-- or it ends before with an error or without a receiver. The provider is lawful, the subscription
-- to new blocks succeeds, and every log has its block number.
pub from_latest_delivers :
    {W V F S : Type 0} (env : Env W)
    (try_join_blocks : BlockId → BlockId → Call W (Result ProviderError (Block × Block)))
    (try_join_numbers : BlockId → Call W (Result ProviderError (ℕ × ℕ))) (fuel : ℕ)
    (listening : Env V) (logs_for : F → BlockRange → Call V (Result ProviderError (List Log)))
    (chain : ℕ → Block) (top : ℕ) (block_logs : ℕ → List Log)
    (scanner : EventScanner SyncFromLatestEvents F S) (listener : EventListener F S)
    (n first latest : ℕ) (w w' w'' : W) (v : V)
    → IsCalm env chain top
    → Sends env ⊥
    → IsLawful env (default_handler env)
    → HasBoundedTip env
    → ((w₀ : W) → (env.subscribe_blocks w₀).0 ≡ ok tt)
    → ((r : BlockRange) (v' : V) → (logs_for listener.filter r v').0 ≡ ok (logs_in block_logs r))
    → ((k : ℕ) → All HasBlock (block_logs k))
    → 1 ≤ scanner.block_range_scanner.max_block_range
    → fuel ≤ 2 ^ 63
    → (env.get_block_number w).0 ≡ ok n
    → (try_join_blocks
        (BlockId.by_number (BlockNumberOrTag.number n))
        (BlockId.by_number BlockNumberOrTag.earliest)
        (env.get_block_number w).1).0
      ≡ ok (chain n, chain first)
    → n ≤ top
    → first ≤ top
    → top < block_limit
    → (try_join_numbers (BlockId.by_number (BlockNumberOrTag.number (n + 1))) w'').0
      ≡ ok (n + 1, latest)
    → latest < block_limit
    → (twice : StartedTwice W F S) × ((start_from_latest env try_join_blocks try_join_numbers fuel
          scanner w).0
        ≡ ok twice)
      × (let (outcome, sent, _) = twice.collection.stream w' in
          (outcome ≡ finished tt)
          × SentOnce
              (summary
                (last_of scanner.config.count (logs_of_blocks block_logs (blocks_between n first))))
              (handle_latest listening logs_for twice.collection.handler listener
                (items_of sent)
                v).1)
      × StreamsFrom env scanner.config.block_confirmations
          (latest - scanner.config.block_confirmations)
          scanner.block_range_scanner.max_block_range
          (n + 1)
          (twice.sync w'').0
unfolding start_from_latest
from_latest_delivers {F = F} {S = S} env try_join_blocks try_join_numbers fuel listening logs_for
      chain top block_logs scanner listener n first latest w w' w'' v calm sends lawful bounded
      subscribes fetched numbered sized enough asked found reached₁ reached₂ small found' small' =
    let ran =
      stream_rewind-between env chain top calm scanner.block_range_scanner n first try_join_blocks
        try_join_numbers fuel (BlockId.by_number (BlockNumberOrTag.number n))
        (BlockId.by_number BlockNumberOrTag.earliest) (env.get_block_number w).1 found in
    let handler : LatestEventsHandler F S = record {
      listeners = scanner.listeners;
      max_concurrent_fetches = scanner.config.max_concurrent_fetches;
      count = scanner.config.count;
      broadcast_channel_capacity = scanner.block_range_scanner.buffer_capacity;
    } in
    (
      record {
        collection = record {
          stream = rewind_between env chain top calm scanner.block_range_scanner n first;
          handler = handler;
        };
        sync = start_sync env try_join_blocks try_join_numbers fuel n scanner;
      },
      rw (asked, ran) refl,
      collected env listening logs_for chain top calm block_logs scanner.block_range_scanner handler
          listener n first w' v sends fetched numbered sized reached₁ reached₂ small,
      start_sync-StreamsFrom env try_join_blocks try_join_numbers fuel lawful enough bounded
          subscribes scanner n latest w'' sized (omega (arith, reached₁, small)) found' small',
    )
