-- ===== src/Modes/FromLatest.antt =====
-- src/event_scanner/modes/sync/from_latest.rs: the latest events first, then the sync mode.
use event_scanner.Prelude.{ℕ, ◌==◌, if◌then◌else◌, add_u64}
use event_scanner.Types.{Result, ProviderError, ScannerError}
use event_scanner.Env.{Env, Block, BlockNumberOrTag, BlockId, Call}
use event_scanner.Fallible.{Fallible, return, raise, ask, ◌>>=◌}
use event_scanner.EventScanner.{EventScannerBuilder, EventScanner, SyncFromLatestEvents, build}
use event_scanner.Scanner
use event_scanner.Modes.{StreamHandler, LatestEventsHandler, Started}

unfoldable pub block_confirmations :
    ℕ → EventScannerBuilder SyncFromLatestEvents → EventScannerBuilder SyncFromLatestEvents
block_confirmations n b = record b { config = record (b.config) { block_confirmations = n } }

unfoldable pub max_concurrent_fetches :
    ℕ → EventScannerBuilder SyncFromLatestEvents → EventScannerBuilder SyncFromLatestEvents
max_concurrent_fetches n b = record b { config = record (b.config) { max_concurrent_fetches = n } }

unfoldable pub connect :
    {W F S : Type 0}
    → Call W (Result ProviderError (Unit {0}))
    → EventScannerBuilder SyncFromLatestEvents
    → Fallible W (EventScanner SyncFromLatestEvents F S)
unfolding build
connect into_robust_provider b =
    if b.config.count == 0
    then raise ScannerError.invalid_event_count
    else if b.config.max_concurrent_fetches == 0
    then raise ScannerError.invalid_max_concurrent_fetches
    else build into_robust_provider b

-- The two phases: the rewind with its handler, then, once that handler has ended, the start of the
-- sync stream with its handler. An error of that start is sent to every listener.
pub record StartedTwice (W F S : Type 0) : Type 0 where
  pub collection : Started W (LatestEventsHandler F S)
  pub sync : Fallible W (Started W (StreamHandler F S))

module _ {W F S : Type 0} (env : Env W)
    (try_join_blocks : BlockId → BlockId → Call W (Result ProviderError (Block × Block)))
    (try_join_numbers : BlockId → Call W (Result ProviderError (ℕ × ℕ))) (fuel : ℕ) where
  -- Phase 2, the stream from the block after `latest_block`.
  abbrev pub start_sync :
      ℕ → EventScanner SyncFromLatestEvents F S → Fallible W (Started W (StreamHandler F S))
  start_sync latest_block scanner = do
    sync_stream ←
        Scanner.stream_from env try_join_blocks try_join_numbers fuel scanner.block_range_scanner
          (BlockId.by_number (BlockNumberOrTag.number (add_u64 latest_block 1)))
          scanner.config.block_confirmations
    return (record {
      stream = sync_stream;
      handler = record {
        listeners = scanner.listeners;
        max_concurrent_fetches = scanner.config.max_concurrent_fetches;
        broadcast_channel_capacity = scanner.block_range_scanner.buffer_capacity;
      };
    })

  unfoldable pub start : EventScanner SyncFromLatestEvents F S → Fallible W (StartedTwice W F S)
  unfolding Scanner.stream_rewind Scanner.stream_from
  start scanner = do
    latest_block ← ask env.get_block_number
    rewind_stream ←
        Scanner.stream_rewind env try_join_blocks try_join_numbers fuel scanner.block_range_scanner
          (BlockId.by_number (BlockNumberOrTag.number latest_block))
          (BlockId.by_number BlockNumberOrTag.earliest)
    return (record {
      collection = record {
        stream = rewind_stream;
        handler = record {
          listeners = scanner.listeners;
          max_concurrent_fetches = scanner.config.max_concurrent_fetches;
          count = scanner.config.count;
          broadcast_channel_capacity = scanner.block_range_scanner.buffer_capacity;
        };
      };
      sync = start_sync latest_block scanner;
    })
