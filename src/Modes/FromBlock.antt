-- ===== src/Modes/FromBlock.antt =====
-- src/event_scanner/modes/sync/from_block.rs
use event_scanner.Prelude.{ℕ, ◌==◌, if◌then◌else◌}
use event_scanner.Types.{Result, ProviderError, ScannerError}
use event_scanner.Env.{Env, Block, BlockId, Call}
use event_scanner.Fallible.{Fallible, return, raise, ask, ◌>>=◌}
use event_scanner.EventScanner.{EventScannerBuilder, EventScanner, SyncFromBlock, build}
use event_scanner.Scanner
use event_scanner.Modes.{StreamHandler, Started}

unfoldable pub block_confirmations :
    ℕ → EventScannerBuilder SyncFromBlock → EventScannerBuilder SyncFromBlock
block_confirmations n b = record b { config = record (b.config) { block_confirmations = n } }

unfoldable pub max_concurrent_fetches :
    ℕ → EventScannerBuilder SyncFromBlock → EventScannerBuilder SyncFromBlock
max_concurrent_fetches n b = record b { config = record (b.config) { max_concurrent_fetches = n } }

-- A block that is named by its hash is looked up; any other is taken as it is.
abbrev pub check_hash : {W : Type 0} → Env W → BlockId → Fallible W (Unit {0})
check_hash env (BlockId.by_number tag) = return tt
check_hash env (BlockId.by_hash hash) = do _ ← ask (env.get_block_by_hash hash); return tt

module _ {W F S : Type 0} (env : Env W) where
  unfoldable pub connect :
      Call W (Result ProviderError (Unit {0}))
      → EventScannerBuilder SyncFromBlock
      → Fallible W (EventScanner SyncFromBlock F S)
  unfolding build
  connect into_robust_provider b =
      if b.config.max_concurrent_fetches == 0
      then raise ScannerError.invalid_max_concurrent_fetches
      else do
        scanner ← build into_robust_provider b
        _ ← check_hash env scanner.config.from_block
        return scanner

  module _ (try_join_blocks : BlockId → BlockId → Call W (Result ProviderError (Block × Block)))
      (try_join_numbers : BlockId → Call W (Result ProviderError (ℕ × ℕ))) (fuel : ℕ) where
    unfoldable pub start :
        EventScanner SyncFromBlock F S → Fallible W (Started W (StreamHandler F S))
    unfolding Scanner.stream_from
    start scanner = do
      stream ←
          Scanner.stream_from env try_join_blocks try_join_numbers fuel scanner.block_range_scanner
            scanner.config.from_block scanner.config.block_confirmations
      return (record {
        stream = stream;
        handler = record {
          listeners = scanner.listeners;
          max_concurrent_fetches = scanner.config.max_concurrent_fetches;
          broadcast_channel_capacity = scanner.block_range_scanner.buffer_capacity;
        };
      })
