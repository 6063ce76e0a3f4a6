-- ===== src/Modes/Historic.antt =====
-- src/event_scanner/modes/historic.rs
use event_scanner.Prelude.{ℕ, ◌==◌, if◌then◌else◌}
use event_scanner.Types.{Result, ProviderError, ScannerError}
use event_scanner.Env.{Env, Block, BlockId, Call}
use event_scanner.Fallible.{Fallible, return, raise, ask, ◌>>=◌}
use event_scanner.EventScanner.{EventScannerBuilder, EventScanner, Historic, build}
use event_scanner.Scanner
use event_scanner.Modes.{check_block, StreamHandler, Started}

unfoldable pub from_block : BlockId → EventScannerBuilder Historic → EventScannerBuilder Historic
from_block id b = record b { config = record (b.config) { from_block = id } }

unfoldable pub to_block : BlockId → EventScannerBuilder Historic → EventScannerBuilder Historic
to_block id b = record b { config = record (b.config) { to_block = id } }

unfoldable pub max_concurrent_fetches :
    ℕ → EventScannerBuilder Historic → EventScannerBuilder Historic
max_concurrent_fetches n b = record b { config = record (b.config) { max_concurrent_fetches = n } }

module _ {W F S : Type 0} (env : Env W) where
  unfoldable pub connect :
      Call W (Result ProviderError (Unit {0}))
      → EventScannerBuilder Historic
      → Fallible W (EventScanner Historic F S)
  unfolding build check_block
  connect into_robust_provider b =
      if b.config.max_concurrent_fetches == 0
      then raise ScannerError.invalid_max_concurrent_fetches
      else do
        scanner ← build into_robust_provider b
        latest_block ← ask env.get_block_number
        _ ← check_block env "from_block" latest_block scanner.config.from_block
        _ ← check_block env "to_block" latest_block scanner.config.to_block
        return scanner

  module _ (try_join_blocks : BlockId → BlockId → Call W (Result ProviderError (Block × Block)))
      (try_join_numbers : BlockId → Call W (Result ProviderError (ℕ × ℕ))) (fuel : ℕ) where
    unfoldable pub start : EventScanner Historic F S → Fallible W (Started W (StreamHandler F S))
    unfolding Scanner.stream_historical
    start scanner = do
      stream ←
          Scanner.stream_historical env try_join_blocks try_join_numbers fuel
            scanner.block_range_scanner scanner.config.from_block scanner.config.to_block
      return (record {
        stream = stream;
        handler = record {
          listeners = scanner.listeners;
          max_concurrent_fetches = scanner.config.max_concurrent_fetches;
          broadcast_channel_capacity = scanner.block_range_scanner.buffer_capacity;
        };
      })
