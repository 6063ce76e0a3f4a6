-- ===== src/Modes/Live.antt =====
-- src/event_scanner/modes/live.rs
use event_scanner.Prelude.{ℕ, ◌==◌, if◌then◌else◌}
use event_scanner.Types.{Result, ProviderError, ScannerError}
use event_scanner.Env.{Env, Block, BlockId, Call}
use event_scanner.Fallible.{Fallible, return, raise, ◌>>=◌}
use event_scanner.EventScanner.{EventScannerBuilder, EventScanner, Live, build}
use event_scanner.Scanner
use event_scanner.Modes.{StreamHandler, Started}

unfoldable pub block_confirmations : ℕ → EventScannerBuilder Live → EventScannerBuilder Live
block_confirmations n b = record b { config = record (b.config) { block_confirmations = n } }

unfoldable pub max_concurrent_fetches : ℕ → EventScannerBuilder Live → EventScannerBuilder Live
max_concurrent_fetches n b = record b { config = record (b.config) { max_concurrent_fetches = n } }

unfoldable pub connect :
    {W F S : Type 0}
    → Call W (Result ProviderError (Unit {0}))
    → EventScannerBuilder Live
    → Fallible W (EventScanner Live F S)
unfolding build
connect into_robust_provider b =
    if b.config.max_concurrent_fetches == 0
    then raise ScannerError.invalid_max_concurrent_fetches
    else build into_robust_provider b

module _ {W F S : Type 0} (env : Env W)
    (try_join_blocks : BlockId → BlockId → Call W (Result ProviderError (Block × Block)))
    (try_join_numbers : BlockId → Call W (Result ProviderError (ℕ × ℕ))) (fuel : ℕ) where
  unfoldable pub start : EventScanner Live F S → Fallible W (Started W (StreamHandler F S))
  unfolding Scanner.stream_live
  start scanner = do
    stream ←
        Scanner.stream_live env try_join_blocks try_join_numbers fuel scanner.block_range_scanner
          scanner.config.block_confirmations
    return (record {
      stream = stream;
      handler = record {
        listeners = scanner.listeners;
        max_concurrent_fetches = scanner.config.max_concurrent_fetches;
        broadcast_channel_capacity = scanner.block_range_scanner.buffer_capacity;
      };
    })
