-- ===== src/Tests/SyncModes.antt =====
-- The sync modes, over the small chain below the limit.
use event_scanner.Prelude.{ℕ, refl, [], ◌∷◌, arith}
use event_scanner.Env.{BlockNumberOrTag, BlockId}
use event_scanner.Historical.Calm.{IsCalm}
use event_scanner.EventScanner.{EventScanner, SyncFromBlock}
use event_scanner.Modes.FromBlock.{start as start_from_block}
use event_scanner.Tests.World.{block_at}
use event_scanner.Tests.Scanners.{bounded_world}
use event_scanner.Tests.Deliveries.{block_scanner, listener}

bounded_world-IsCalm : IsCalm bounded_world block_at 104
bounded_world-IsCalm = record {
  blocks = λ n reached w. ground (arith, reached);
  numbers = λ n. refl;
}

abbrev from_block_scanner : EventScanner SyncFromBlock ℕ ℕ
from_block_scanner = record {
  config = record {
    from_block = BlockId.by_number BlockNumberOrTag.finalized;
    block_confirmations = 2;
    max_concurrent_fetches = 24;
  };
  block_range_scanner = block_scanner;
  listeners = listener ∷ [];
}
