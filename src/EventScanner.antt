-- ===== src/EventScanner.antt =====
-- src/event_scanner/builder.rs, src/event_scanner/scanner.rs and src/event_scanner/listener.rs: the
-- configuration of each mode, the scanner that a builder makes, and its listeners.
use event_scanner.Prelude.{ℕ, List, [], ◌∷◌, ◌++◌}
use event_scanner.Types.{Result, ProviderError}
use event_scanner.Env.{BlockNumberOrTag, BlockId, Call}
use event_scanner.RingBuffer.{RingBufferCapacity}
use event_scanner.Scanner.{BlockRangeScannerBuilder, BlockRangeScanner, new_builder}
use event_scanner.Scanner
use event_scanner.Fallible.{Fallible, return, ◌>>=◌}

abbrev pub default_block_confirmations : ℕ
default_block_confirmations = 0

abbrev pub default_max_concurrent_fetches : ℕ
default_max_concurrent_fetches = 24

pub record Historic : Type 0 where
  pub from_block : BlockId
  pub to_block : BlockId
  pub max_concurrent_fetches : ℕ

pub record Live : Type 0 where
  pub block_confirmations : ℕ
  pub max_concurrent_fetches : ℕ

pub record LatestEvents : Type 0 where
  pub count : ℕ
  pub from_block : BlockId
  pub to_block : BlockId
  pub block_confirmations : ℕ
  pub max_concurrent_fetches : ℕ

pub record SyncFromLatestEvents : Type 0 where
  pub count : ℕ
  pub block_confirmations : ℕ
  pub max_concurrent_fetches : ℕ

pub record SyncFromBlock : Type 0 where
  pub from_block : BlockId
  pub block_confirmations : ℕ
  pub max_concurrent_fetches : ℕ

pub record EventScannerBuilder (Mode : Type 0) : Type 0 where
  pub config : Mode
  pub block_range_scanner : BlockRangeScannerBuilder

unfoldable pub historic : EventScannerBuilder Historic
unfolding new_builder
historic = record {
  config = record {
    from_block = BlockId.by_number BlockNumberOrTag.earliest;
    to_block = BlockId.by_number BlockNumberOrTag.latest;
    max_concurrent_fetches = default_max_concurrent_fetches;
  };
  block_range_scanner = new_builder;
}

unfoldable pub live : EventScannerBuilder Live
unfolding new_builder
live = record {
  config = record {
    block_confirmations = default_block_confirmations;
    max_concurrent_fetches = default_max_concurrent_fetches;
  };
  block_range_scanner = new_builder;
}

unfoldable pub latest : ℕ → EventScannerBuilder LatestEvents
unfolding new_builder
latest count = record {
  config = record {
    count = count;
    from_block = BlockId.by_number BlockNumberOrTag.latest;
    to_block = BlockId.by_number BlockNumberOrTag.earliest;
    block_confirmations = default_block_confirmations;
    max_concurrent_fetches = default_max_concurrent_fetches;
  };
  block_range_scanner = new_builder;
}

-- `sync().from_latest(count)`
unfoldable pub from_latest : ℕ → EventScannerBuilder SyncFromLatestEvents
unfolding new_builder
from_latest count = record {
  config = record {
    count = count;
    block_confirmations = default_block_confirmations;
    max_concurrent_fetches = default_max_concurrent_fetches;
  };
  block_range_scanner = new_builder;
}

-- `sync().from_block(id)`
unfoldable pub from_block : BlockId → EventScannerBuilder SyncFromBlock
unfolding new_builder
from_block id = record {
  config = record {
    from_block = id;
    block_confirmations = default_block_confirmations;
    max_concurrent_fetches = default_max_concurrent_fetches;
  };
  block_range_scanner = new_builder;
}

-- A listener: what it asks for, and the sending end of its channel.
pub record EventListener (F S : Type 0) : Type 0 where
  pub filter : F
  pub sender : S

pub record EventScanner (Mode F S : Type 0) : Type 0 where
  pub config : Mode
  pub block_range_scanner : BlockRangeScanner
  pub listeners : List (EventListener F S)

module _ {Mode : Type 0} where
  unfoldable pub max_block_range : ℕ → EventScannerBuilder Mode → EventScannerBuilder Mode
  max_block_range n b = record b {
    block_range_scanner = record (b.block_range_scanner) { max_block_range = n };
  }

  unfoldable pub past_blocks_storage_capacity :
      RingBufferCapacity → EventScannerBuilder Mode → EventScannerBuilder Mode
  past_blocks_storage_capacity c b = record b {
    block_range_scanner = record (b.block_range_scanner) { past_blocks_storage_capacity = c };
  }

  unfoldable pub buffer_capacity : ℕ → EventScannerBuilder Mode → EventScannerBuilder Mode
  buffer_capacity n b = record b {
    block_range_scanner = record (b.block_range_scanner) { buffer_capacity = n };
  }

  unfoldable pub build :
      {W F S : Type 0}
      → Call W (Result ProviderError (Unit {0}))
      → EventScannerBuilder Mode
      → Fallible W (EventScanner Mode F S)
  unfolding Scanner.connect
  build into_robust_provider b = do
    scanner ← Scanner.connect into_robust_provider b.block_range_scanner
    return (record { config = b.config; block_range_scanner = scanner; listeners = [] })

  -- `subscribe`: the listener's receiving end, and the scanner with the listener.
  -- `channel` is tokio's `mpsc::channel`.
  unfoldable pub subscribe :
      {F S R : Type 0} → (ℕ → S × R) → F → EventScanner Mode F S → R × EventScanner Mode F S
  subscribe channel filter scanner =
      let (sender, receiver) = channel scanner.block_range_scanner.buffer_capacity in
      (
        receiver,
        record scanner {
          listeners = scanner.listeners ++ (record { filter = filter; sender = sender } ∷ []);
        },
      )
