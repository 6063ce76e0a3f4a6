-- ===== src/Scanner/Setters.antt =====
-- The setters of src/block_range_scanner/builder.rs.
use event_scanner.Prelude.{ℕ}
use event_scanner.RingBuffer.{RingBufferCapacity}
use event_scanner.Scanner.{BlockRangeScannerBuilder}

unfoldable pub max_block_range : ℕ → BlockRangeScannerBuilder → BlockRangeScannerBuilder
max_block_range n b = record b { max_block_range = n }

unfoldable pub past_blocks_storage_capacity :
    RingBufferCapacity → BlockRangeScannerBuilder → BlockRangeScannerBuilder
past_blocks_storage_capacity c b = record b { past_blocks_storage_capacity = c }

unfoldable pub buffer_capacity : ℕ → BlockRangeScannerBuilder → BlockRangeScannerBuilder
buffer_capacity n b = record b { buffer_capacity = n }
