-- ===== src/Tests/Scanners.antt =====
-- A scanner that is connected to the small chain, with its default reorg handler.
use event_scanner.Prelude.{ℕ, ◌≡◌, refl, ltb, if◌then◌else◌, arith}
use event_scanner.Types.{Result, ok, err, ProviderError}
use event_scanner.Env.{Env, Block, BlockNumberOrTag, BlockId, Call}
use event_scanner.Task.{Task}
use event_scanner.RangeStream.{Item}
use event_scanner.RangeIterator.Step.{block_limit}
use event_scanner.RingBuffer.{limited}
use event_scanner.ReorgHandler.{default_handler}
use event_scanner.ReorgHandler.Ancestors.{IsBounded, check-Found}
use event_scanner.Rewind.Rescan.{IsHonest}
use event_scanner.Scanner.{BlockRangeScannerBuilder, BlockRangeScanner, connect, stream_rewind}
use event_scanner.Scanner.Start.{Rewinds, stream_rewind-Rewinds}
use event_scanner.Tests.World.{block_at, block_by_id, chain_world}

-- The blocks that can be asked for, by number, are those below the limit.
abbrev pub find_block : BlockNumberOrTag → Result ProviderError Block
find_block (BlockNumberOrTag.number n) =
    if ltb n block_limit then ok (block_at n) else err ProviderError.block_not_found
find_block BlockNumberOrTag.latest = ok (block_at 104)
find_block BlockNumberOrTag.finalized = ok (block_at 90)
find_block BlockNumberOrTag.safe = ok (block_at 95)
find_block BlockNumberOrTag.earliest = ok (block_at 0)
find_block BlockNumberOrTag.pending = ok (block_at 105)

abbrev pub bounded_world : Env ℕ
bounded_world = record chain_world { get_block_by_number = λ t w. (find_block t, w) }

pub bounded_world-IsBounded : IsBounded bounded_world block_limit
bounded_world-IsBounded (BlockNumberOrTag.number n) w block e = ground arith
bounded_world-IsBounded BlockNumberOrTag.latest w block e = ground arith
bounded_world-IsBounded BlockNumberOrTag.finalized w block e = ground arith
bounded_world-IsBounded BlockNumberOrTag.safe w block e = ground arith
bounded_world-IsBounded BlockNumberOrTag.earliest w block e = ground arith
bounded_world-IsBounded BlockNumberOrTag.pending w block e = ground arith

pub bounded_world-IsHonest : IsHonest bounded_world (default_handler bounded_world)
unfolding default_handler
bounded_world-IsHonest = record {
  numbered = λ n w block e. ground arith;
  ancestors = λ h block w ancestor e.
      check-Found bounded_world block_limit bounded_world-IsBounded h block w ancestor e;
}

abbrev scanner : BlockRangeScanner
scanner = record {
  max_block_range = 10;
  past_blocks_storage_capacity = limited 10;
  buffer_capacity = 5;
}

abbrev builder : BlockRangeScannerBuilder
builder = record {
  max_block_range = 10;
  past_blocks_storage_capacity = limited 10;
  buffer_capacity = 5;
}

abbrev connected_provider : Call ℕ (Result ProviderError (Unit {0}))
connected_provider w = (ok tt, w)

abbrev both_blocks : BlockId → BlockId → Call ℕ (Result ProviderError (Block × Block))
both_blocks a b w = (ok (block_by_id a, block_by_id b), w)

abbrev both_numbers : BlockId → Call ℕ (Result ProviderError (ℕ × ℕ))
both_numbers a w = (ok ((block_by_id a).number, 104), w)

scanner_connects : (connect connected_provider builder 0).0 ≡ ok scanner
unfolding connect
scanner_connects = refl

-- From block 95, the safe one, and block 104, the latest.
stream_rewind-Rewinds_example :
    (task : Task Item ℕ (Unit {0})) × ((stream_rewind bounded_world both_blocks both_numbers 0
        scanner
        (BlockId.by_number BlockNumberOrTag.safe)
        (BlockId.by_number BlockNumberOrTag.latest)
        0).0
      ≡ ok task)
    × Rewinds 10 104 95 task
stream_rewind-Rewinds_example =
    stream_rewind-Rewinds bounded_world connected_provider both_blocks both_numbers 0 builder
      scanner (BlockId.by_number BlockNumberOrTag.safe) (BlockId.by_number BlockNumberOrTag.latest)
      (block_at 95) (block_at 104) 0 0 bounded_world-IsHonest scanner_connects refl (omega arith)
      (omega arith)
