-- ===== src/Tests/World.antt =====
-- A small chain for the tests: blocks below 2^63 - 1 exist, block 90 is finalized, the latest is
-- 104, and a subscription delivers the blocks from the world's clock up to 104.
use event_scanner.Prelude.{ℕ, ◌+◌, true, none, some, arith, ltb, if◌then◌else◌}
use event_scanner.Types.{ok}
use event_scanner.Env.{Env, Block, BlockNumberOrTag, BlockId}
use event_scanner.ReorgHandler.{ReorgHandler}
use event_scanner.Live.Served.{IsLawful}

abbrev pub block_at : ℕ → Block
block_at n = record { number = n; hash = n + 7 }

abbrev pub block_of : BlockNumberOrTag → Block
block_of (BlockNumberOrTag.number n) = block_at n
block_of BlockNumberOrTag.latest = block_at 104
block_of BlockNumberOrTag.finalized = block_at 90
block_of BlockNumberOrTag.safe = block_at 95
block_of BlockNumberOrTag.earliest = block_at 0
block_of BlockNumberOrTag.pending = block_at 105

abbrev pub block_by_id : BlockId → Block
block_by_id (BlockId.by_number t) = block_of t
block_by_id (BlockId.by_hash hash) = block_at 50

abbrev pub chain_world : Env ℕ
chain_world = record {
  get_block_by_number = λ t w. (ok (block_of t), w);
  get_block_by_hash = λ hash w. (ok (block_at 50), w);
  get_block = λ id w. (ok (block_by_id id), w);
  get_block_number_by_id = λ id w. (ok (block_by_id id).number, w);
  get_block_number = λ w. (ok 104, w);
  subscribe_blocks = λ w. (ok tt, w);
  next_header = λ w. if ltb w 105 then (some (ok (block_at w)), w + 1) else (none, w);
  send_is_ok = λ w. (true, w);
}

-- A handler that finds no reorg, and one that always finds block 90 to be the common ancestor.
abbrev pub no_reorgs : ReorgHandler ℕ (Unit {0})
no_reorgs = record { check = λ h block w. ((ok none, h), w) }

abbrev pub deep_reorgs : ReorgHandler ℕ (Unit {0})
deep_reorgs = record { check = λ h block w. ((ok (some (block_at 90)), h), w) }

pub chain_world-IsLawful : IsLawful chain_world no_reorgs
chain_world-IsLawful = record {
  numbered = λ n w block e. ground arith;
  headers = λ w block e. ground arith;
  ancestors = λ h block w ancestor e. ground arith;
}
