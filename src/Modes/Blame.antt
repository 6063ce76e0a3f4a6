-- ===== src/Modes/Blame.antt =====
-- What is said of a mode's `connect`: the errors that it may return, and what `build` keeps.
use Prim.Native.String.{String}
use event_scanner.Prelude.{ℕ, ◌+◌, ◌≤◌, ◌<◌, ◌≡◌, ◌⊎◌, []}
use event_scanner.Types.{Result, ok, err, ProviderError, ScannerError, from_provider_error}
use event_scanner.Env.{Env, Block, BlockNumberOrTag, BlockId, Call}
use event_scanner.Scanner.{BlockRangeScannerBuilder}
use event_scanner.EventScanner.{EventScannerBuilder, EventScanner}

-- A block that the configuration may name when `latest` is the latest block.
abbrev pub IsKnown : {W : Type 0} → Env W → ℕ → BlockId → Type 0
IsKnown env latest_block (BlockId.by_number (BlockNumberOrTag.number n)) = n ≤ latest_block
IsKnown env latest_block (BlockId.by_number BlockNumberOrTag.pending) = ⊥
IsKnown env latest_block (BlockId.by_number tag) = Unit
IsKnown {W} env latest_block (BlockId.by_hash hash) =
    (w : W) × (block : Block) × ((env.get_block_by_hash hash w).0 ≡ ok block)
    × (block.number ≤ latest_block)

-- Why a `connect` fails: a setting that is 0, the provider that could not be made, or what `of_blocks`
-- says. A mode without a count stands as one with a count of 1.
pub data Blames {W : Type 0} (into_robust_provider : Call W (Result ProviderError (Unit {0})))
    (count fetches : ℕ) (b : BlockRangeScannerBuilder) (of_blocks : ScannerError → Type 0)
    : ScannerError → Type 0 where
  no_count :
      count ≡ 0
      → Blames into_robust_provider count fetches b of_blocks ScannerError.invalid_event_count
  no_fetches :
      fetches ≡ 0
      → Blames into_robust_provider count fetches b of_blocks
          ScannerError.invalid_max_concurrent_fetches
  no_range :
      b.max_block_range ≡ 0
      → Blames into_robust_provider count fetches b of_blocks ScannerError.invalid_max_block_range
  no_buffer :
      b.buffer_capacity ≡ 0
      → Blames into_robust_provider count fetches b of_blocks ScannerError.invalid_buffer_capacity
  not_connected :
      (w : W) (p : ProviderError)
      → (into_robust_provider w).0 ≡ err p
      → Blames into_robust_provider count fetches b of_blocks (from_provider_error p)
  bad_block :
      (e : ScannerError) → of_blocks e → Blames into_robust_provider count fetches b of_blocks e

-- The blocks of a configuration and their names.
abbrev pub IsNamed : BlockId → BlockId → String → BlockId → Type 0
IsNamed from to name id = ((name ≡ "from_block") × (id ≡ from)) ⊎ ((name ≡ "to_block") × (id ≡ to))

-- The number that a named block is checked by; every tag but `pending` passes.
abbrev pub IsNumber : {W : Type 0} → Env W → ℕ → BlockId → ℕ → Type 0
IsNumber env latest_block (BlockId.by_number (BlockNumberOrTag.number n)) num = num ≡ n
IsNumber env latest_block (BlockId.by_number BlockNumberOrTag.pending) num = num ≡ latest_block + 1
IsNumber env latest_block (BlockId.by_number tag) num = ⊥
IsNumber {W} env latest_block (BlockId.by_hash hash) num =
    (w : W) × (block : Block) × ((env.get_block_by_hash hash w).0 ≡ ok block) × (block.number ≡ num)

-- Why the check of the two blocks fails: the provider has no latest block or no block of a hash that
-- the configuration names, or one of the two is above the latest block.
pub data BlamesBlocks {W : Type 0} (env : Env W) (from to : BlockId) : ScannerError → Type 0 where
  no_latest :
      (w : W) (p : ProviderError)
      → (env.get_block_number w).0 ≡ err p
      → BlamesBlocks env from to (from_provider_error p)
  not_found :
      (name : String) (hash : ℕ) (w : W) (p : ProviderError)
      → IsNamed from to name (BlockId.by_hash hash)
      → (env.get_block_by_hash hash w).0 ≡ err p
      → BlamesBlocks env from to (from_provider_error p)
  too_high :
      (name : String) (id : BlockId) (num latest_block : ℕ) (w : W)
      → IsNamed from to name id
      → (env.get_block_number w).0 ≡ ok latest_block
      → IsNumber env latest_block id num
      → latest_block < num
      → BlamesBlocks env from to (ScannerError.block_exceeds_latest name num latest_block)

-- What `build` makes of a builder.
pub record IsBuilt {Mode F S : Type 0} (b : EventScannerBuilder Mode) (s : EventScanner Mode F S)
    : Type 0 where
  pub config : s.config ≡ b.config
  pub max_block_range :
      s.block_range_scanner.max_block_range ≡ b.block_range_scanner.max_block_range
  pub past_blocks_storage_capacity :
      s.block_range_scanner.past_blocks_storage_capacity
      ≡ b.block_range_scanner.past_blocks_storage_capacity
  pub buffer_capacity :
      s.block_range_scanner.buffer_capacity ≡ b.block_range_scanner.buffer_capacity
  pub range_allowed : 1 ≤ b.block_range_scanner.max_block_range
  pub buffer_allowed : 1 ≤ b.block_range_scanner.buffer_capacity
  pub listeners : s.listeners ≡ []
