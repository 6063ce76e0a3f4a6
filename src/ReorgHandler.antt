-- ===== src/ReorgHandler.antt =====
-- src/block_range_scanner/reorg_handler.rs: the trait `ReorgHandler` as an interface, and its default
-- implementation over the provider and a ring buffer of past block hashes.
pub mod Reference
pub mod Ancestors
pub mod Bounds
use event_scanner.Prelude.{
  ℕ, zero, suc, Bool, true, false, not, Option, none, some, length, ◌==◌, leb, if◌then◌else◌,
}
use event_scanner.Types.{Result, ok, err, ProviderError, ScannerError, from_provider_error}
use event_scanner.Env.{Env, Block, BlockNumberOrTag, Call}
use event_scanner.RingBuffer
use event_scanner.RingBuffer.{RingBuffer, RingBufferCapacity}

-- The outcome of a check: the common ancestor of a reorg, none, or an error.
abbrev pub CheckResult : Type 0
CheckResult = Result ScannerError (Option Block)

-- The trait. `H` is the implementation's state; `check` returns what becomes of it.
pub record ReorgHandler (W H : Type 0) : Type 0 where
  pub check : H → Block → Call W (CheckResult × H)

-- `DefaultReorgHandler`; its provider is the `Env` of each operation.
pub record DefaultReorgHandler : Type 0 where
  pub buffer : RingBuffer (ℕ × ℕ)

unfoldable pub new : RingBufferCapacity → DefaultReorgHandler
unfolding RingBuffer.new
new capacity = record { buffer = RingBuffer.new capacity }

-- `buffer.push((number, hash))`, unless the newest hash is the same.
unfoldable pub remember : Block → DefaultReorgHandler → DefaultReorgHandler
unfolding RingBuffer.back RingBuffer.push
remember block h = elim (RingBuffer.back h.buffer) [
  | none ↦ record h { buffer = RingBuffer.push (block.number, block.hash) h.buffer }
  | some (number, hash) ↦
      if hash == block.hash
      then h
      else record h { buffer = RingBuffer.push (block.number, block.hash) h.buffer }
]

forget_newest : DefaultReorgHandler → DefaultReorgHandler
unfolding RingBuffer.pop_back
forget_newest h = record h { buffer = (RingBuffer.pop_back h.buffer).1 }

forget_all : DefaultReorgHandler → DefaultReorgHandler
unfolding RingBuffer.clear
forget_all h = record h { buffer = RingBuffer.clear h.buffer }

abbrev pub detected_by : Block → Result ProviderError Block → Result ScannerError Bool
detected_by block (ok canonical) = ok (not (canonical.hash == block.hash))
detected_by block (err ProviderError.block_not_found) = ok true
detected_by block (err e) = err (from_provider_error e)

-- What the provider answered for the newest buffered block.
pub data Verdict : Type 0 where
  canonical : Block → Verdict
  orphaned : Verdict
  failed : ScannerError → Verdict

abbrev verdict_of : ℕ → Result ProviderError Block → Verdict
verdict_of hash (ok block) = if block.hash == hash then canonical block else orphaned
verdict_of hash (err ProviderError.block_not_found) = orphaned
verdict_of hash (err e) = failed (from_provider_error e)

module _ {W : Type 0} (env : Env W) where
  unfoldable pub reorg_detected : Block → Call W (Result ScannerError Bool)
  reorg_detected block w =
      let (answer, w') = env.get_block_by_number (BlockNumberOrTag.number block.number) w in
      (detected_by block answer, w')

  unfoldable pub return_common_ancestor :
      Block → DefaultReorgHandler → Call W (CheckResult × DefaultReorgHandler)
  unfolding forget_all
  return_common_ancestor common_ancestor h w =
      let (answer, w') = env.get_block_by_number BlockNumberOrTag.finalized w in
      elim answer [
        | err e ↦ ((err (from_provider_error e), h), w')
        | ok finalized ↦
            if leb finalized.number common_ancestor.number
            then ((ok (some common_ancestor), h), w')
            else ((ok (some finalized), forget_all h), w')
      ]

  -- after the loop: the finalized block is the common ancestor
  fall_back : DefaultReorgHandler → Call W (CheckResult × DefaultReorgHandler)
  fall_back h w =
      let (answer, w') = env.get_block_by_number BlockNumberOrTag.finalized w in
      elim answer [
        | err e ↦ ((err (from_provider_error e), h), w')
        | ok finalized ↦ ((ok (some finalized), h), w')
      ]

  -- The loop of `check`. The number is the buffer's length, which each turn lowers by one.
  unfoldable pub find_common_ancestor :
      ℕ → DefaultReorgHandler → Call W (CheckResult × DefaultReorgHandler)
  unfolding fall_back return_common_ancestor forget_newest RingBuffer.back
  find_common_ancestor zero h w = fall_back h w
  find_common_ancestor (suc n) h w = elim (RingBuffer.back h.buffer) [
    | none ↦ fall_back h w
    | some (candidate_number, candidate_hash) ↦
        let (answer, w') = env.get_block_by_number (BlockNumberOrTag.number candidate_number) w in
        elim (verdict_of candidate_hash answer) [
          | canonical block ↦ return_common_ancestor block h w'
          | orphaned ↦ find_common_ancestor n (forget_newest h) w'
          | failed e ↦ ((err e, h), w')
        ]
  ]

  -- `DefaultReorgHandler::check`
  unfoldable pub check : DefaultReorgHandler → Block → Call W (CheckResult × DefaultReorgHandler)
  unfolding reorg_detected remember find_common_ancestor
  check h block w =
      let (detected, w') = reorg_detected block w in
      elim detected [
        | err e ↦ ((err e, h), w')
        | ok false ↦ ((ok none, remember block h), w')
        | ok true ↦ find_common_ancestor (length h.buffer.inner) h w'
      ]

  unfoldable pub default_handler : ReorgHandler W DefaultReorgHandler
  unfolding check
  default_handler = record { check = check }
