-- ===== src/Modes/Validation.antt =====
-- The steps of a mode's `connect` return what is said of them: the checks of the blocks and `build`.
use Prim.Native.String.{String}
use event_scanner.Prelude.{
  ℕ, false, ◌+◌, ◌≤◌, ◌<◌, ◌≡◌, inl, inr, refl, ◌==◌, ltb, add_u64, Bool-cases, arith,
}
use event_scanner.Types.{Result, ok, err, ProviderError, ScannerError}
use event_scanner.Env.{Env, Block, BlockNumberOrTag, BlockId, Call}
use event_scanner.RangeIterator.Step.{block_limit}
use event_scanner.Fallible.{ask, return, ◌>>=◌}
use event_scanner.Fallible.Rules.{Outcome, Yields, bind-Yields, ask-Yields}
use event_scanner.Scanner
use event_scanner.Scanner.{BlockRangeScannerBuilder, BlockRangeScanner}
use event_scanner.EventScanner.{EventScannerBuilder, build}
use event_scanner.Modes.{check_block}
use event_scanner.Modes.Blame.{
  IsKnown, Blames, no_range, no_buffer, not_connected, IsNamed, BlamesBlocks, no_latest, not_found,
  too_high, IsBuilt,
}
use event_scanner.Sync.Catchup.{HasBoundedTip}

module _ {W : Type 0} (env : Env W) (from to : BlockId) where
  check_block-Yields :
      (name : String) (latest_block : ℕ) (id : BlockId) (w : W)
      → (env.get_block_number w).0 ≡ ok latest_block
      → latest_block < block_limit
      → IsNamed from to name id
      → Yields
          (check_block env name latest_block id)
          (λ u. IsKnown env latest_block id)
          (BlamesBlocks env from to)
  unfolding check_block
  check_block-Yields name latest_block (BlockId.by_number (BlockNumberOrTag.number n)) w at small
        named =
      elim (Bool-cases (ltb latest_block n)) [
        | inl above ↦ record {
          yields = λ w'.
              rw above (too_high name _ n latest_block w named at refl (ground (arith, above)));
        }
        | inr within ↦ record { yields = λ w'. rw within (ground (arith, within)) }
      ]
  check_block-Yields name latest_block (BlockId.by_number BlockNumberOrTag.pending) w at small
        named =
      let next : add_u64 latest_block 1 ≡ latest_block + 1 = omega (arith, small) in
      record {
        yields = λ w'. rw next (too_high name _ _ latest_block w named at refl (omega arith));
      }
  check_block-Yields name latest_block (BlockId.by_number BlockNumberOrTag.latest) w at small
        named =
      let low : ltb latest_block 0 ≡ false = ground arith in record { yields = λ w'. rw low tt }
  check_block-Yields name latest_block (BlockId.by_number BlockNumberOrTag.finalized) w at small
        named =
      let low : ltb latest_block 0 ≡ false = ground arith in record { yields = λ w'. rw low tt }
  check_block-Yields name latest_block (BlockId.by_number BlockNumberOrTag.safe) w at small named =
      let low : ltb latest_block 0 ≡ false = ground arith in record { yields = λ w'. rw low tt }
  check_block-Yields name latest_block (BlockId.by_number BlockNumberOrTag.earliest) w at small
        named =
      let low : ltb latest_block 0 ≡ false = ground arith in record { yields = λ w'. rw low tt }
  check_block-Yields name latest_block (BlockId.by_hash hash) w at small named =
      bind-Yields
        (λ num.
          (w' : W) × (block : Block) × ((env.get_block_by_hash hash w').0 ≡ ok block)
          × (block.number ≡ num))
        (bind-Yields (λ block. (w' : W) × ((env.get_block_by_hash hash w').0 ≡ ok block))
          (ask-Yields (env.get_block_by_hash hash) (λ w' block e. (w', e))
            (λ w' p e. not_found name hash w' p named e))
          (λ block (w', e). record { yields = λ w''. (w', block, e, refl) }))
        (λ num (w', block, e, same). elim (Bool-cases (ltb latest_block num)) [
          | inl above ↦ record {
            yields = λ w''. rw above (
                too_high name _ num latest_block w named at (w', block, e, same)
                  (ground (arith, above)));
          }
          | inr within ↦ record {
            yields = λ w''. rw within (w', block, e, ground (arith, within, same));
          }
        ])

-- What the scanner of block ranges that a builder makes takes from it.
abbrev IsConnected : BlockRangeScannerBuilder → BlockRangeScanner → Type 0
IsConnected b s =
    (s.max_block_range ≡ b.max_block_range)
    × (s.past_blocks_storage_capacity ≡ b.past_blocks_storage_capacity)
    × (s.buffer_capacity ≡ b.buffer_capacity)
    × (1 ≤ b.max_block_range)
    × (1 ≤ b.buffer_capacity)

module _ {W : Type 0} (into_robust_provider : Call W (Result ProviderError (Unit {0})))
    (count fetches : ℕ) (of_blocks : ScannerError → Type 0) where
  answered-Outcome :
      (b : BlockRangeScannerBuilder) (w : W) (answer : Result ProviderError (Unit {0}))
      → (into_robust_provider w).0 ≡ answer
      → (b.max_block_range == 0) ≡ false
      → (b.buffer_capacity == 0) ≡ false
      → Outcome
          (IsConnected b)
          (Blames into_robust_provider count fetches b of_blocks)
          (Scanner.connect into_robust_provider b w).0
  unfolding Scanner.connect
  answered-Outcome b w (ok provider) e ranged roomy =
      rw (ranged, roomy, e) (refl, refl, refl, ground (arith, ranged), ground (arith, roomy))
  answered-Outcome b w (err p) e ranged roomy = rw (ranged, roomy, e) (not_connected w p e)

  connect-Yields :
      (b : BlockRangeScannerBuilder)
      → Yields
          (Scanner.connect into_robust_provider b)
          (IsConnected b)
          (Blames into_robust_provider count fetches b of_blocks)
  unfolding Scanner.connect
  connect-Yields b = record {
    yields = λ w. elim (Bool-cases (b.max_block_range == 0)) [
      | inl empty ↦ rw empty (no_range (ground (arith, empty)))
      | inr ranged ↦ elim (Bool-cases (b.buffer_capacity == 0)) [
        | inl full ↦ rw (ranged, full) (no_buffer (ground (arith, full)))
        | inr roomy ↦ answered-Outcome b w _ refl ranged roomy
      ]
    ];
  }

  pub build-Yields :
      {Mode F S : Type 0} (b : EventScannerBuilder Mode)
      → Yields
          (build {F = F} {S = S} into_robust_provider b)
          (IsBuilt b)
          (Blames into_robust_provider count fetches b.block_range_scanner of_blocks)
  unfolding build
  build-Yields b =
      bind-Yields (IsConnected b.block_range_scanner) (connect-Yields b.block_range_scanner)
        (λ s (ranges, stored, buffers, ranged, roomy). record {
          yields = λ w. record {
            config = refl;
            max_block_range = ranges;
            past_blocks_storage_capacity = stored;
            buffer_capacity = buffers;
            range_allowed = ranged;
            buffer_allowed = roomy;
            listeners = refl;
          };
        })

-- The blocks that a configuration names were known when it was checked.
abbrev pub AreKnown : {W : Type 0} → Env W → BlockId → BlockId → Type 0
AreKnown {W} env from to =
    (latest_block : ℕ) × (w : W) × ((env.get_block_number w).0 ≡ ok latest_block)
    × IsKnown env latest_block from
    × IsKnown env latest_block to

-- The two checks at the end of a `connect`.
pub check_blocks-Yields :
    {W A : Type 0} (env : Env W) (from to : BlockId) (a : A)
    → HasBoundedTip env
    → Yields
        (ask env.get_block_number >>= λ latest_block.
          check_block env "from_block" latest_block from >>= λ u.
          check_block env "to_block" latest_block to >>= λ v. return a)
        (λ s. (s ≡ a) × AreKnown env from to)
        (BlamesBlocks env from to)
check_blocks-Yields {W} env from to a bounded =
    bind-Yields (λ n. (w : W) × ((env.get_block_number w).0 ≡ ok n))
      (ask-Yields env.get_block_number (λ w n e. (w, e)) no_latest)
      (λ n (w, e).
        bind-Yields (λ u. IsKnown env n from)
          (check_block-Yields env from to "from_block" n from w e (bounded w n e)
            (inl (refl, refl)))
          (λ u known.
            bind-Yields (λ v. IsKnown env n to)
              (check_block-Yields env from to "to_block" n to w e (bounded w n e)
                (inr (refl, refl)))
              (λ v known'. record { yields = λ w'. (refl, (n, w, e, known, known')) })))
