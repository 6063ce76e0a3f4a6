-- ===== src/Modes/ConnectSync.antt =====
-- The `connect` of the sync modes: all of its outcomes.
use event_scanner.Prelude.{ℕ, ◌≤◌, ◌≡◌, refl, subst, ◌==◌, Bool-cases, inl, inr, arith}
use event_scanner.Types.{Result, ok, err, ProviderError, ScannerError, from_provider_error}
use event_scanner.Env.{Env, Block, BlockId, Call}
use event_scanner.Fallible.Rules.{
  Outcome, Yields, bind-Yields, weaken-Yields, blame-Yields, ask-Yields,
}
use event_scanner.EventScanner.{
  EventScannerBuilder, EventScanner, SyncFromBlock, SyncFromLatestEvents,
}
use event_scanner.Modes.Blame.{Blames, no_count, no_fetches, bad_block, IsBuilt}
use event_scanner.Modes.Validation.{build-Yields}
use event_scanner.Modes.FromBlock.{check_hash, connect as connect_from_block}
use event_scanner.Modes.FromLatest.{connect as connect_from_latest}

-- A block that is named by its hash has been found.
abbrev pub IsFound : {W : Type 0} → Env W → BlockId → Type 0
IsFound env (BlockId.by_number tag) = Unit
IsFound {W} env (BlockId.by_hash hash) =
    (w : W) × (block : Block) × ((env.get_block_by_hash hash w).0 ≡ ok block)

-- A block that is named by its hash could not be looked up.
pub data BlamesHash {W : Type 0} (env : Env W) (from : BlockId) : ScannerError → Type 0 where
  not_found :
      (hash : ℕ) (w : W) (p : ProviderError)
      → from ≡ BlockId.by_hash hash
      → (env.get_block_by_hash hash w).0 ≡ err p
      → BlamesHash env from (from_provider_error p)

check_hash-Yields :
    {W : Type 0} (env : Env W) (id : BlockId)
    → Yields (check_hash env id) (λ u. IsFound env id) (BlamesHash env id)
check_hash-Yields {W = W} env (BlockId.by_number tag) = record { yields = λ w. tt }
check_hash-Yields {W = W} env (BlockId.by_hash hash) =
    bind-Yields (λ block. (w' : W) × ((env.get_block_by_hash hash w').0 ≡ ok block))
      (ask-Yields (env.get_block_by_hash hash) (λ w' block e. (w', e))
        (λ w' p e. not_found hash w' p refl e))
      (λ block (w', e). record { yields = λ w''. (w', block, e) })

module _ {W F S : Type 0} (env : Env W) where
  pub record IsFromBlock (b : EventScannerBuilder SyncFromBlock)
      (s : EventScanner SyncFromBlock F S) : Type 0 where
    pub built : IsBuilt b s
    pub fetches : 1 ≤ b.config.max_concurrent_fetches
    pub found : IsFound env b.config.from_block

  pub record IsFromLatest (b : EventScannerBuilder SyncFromLatestEvents)
      (s : EventScanner SyncFromLatestEvents F S) : Type 0 where
    pub built : IsBuilt b s
    pub counts : 1 ≤ b.config.count
    pub fetches : 1 ≤ b.config.max_concurrent_fetches

  connect_from_block-Yields :
      (into_robust_provider : Call W (Result ProviderError (Unit {0})))
      (b : EventScannerBuilder SyncFromBlock)
      → Yields (connect_from_block env into_robust_provider b) (IsFromBlock b) (
          Blames into_robust_provider 1 b.config.max_concurrent_fetches b.block_range_scanner
            (BlamesHash env b.config.from_block))
  unfolding connect_from_block
  connect_from_block-Yields into_robust_provider b =
      elim (Bool-cases (b.config.max_concurrent_fetches == 0)) [
        | inl empty ↦ rw empty (record { yields = λ w. no_fetches (ground (arith, empty)) })
        | inr some_fetch ↦ rw some_fetch (
            bind-Yields (IsBuilt b)
              (build-Yields into_robust_provider 1 b.config.max_concurrent_fetches
                (BlamesHash env b.config.from_block) b)
              (λ s built.
                bind-Yields (λ u. IsFound env s.config.from_block)
                  (blame-Yields (check_hash-Yields env s.config.from_block) (λ e bad. bad_block e (
                    subst (λ (c : SyncFromBlock). BlamesHash env c.from_block e) built.config bad)))
                  (λ u found. record {
                    yields = λ w. record {
                      built = built;
                      fetches = ground (arith, some_fetch);
                      found =
                          subst (λ (c : SyncFromBlock). IsFound env c.from_block) built.config
                            found;
                    };
                  })))
      ]

  connect_from_latest-Yields :
      (into_robust_provider : Call W (Result ProviderError (Unit {0})))
      (b : EventScannerBuilder SyncFromLatestEvents)
      → Yields (connect_from_latest into_robust_provider b) (IsFromLatest b) (
          Blames into_robust_provider b.config.count b.config.max_concurrent_fetches
            b.block_range_scanner
            (λ e. ⊥))
  unfolding connect_from_latest
  connect_from_latest-Yields into_robust_provider b = elim (Bool-cases (b.config.count == 0)) [
    | inl none_asked ↦
        rw none_asked (record { yields = λ w. no_count (ground (arith, none_asked)) })
    | inr counted ↦ elim (Bool-cases (b.config.max_concurrent_fetches == 0)) [
      | inl empty ↦
          rw (counted, empty) (record { yields = λ w. no_fetches (ground (arith, empty)) })
      | inr some_fetch ↦
          rw (counted, some_fetch)
            (weaken-Yields
              (build-Yields into_robust_provider b.config.count b.config.max_concurrent_fetches
                (λ e. ⊥) b)
              (λ s built. record {
                built = built;
                counts = ground (arith, counted);
                fetches = ground (arith, some_fetch);
              }))
    ]
  ]

-- `connect` of the two sync modes, whatever the provider answers. A scanner that it returns has the
-- configuration of its builder, the capacity for past blocks included, with every setting that has to
-- be positive at least 1 and, for the from-block mode, a start block that was found if it is named by
-- its hash. An error names a setting that is 0, or is one that making the provider or, for the
-- from-block mode, looking up the hash of the start block was answered with.
pub connect_sync-Outcome :
    {W : Type 0} (F S : Type 0) (env : Env W)
    (into_robust_provider : Call W (Result ProviderError (Unit {0})))
    (b : EventScannerBuilder SyncFromBlock) (c : EventScannerBuilder SyncFromLatestEvents) (w : W)
    → Outcome
        (IsFromBlock {F = F} {S = S} env b)
        (Blames into_robust_provider 1 b.config.max_concurrent_fetches b.block_range_scanner
          (BlamesHash env b.config.from_block))
        (connect_from_block env into_robust_provider b w).0
      × Outcome
          (IsFromLatest {F = F} {S = S} env c)
          (Blames into_robust_provider c.config.count c.config.max_concurrent_fetches
            c.block_range_scanner
            (λ e. ⊥))
          (connect_from_latest into_robust_provider c w).0
connect_sync-Outcome F S env into_robust_provider b c w = (
  (connect_from_block-Yields env into_robust_provider b).yields w,
  (connect_from_latest-Yields env into_robust_provider c).yields w,
)
