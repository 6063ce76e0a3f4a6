-- ===== src/Modes/Connect.antt =====
-- The `connect` of each mode that checks blocks: all of its outcomes.
use event_scanner.Prelude.{◌≤◌, sym, subst, ◌==◌, Bool-cases, inl, inr, arith}
use event_scanner.Types.{Result, ProviderError}
use event_scanner.Env.{Env, Call}
use event_scanner.Fallible.Rules.{Outcome, Yields, bind-Yields, weaken-Yields, blame-Yields}
use event_scanner.EventScanner.{EventScannerBuilder, EventScanner, Historic, LatestEvents}
use event_scanner.Sync.Catchup.{HasBoundedTip}
use event_scanner.Modes.Blame.{Blames, no_count, no_fetches, bad_block, BlamesBlocks, IsBuilt}
use event_scanner.Modes.Validation.{AreKnown, build-Yields, check_blocks-Yields}
use event_scanner.Modes.Historic.{connect as connect_historic}
use event_scanner.Modes.Latest.{connect as connect_latest}

module _ {W F S : Type 0} (env : Env W) where
  -- A scanner for past events is what its builder describes: at least one fetch at a time, and both
  -- blocks known.
  pub record IsHistoric (b : EventScannerBuilder Historic) (s : EventScanner Historic F S)
      : Type 0 where
    pub built : IsBuilt b s
    pub fetches : 1 ≤ b.config.max_concurrent_fetches
    pub known : AreKnown env b.config.from_block b.config.to_block

  pub record IsLatest (b : EventScannerBuilder LatestEvents) (s : EventScanner LatestEvents F S)
      : Type 0 where
    pub built : IsBuilt b s
    pub counts : 1 ≤ b.config.count
    pub fetches : 1 ≤ b.config.max_concurrent_fetches
    pub known : AreKnown env b.config.from_block b.config.to_block

  connect_historic-Yields :
      (into_robust_provider : Call W (Result ProviderError (Unit {0})))
      (b : EventScannerBuilder Historic)
      → HasBoundedTip env
      → Yields (connect_historic env into_robust_provider b) (IsHistoric b) (
          Blames into_robust_provider 1 b.config.max_concurrent_fetches b.block_range_scanner
            (BlamesBlocks env b.config.from_block b.config.to_block))
  unfolding connect_historic
  connect_historic-Yields into_robust_provider b bounded =
      elim (Bool-cases (b.config.max_concurrent_fetches == 0)) [
        | inl empty ↦ rw empty (record { yields = λ w. no_fetches (ground (arith, empty)) })
        | inr some_fetch ↦ rw some_fetch (
            bind-Yields (IsBuilt b)
              (build-Yields into_robust_provider 1 b.config.max_concurrent_fetches
                (BlamesBlocks env b.config.from_block b.config.to_block) b)
              (λ s built.
                weaken-Yields
                  (blame-Yields
                    (check_blocks-Yields env s.config.from_block s.config.to_block s bounded)
                    (λ e bad. bad_block e (
                      subst (λ (c : Historic). BlamesBlocks env c.from_block c.to_block e)
                        built.config bad)))
                  (λ s' (same, known). record {
                    built = subst (IsBuilt b) (sym same) built;
                    fetches = ground (arith, some_fetch);
                    known =
                        subst (λ (c : Historic). AreKnown env c.from_block c.to_block) built.config
                          known;
                  })))
      ]

  connect_latest-Yields :
      (into_robust_provider : Call W (Result ProviderError (Unit {0})))
      (b : EventScannerBuilder LatestEvents)
      → HasBoundedTip env
      → Yields (connect_latest env into_robust_provider b) (IsLatest b) (
          Blames into_robust_provider b.config.count b.config.max_concurrent_fetches
            b.block_range_scanner
            (BlamesBlocks env b.config.from_block b.config.to_block))
  unfolding connect_latest
  connect_latest-Yields into_robust_provider b bounded = elim (Bool-cases (b.config.count == 0)) [
    | inl none_asked ↦
        rw none_asked (record { yields = λ w. no_count (ground (arith, none_asked)) })
    | inr counted ↦ elim (Bool-cases (b.config.max_concurrent_fetches == 0)) [
      | inl empty ↦
          rw (counted, empty) (record { yields = λ w. no_fetches (ground (arith, empty)) })
      | inr some_fetch ↦
          rw (counted, some_fetch)
            (bind-Yields (IsBuilt b)
              (build-Yields into_robust_provider b.config.count b.config.max_concurrent_fetches
                (BlamesBlocks env b.config.from_block b.config.to_block) b)
              (λ s built.
                weaken-Yields
                  (blame-Yields
                    (check_blocks-Yields env s.config.from_block s.config.to_block s bounded)
                    (λ e bad. bad_block e (
                      subst (λ (c : LatestEvents). BlamesBlocks env c.from_block c.to_block e)
                        built.config bad)))
                  (λ s' (same, known). record {
                    built = subst (IsBuilt b) (sym same) built;
                    counts = ground (arith, counted);
                    fetches = ground (arith, some_fetch);
                    known =
                        subst (λ (c : LatestEvents). AreKnown env c.from_block c.to_block)
                          built.config known;
                  })))
    ]
  ]

-- `connect` of the historic mode, while latest blocks are below the limit of block numbers: a scanner
-- that it returns has no listener and the builder's configuration, the capacity for past blocks
-- included, at least one block to a range, room for one message and one fetch at a time, and both of
-- its blocks were known when the latest block was asked for. An error names a setting that is 0, or
-- a configured block whose number is above the latest block that the provider answered with, by its
-- name in the configuration; or it is one that making the provider, asking for the latest block or
-- looking up a configured hash was answered with.
pub connect_historic-Outcome :
    {W : Type 0} (F S : Type 0) (env : Env W)
    (into_robust_provider : Call W (Result ProviderError (Unit {0})))
    (b : EventScannerBuilder Historic) (w : W)
    → HasBoundedTip env
    → Outcome
        (IsHistoric {F = F} {S = S} env b)
        (Blames into_robust_provider 1 b.config.max_concurrent_fetches b.block_range_scanner
          (BlamesBlocks env b.config.from_block b.config.to_block))
        (connect_historic env into_robust_provider b w).0
connect_historic-Outcome F S env into_robust_provider b w bounded =
    (connect_historic-Yields env into_robust_provider b bounded).yields w

-- The same of the latest-events mode, which also asks for at least one event.
pub connect_latest-Outcome :
    {W : Type 0} (F S : Type 0) (env : Env W)
    (into_robust_provider : Call W (Result ProviderError (Unit {0})))
    (b : EventScannerBuilder LatestEvents) (w : W)
    → HasBoundedTip env
    → Outcome
        (IsLatest {F = F} {S = S} env b)
        (Blames into_robust_provider b.config.count b.config.max_concurrent_fetches
          b.block_range_scanner
          (BlamesBlocks env b.config.from_block b.config.to_block))
        (connect_latest env into_robust_provider b w).0
connect_latest-Outcome F S env into_robust_provider b w bounded =
    (connect_latest-Yields env into_robust_provider b bounded).yields w
