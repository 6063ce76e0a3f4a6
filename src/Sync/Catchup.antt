-- ===== src/Sync/Catchup.antt =====
-- The catch-up leaves no gap between its historical ranges.
use event_scanner.Prelude.{
  ℕ, zero, suc, ◌+◌, ◌-◌, ◌≤◌, ◌<◌, ◌≡◌, ◌⊎◌, refl, Option, none, some, [], ltb, arith, inl, inr,
  Bool-cases, add_u64,
}
use event_scanner.Types.{Result, ok, err, ScannerError, open_channel, closed_channel}
use event_scanner.Env.{Env}
use event_scanner.Task.{Progress, finished, running, panicked}
use event_scanner.Task.Hoare.{
  Trace, Outcome, Hoare, pure-Hoare, call-Hoare, still_running-Hoare, bind-Hoare, weaken-Hoare,
  fact-Hoare,
}
use event_scanner.RangeIterator.Step.{block_limit}
use event_scanner.RangeStream.{Item}
use event_scanner.Receiver.{View, view, Served, IsGapless}
use event_scanner.Receiver.Rules.{ServedTo, Gapless, served→gapless, OnOpen}
use event_scanner.Historical.Coverage.{handle-Hoare}
use event_scanner.Sync.{catchup_historical_blocks}

-- The latest block's number is in range.
abbrev pub HasBoundedTip : {W : Type 0} → Env W → Type 0
HasBoundedTip {W} env = (w : W) (n : ℕ) → (env.get_block_number w).0 ≡ ok n → n < block_limit

-- Where the catch-up hands over. A start below the confirmed tip is left for a block above that tip,
-- and at or above the tip that was confirmed at some latest block the provider answered with;
-- otherwise nothing was to catch up on.
abbrev pub IsPastTip : {W : Type 0} → Env W → ℕ → ℕ → ℕ → ℕ → Type 0
IsPastTip {W} env confirmations start tip next =
    ((start < tip)
      × (tip < next)
      × ((w : W) × (latest : ℕ) × ((env.get_block_number w).0 ≡ ok latest)
          × (latest - confirmations ≤ next)))
    ⊎ ((tip ≤ start) × (next ≡ start))

-- One more historical scan before it.
pub IsPastTip-scan :
    {W : Type 0} (env : Env W) (confirmations start tip latest next : ℕ) (w : W)
    → start < tip
    → (env.get_block_number w).0 ≡ ok latest
    → IsPastTip env confirmations (tip + 1) (latest - confirmations) next
    → IsPastTip env confirmations start tip next
IsPastTip-scan env confirmations start tip latest next w behind e (inl (ahead, past, last)) =
    inl (behind, omega (arith, ahead, past), last)
IsPastTip-scan env confirmations start tip latest next w behind e (inr (reached, same)) =
    inl (behind, omega (arith, same), (w, latest, e, omega (arith, reached, same)))

module _ {W : Type 0} (env : Env W) (bounded : HasBoundedTip env) (origin size : ℕ)
    (sized : 1 ≤ size) where
  abbrev CaughtUp : ℕ → ℕ → ℕ → Result ScannerError (Option ℕ) → Trace Item → Type 0
  CaughtUp confirmations start tip (ok (some next)) t =
      ServedTo origin size next t × IsPastTip env confirmations start tip next
  CaughtUp confirmations start tip (ok none) t = Gapless origin size t
  CaughtUp confirmations start tip (err e) t = Gapless origin size t

  CaughtUp-scan :
      (confirmations start tip latest : ℕ) (w : W)
      → start < tip
      → (env.get_block_number w).0 ≡ ok latest
      → (r : Result ScannerError (Option ℕ)) (t : Trace Item)
      → CaughtUp confirmations (tip + 1) (latest - confirmations) r t
      → CaughtUp confirmations start tip r t
  CaughtUp-scan confirmations start tip latest w behind e (ok none) t g = g
  CaughtUp-scan confirmations start tip latest w behind e (err x) t g = g
  CaughtUp-scan confirmations start tip latest w behind e (ok (some next)) t (served, past) =
      (served, IsPastTip-scan env confirmations start tip latest next w behind e past)

  catchup-Hoare :
      (fuel start tip confirmations : ℕ)
      → origin ≤ start
      → tip < block_limit
      → Hoare
          (Gapless origin size)
          (ServedTo origin size start)
          (catchup_historical_blocks env fuel start tip confirmations size)
          (CaughtUp confirmations start tip)
  unfolding catchup_historical_blocks
  catchup-Hoare zero start tip confirmations after small =
      still_running-Hoare (served→gapless origin size start)
  catchup-Hoare (suc fuel) start tip confirmations after small = elim (Bool-cases (ltb start tip)) [
    | inr reached ↦ rw reached (pure-Hoare _ (λ t p. (p, inr (ground (arith, reached), refl))))
    | inl behind ↦
        let below : start < tip = ground (arith, behind) in
        let ordered : start ≤ tip = ground (arith, behind) in
        let far : origin ≤ tip + 1 = omega (arith, after, ordered) in
        let no_wrap : add_u64 tip 1 ≡ tip + 1 = omega (arith, small) in
        rw behind (
          bind-Hoare (OnOpen origin size (ServedTo origin size (tip + 1)))
            (handle-Hoare env (record { max_block_range = size; start = start; end = tip }) sized
              small origin after ordered (suc fuel))
            (elim [
              | closed_channel ↦ pure-Hoare _ (λ t p. p)
              | open_channel ↦
                  bind-Hoare
                    (λ answer t.
                      ServedTo origin size (tip + 1) t
                      × ((n : ℕ) → answer ≡ ok n → n < block_limit)
                      × ((w : W) × ((env.get_block_number w).0 ≡ answer)))
                    (call-Hoare _ (λ w t p. (p, bounded w, (w, refl))))
                    (elim [
                      | err e ↦ pure-Hoare _ (λ t p. served→gapless origin size (tip + 1) t p.0)
                      | ok latest ↦
                          fact-Hoare
                            {P = (latest < block_limit)
                              × ((w : W) × ((env.get_block_number w).0 ≡ ok latest))}
                            (λ t p. (p.1 latest refl, p.2))
                            (λ (in_range, (w, asked)).
                              let next_small : latest - confirmations < block_limit =
                                omega (arith, in_range) in
                              rw no_wrap (
                                weaken-Hoare
                                  (catchup-Hoare fuel (tip + 1) (latest - confirmations)
                                    confirmations far next_small)
                                  (λ t p. p.0)
                                  (CaughtUp-scan confirmations start tip latest w below asked)))
                    ])
            ]))
  ]

-- What a receiver has once the catch-up ends, or where it is cut short.
abbrev pub IsCaughtUp :
    {W : Type 0} → Env W → ℕ → ℕ → ℕ → ℕ → Progress (Result ScannerError (Option ℕ)) → View → Type 0
IsCaughtUp env confirmations start tip size (finished (ok (some next))) v =
    Served start size next v × IsPastTip env confirmations start tip next
IsCaughtUp env confirmations start tip size (finished (ok none)) v = IsGapless start size v
IsCaughtUp env confirmations start tip size (finished (err e)) v = IsGapless start size v
IsCaughtUp env confirmations start tip size running v = IsGapless start size v
IsCaughtUp env confirmations start tip size panicked v = ⊥

-- The catch-up of the sync mode never panics, and when it hands over to live streaming at a block
-- the ranges that the receiver got since the last reorg notification are consecutive, of at most
-- `max_block_range` blocks, begin at the start if there was no reorg and at or below the block to
-- resume at otherwise, and end just below that block, over all the historical scans that it took. A
-- start below the confirmed tip is left for a block above that tip, and not below the tip that was
-- confirmed at a latest block the provider answered with; any other start is where it hands over.
-- Where the catch-up ends early the ranges have no gap either. The provider's latest block and the
-- tip to begin with are below the limit, and `max_block_range` is at least 1.
pub catchup_historical_blocks-IsCaughtUp :
    {W : Type 0} (env : Env W) (fuel start tip confirmations size : ℕ) (w : W)
    → HasBoundedTip env
    → 1 ≤ size
    → tip < block_limit
    → let (outcome, sent, _) = catchup_historical_blocks env fuel start tip confirmations size w in
      IsCaughtUp env confirmations start tip size outcome (view start sent)
catchup_historical_blocks-IsCaughtUp env fuel start tip confirmations size w bounded sized small =
    caught _ _ (
      (catchup-Hoare env bounded start size sized fuel start tip confirmations (omega arith)
          small).run
        [] w
        (record {
          base = start;
          tiled = refl;
          reaches_back = omega arith;
          not_before = omega arith;
          exact = inr refl;
        }))
  where
    caught :
        (o : Progress (Result ScannerError (Option ℕ))) (t : Trace Item)
        → Outcome
            (Gapless start size)
            (CaughtUp env bounded start size sized confirmations start tip)
            o
            t
        → IsCaughtUp env confirmations start tip size o (view start t)
    caught (finished (ok (some next))) t p = p
    caught (finished (ok none)) t p = p
    caught (finished (err e)) t p = p
    caught running t p = p
    caught panicked t p = p
