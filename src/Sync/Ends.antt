-- ===== src/Sync/Ends.antt =====
-- The catch-up ends while the chain stands and grows no further than a bound.
use event_scanner.Prelude.{
  ℕ, zero, suc, ◌+◌, ◌-◌, ◌≤◌, ◌<◌, ◌≡◌, refl, Option, none, some, [], append-nil, ltb, add_u64,
  arith, inl, inr, Bool-cases, max,
}
use event_scanner.Types.{Result, ok, err, ProviderError, ScannerError, open_channel, closed_channel}
use event_scanner.Env.{Env, Block}
use event_scanner.Task.{finished}
use event_scanner.Task.Hoare.{Trace}
use event_scanner.Task.Total.{
  Total, pure-Total, call-Total, weaken-Total, bind-Total, Sends, IfOpen,
}
use event_scanner.RangeIterator.Step.{block_limit}
use event_scanner.RangeStream.{Item}
use event_scanner.Historical.Calm.{IsCalm, Streamed, Streamed-append, handle-Total}
use event_scanner.Sync.{catchup_historical_blocks}
use event_scanner.Sync.Catchup.{IsPastTip, IsPastTip-scan}

-- The chain's latest block stays at or below a number.
abbrev pub IsBelow : {W : Type 0} → Env W → ℕ → Type 0
IsBelow {W} env top = (w : W) (n : ℕ) → (env.get_block_number w).0 ≡ ok n → n ≤ top

-- How the catch-up may end: everything up to where live streaming begins, once; or without a
-- receiver; or with an error of the provider, at a block up to which everything was streamed.
abbrev pub CatchupEnds : Type 0 → ℕ → ℕ → Result ScannerError (Option ℕ) → Trace Item → Type 0
CatchupEnds Gone size start (ok (some next)) t = Streamed size start next t
CatchupEnds Gone size start (ok none) t = Gone
CatchupEnds Gone size start (err e) t = (next : ℕ) × Streamed size start next t

-- Live streaming begins past the confirmed tip, at or below `upto`; an error comes from the provider
-- only.
abbrev pub Reaches :
    {W : Type 0} → Env W → Type 0 → ℕ → ℕ → ℕ → ℕ → Result ScannerError (Option ℕ) → Type 0
Reaches env Bad confirmations start tip upto (ok (some next)) =
    IsPastTip env confirmations start tip next × (next ≤ max start upto)
Reaches env Bad confirmations start tip upto (ok none) = Unit
Reaches env Bad confirmations start tip upto (err e) = Bad

module _ {W : Type 0} (env : Env W) (Gone Bad : Type 0) (sends : Sends env Gone) (chain : ℕ → Block)
    (top : ℕ) (calm : IsCalm env chain top) (below : IsBelow env top)
    (asks : (w : W) (e : ProviderError) → (env.get_block_number w).0 ≡ err e → Bad)
    (top_small : top < block_limit) (size : ℕ) (sized : 1 ≤ size) where
  pub catchup-Total :
      (fuel start tip confirmations : ℕ)
      → tip ≤ top
      → top < start + fuel
      → 1 ≤ fuel
      → Total (catchup_historical_blocks env fuel start tip confirmations size) (λ r t.
        CatchupEnds Gone size start r t × Reaches env Bad confirmations start tip (top + 1) r)
  unfolding catchup_historical_blocks
  catchup-Total zero start tip confirmations under enough some_fuel = absurd (omega arith)
  catchup-Total (suc fuel) start tip confirmations under enough some_fuel =
      elim (Bool-cases (ltb start tip)) [
        | inr reached ↦
            rw reached
              (pure-Total _ (([], refl, refl), (inr (ground (arith, reached), refl), omega arith)))
        | inl behind ↦
            let passed : start < tip = ground (arith, behind) in
            let ordered : start ≤ tip = ground (arith, behind) in
            let no_wrap : add_u64 tip 1 ≡ tip + 1 = omega (arith, under, top_small) in
            rw behind (
              bind-Total (IfOpen Gone (Streamed size start (tip + 1)))
                (handle-Total env Gone sends
                  (record { max_block_range = size; start = start; end = tip }) sized
                  (omega (arith, under, top_small)) chain top calm under fuel ordered)
                (elim [
                  | closed_channel ↦ λ t gone. pure-Total (ok none) (gone, tt)
                  | open_channel ↦ λ t streamed.
                      bind-Total
                        (λ answer s.
                          ((n : ℕ) → answer ≡ ok n → n ≤ top)
                          × ((e : ProviderError) → answer ≡ err e → Bad)
                          × ((w : W) × ((env.get_block_number w).0 ≡ answer))
                          × (s ≡ []))
                        (call-Total _ (λ w. (below w, asks w, (w, refl), refl)))
                        (elim [
                          | err e ↦ λ s (known, failed, (w, asked), none_sent).
                              rw none_sent
                                (pure-Total _ ((tip + 1, rw append-nil streamed), failed e refl))
                          | ok latest ↦ λ s (known, failed, (w, asked), none_sent).
                              rw (no_wrap, none_sent)
                                (weaken-Total
                                  (catchup-Total fuel (tip + 1) (latest - confirmations)
                                    confirmations (omega (arith, known latest refl))
                                    (ground (arith, behind, enough))
                                    (ground (arith, behind, enough, under)))
                                  (elim [
                                    | ok none ↦ λ r (gone, _). (gone, tt)
                                    | ok (some next) ↦ λ r (rest, (past, within)). (
                                      Streamed-append size start (tip + 1) next t r streamed rest,
                                      (
                                        IsPastTip-scan env confirmations start tip latest next w
                                            passed asked past,
                                        omega (arith, within, under),
                                      ),
                                    )
                                    | err e ↦ λ r ((next, rest), bad). (
                                      (
                                        next,
                                        Streamed-append size start (tip + 1) next t r streamed rest,
                                      ),
                                      bad,
                                    )
                                  ]))
                        ])
                ]))
      ]

-- While the chain stands up to `top` and its latest block stays at or below `top`, the catch-up
-- ends, with fuel for the blocks from its start up to `top`. Where it hands over to live streaming
-- at a block, and where the provider fails before some block, it has streamed the blocks from its
-- start to just below that block in consecutive ranges, and nothing else; otherwise the receiver
-- may be gone.
pub catchup_historical_blocks_ends :
    {W : Type 0} (env : Env W) (Gone : Type 0) (chain : ℕ → Block)
    (fuel start tip confirmations size top : ℕ) (w : W)
    → Sends env Gone
    → IsCalm env chain top
    → IsBelow env top
    → top < block_limit
    → 1 ≤ size
    → tip ≤ top
    → top < start + fuel
    → 1 ≤ fuel
    → let (outcome, sent, _) = catchup_historical_blocks env fuel start tip confirmations size w in
      (r : Result ScannerError (Option ℕ)) × (outcome ≡ finished r)
      × CatchupEnds Gone size start r sent
catchup_historical_blocks_ends env Gone chain fuel start tip confirmations size top w sends calm
      below small sized under enough some_fuel =
    let total =
      catchup-Total env Gone Unit sends chain top calm below (λ w e failed. tt) small size sized
        fuel start tip confirmations under enough some_fuel in
    let (r, t, w', e, (ends, _)) = total.run w in rw e (r, refl, ends)
