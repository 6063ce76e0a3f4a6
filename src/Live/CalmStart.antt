-- ===== src/Live/CalmStart.antt =====
-- The first block of a live stream while the chain stands, and the stream as a whole.
use event_scanner.Prelude.{
  ℕ, zero, suc, ◌+◌, ◌-◌, ◌^◌, ◌≤◌, ◌<◌, ◌≡◌, refl, ap, ◌∙◌, max, Bool, true, false, Option, none,
  some, List, [], ◌∷◌, append-nil, All, ltb, arith, inl, inr, Bool-cases, length,
}
use event_scanner.Types.{ok, err, ProviderError}
use event_scanner.Env.{Env, Block}
use event_scanner.Task.Hoare.{each_pair}
use event_scanner.Task.Runs.{
  Runs, pure-Runs, call-Runs, weaken-Runs, fact-Runs, bind-Runs, bind_known-Runs, bind_first-Runs,
}
use event_scanner.RangeIterator.Step.{block_limit}
use event_scanner.ReorgHandler.{ReorgHandler}
use event_scanner.Historical.Calm.{IsCalm, Streamed, Streamed-append}
use event_scanner.Live.{Incoming, is_skipped, next_relevant, get_first_block}
use event_scanner.Live.Loop.{initialize_live_streaming_state, stream_from_first_block}
use event_scanner.Live.Calm.{IsFed, FindsNone, stream_range-Runs}
use event_scanner.Live.CalmRun.{frontier, IsHeader, state_at, stream_blocks_continuously-Runs}

-- The first header whose confirmed block is at or above the start, and what comes after it.
pub record FirstOf (top start confirmations : ℕ) (hs : List Incoming) (header : Block)
    (later : List Incoming) : Type 0 where
  pub reached : header.number ≤ top
  pub relevant : start ≤ header.number - confirmations
  pub known : All (IsHeader top) later
  pub shorter : length later < length hs
  pub same_frontier :
      frontier confirmations start hs
      ≡ frontier confirmations (header.number - confirmations + 1) later

module _ {W H : Type 0} (env : Env W) (reorg_handler : ReorgHandler W H)
    (upcoming : W → List Incoming) (fed : IsFed env upcoming) (chain : ℕ → Block) (top : ℕ)
    (calm : IsCalm env chain top) (small : top < block_limit)
    (quiet : FindsNone upcoming reorg_handler chain top) (size : ℕ) (sized : 1 ≤ size)
    (start confirmations : ℕ) where
  -- What `next_relevant` finds.
  abbrev Found : List Incoming → Option Incoming × Bool → W → Type 0
  Found hs (none, flag) w = frontier confirmations start hs ≡ start
  Found hs (some (ok header), flag) w =
      (flag ≡ true)
      × (later : List Incoming) × FirstOf top start confirmations hs header later
      × (upcoming w ≡ later)
  Found hs (some (err e), flag) w = ⊥

  -- A header that is passed over changes nothing.
  Found-later :
      (x : Incoming) (hs : List Incoming) (r : Option Incoming × Bool) (w : W)
      → frontier confirmations start (x ∷ hs) ≡ frontier confirmations start hs
      → Found hs r w
      → Found (x ∷ hs) r w
  Found-later x hs (none, flag) w same e = same ∙ e
  Found-later x hs (some (ok header), flag) w same (e, later, first, q) = (
    e,
    later,
    record {
      reached = first.reached;
      relevant = first.relevant;
      known = first.known;
      shorter = omega (arith, first.shorter);
      same_frontier = same ∙ first.same_frontier;
    },
    q,
  )
  Found-later x hs (some (err e), flag) w same bad = bad

  next_relevant-Runs :
      (hs : List Incoming) (fuel : ℕ)
      → All (IsHeader top) hs
      → length hs < fuel
      → Runs
          (λ w. upcoming w ≡ hs)
          (next_relevant env reorg_handler fuel start confirmations false)
          (λ r t w. (t ≡ []) × Found hs r w)
  unfolding next_relevant is_skipped
  next_relevant-Runs hs zero known enough = absurd (omega arith)
  next_relevant-Runs [] (suc fuel) known enough =
      bind_known-Runs _ none [] (λ w. upcoming w ≡ [])
        (call-Runs _ (λ w q. let (same, kept) = fed.ended w q in (same, refl, kept)))
        (pure-Runs _ (λ w q. (refl, refl)))
  next_relevant-Runs (err (ProviderError.lagged n) ∷ hs) (suc fuel) known enough =
      bind_known-Runs _ (some (err (ProviderError.lagged n))) [] (λ w. upcoming w ≡ hs)
        (call-Runs _ (λ w q.
          let (same, kept) = fed.arrives w (err (ProviderError.lagged n)) hs q in
          (same, refl, kept)))
        (weaken-Runs (next_relevant-Runs hs fuel known.1 (omega arith)) (λ w q. q)
          (λ r t w (none_sent, found).
            (none_sent, Found-later (err (ProviderError.lagged n)) hs r w refl found)))
  next_relevant-Runs (err ProviderError.timeout ∷ hs) (suc fuel) known enough = absurd known.0
  next_relevant-Runs (err ProviderError.closed ∷ hs) (suc fuel) known enough = absurd known.0
  next_relevant-Runs (err ProviderError.block_not_found ∷ hs) (suc fuel) known enough =
      absurd known.0
  next_relevant-Runs (err (ProviderError.rpc_error n) ∷ hs) (suc fuel) known enough = absurd known.0
  next_relevant-Runs (ok header ∷ hs) (suc fuel) known enough =
      bind_known-Runs _ (some (ok header)) [] (λ w. upcoming w ≡ hs)
        (call-Runs _
          (λ w q. let (same, kept) = fed.arrives w (ok header) hs q in (same, refl, kept)))
        (elim (Bool-cases (ltb (header.number - confirmations) start)) [
          | inl below ↦
              let stays : max start (header.number - confirmations + 1) ≡ start =
                ground (arith, below) in
              rw below (
                weaken-Runs (next_relevant-Runs hs fuel known.1 (omega arith)) (λ w q. q)
                  (λ r t w (none_sent, found). (
                    none_sent,
                    Found-later (ok header) hs r w
                        (ap (λ (n : ℕ). frontier confirmations n hs) stays) found,
                  )))
          | inr above ↦ rw above (
              pure-Runs _ (λ w q. (
                refl,
                (
                  refl,
                  hs,
                  record {
                    reached = known.0;
                    relevant = ground (arith, above);
                    known = known.1;
                    shorter = omega arith;
                    same_frontier =
                        ap (λ (n : ℕ). frontier confirmations n hs) (ground (arith, above));
                  },
                  q,
                ),
              )))
        ])

  -- The same of `get_first_block`.
  abbrev pub FoundBlock : List Incoming → Option Block × Bool → W → Type 0
  FoundBlock hs (none, flag) w = frontier confirmations start hs ≡ start
  FoundBlock hs (some header, flag) w =
      (flag ≡ true)
      × (later : List Incoming) × FirstOf top start confirmations hs header later
      × (upcoming w ≡ later)

  pub get_first_block-Runs :
      (hs : List Incoming) (fuel : ℕ)
      → All (IsHeader top) hs
      → length hs < fuel
      → Runs
          (λ w. upcoming w ≡ hs)
          (get_first_block env reorg_handler fuel start confirmations false)
          (λ r t w. (t ≡ []) × FoundBlock hs r w)
  unfolding get_first_block
  get_first_block-Runs hs zero known enough = absurd (omega arith)
  get_first_block-Runs hs (suc fuel) known enough =
      bind-Runs (λ r t w. (t ≡ []) × Found hs r w) (next_relevant-Runs hs (suc fuel) known enough)
        (each_pair _ (elim [
          | none ↦ λ flag t. pure-Runs _ (λ w (none_sent, found). (rw none_sent refl, found))
          | some (ok header) ↦
              λ flag t. pure-Runs _ (λ w (none_sent, found). (rw none_sent refl, found))
          | some (err e) ↦ λ flag t. fact-Runs (λ w (none_sent, bad). bad) (λ bad. absurd bad)
        ]))

  -- The ranges up to the frontier, from the first block on.
  pub stream_from_first_block-Runs :
      (hs later : List Incoming) (header : Block) (fuel : ℕ) (h : H)
      → FirstOf top start confirmations hs header later
      → length hs + top + 3 ≤ fuel
      → fuel ≤ 2 ^ 63
      → Runs
          (λ w. upcoming w ≡ later)
          (stream_from_first_block env reorg_handler fuel header start confirmations size true h)
          (λ done t w. Streamed size start (frontier confirmations start hs) t)
  unfolding stream_from_first_block initialize_live_streaming_state
  stream_from_first_block-Runs hs later header fuel h first enough limited =
      let n : ℕ = header.number - confirmations in
      let shorter = first.shorter in
      let reached = first.reached in
      bind_first-Runs _
        (some
          (state_at env reorg_handler upcoming fed chain top calm small quiet size sized start n))
        (λ h' t w. Streamed size start (n + 1) t × (upcoming w ≡ later))
        (bind_first-Runs _ (some (chain n))
          (λ h' t w. Streamed size start (n + 1) t × (upcoming w ≡ later))
          (weaken-Runs
            (stream_range-Runs env reorg_handler upcoming fed chain top calm small quiet size later
              fuel _ start n h sized limited first.relevant (omega (arith, reached))
              (omega (arith, reached, enough)))
            (λ w q. q) (λ r t w (e, streamed, q). (e, (streamed, q))))
          (λ h' t. pure-Runs _ (λ w (streamed, q). (refl, (rw append-nil streamed, q)))))
        (λ h' t.
          fact-Runs (λ w (streamed, q). streamed)
            (λ streamed.
              weaken-Runs
                (stream_blocks_continuously-Runs env reorg_handler upcoming fed chain top calm small
                  quiet size sized later fuel n start start confirmations h' first.known
                  (omega (arith, reached)) (omega (arith, shorter, enough)) limited)
                (λ w (_, q). q)
                (λ done t' w more. rw first.same_frontier (
                  Streamed-append size start (n + 1) (frontier confirmations (n + 1) later) t t'
                    streamed more))))
