-- ===== src/Live/CalmRun.antt =====
-- Live streaming while the chain stands, from its first block to the end of the subscription.
use event_scanner.Prelude.{
  ℕ, zero, suc, ◌+◌, ◌-◌, ◌^◌, ◌≤◌, ◌<◌, ◌≡◌, refl, sym, ◌∙◌, subst, max, Bool, true, none, some,
  List, [], ◌∷◌, ◌++◌, append-nil, All, add_u64, ltb, arith, inl, inr, Bool-cases, length,
}
use event_scanner.Types.{ok, err, ProviderError, ChannelState, open_channel}
use event_scanner.Env.{Env, Block}
use event_scanner.Task.Hoare.{Trace}
use event_scanner.Task.Runs.{
  Runs, pure-Runs, call-Runs, weaken-Runs, fact-Runs, bind-Runs, bind_known-Runs, bind_call-Runs,
  bind_first-Runs, when_open-Runs,
}
use event_scanner.RangeIterator.Step.{block_limit}
use event_scanner.RangeStream.{Item}
use event_scanner.ReorgHandler.{ReorgHandler}
use event_scanner.Historical.Calm.{IsCalm, Streamed, Streamed-append}
use event_scanner.Live.{Incoming, LiveStreamingState, reported, next_relevant}
use event_scanner.Live.Loop.{stream_next_batch, handle_incoming_block, stream_blocks_continuously}
use event_scanner.Live.Calm.{IsFed, FindsNone, stream_range-Runs}

-- The block after the last one to stream, once the headers have come in.
abbrev pub frontier : ℕ → ℕ → List Incoming → ℕ
frontier confirmations front [] = front
frontier confirmations front (ok header ∷ hs) =
    frontier confirmations (max front (header.number - confirmations + 1)) hs
frontier confirmations front (err e ∷ hs) = frontier confirmations front hs

-- A header of the chain, or a lag of the subscription.
abbrev pub IsHeader : ℕ → Incoming → Type 0
IsHeader top (ok header) = header.number ≤ top
IsHeader top (err (ProviderError.lagged n)) = Unit
IsHeader top (err ProviderError.timeout) = ⊥
IsHeader top (err ProviderError.closed) = ⊥
IsHeader top (err ProviderError.block_not_found) = ⊥
IsHeader top (err (ProviderError.rpc_error n)) = ⊥

module _ {W H : Type 0} (env : Env W) (reorg_handler : ReorgHandler W H)
    (upcoming : W → List Incoming) (fed : IsFed env upcoming) (chain : ℕ → Block) (top : ℕ)
    (calm : IsCalm env chain top) (small : top < block_limit)
    (quiet : FindsNone upcoming reorg_handler chain top) (size : ℕ) (sized : 1 ≤ size) where
  abbrev pub Awaits : List Incoming → W → Type 0
  Awaits hs w = upcoming w ≡ hs

  abbrev pub state_at : ℕ → ℕ → LiveStreamingState
  state_at batch_start p = record { batch_start = batch_start; previous_batch_end = some (chain p) }

  -- A turn that has streamed the blocks after `p` up to `q`.
  abbrev Turned :
      List Incoming → ℕ → ℕ → ChannelState × LiveStreamingState × H → Trace Item → W → Type 0
  Turned hs p q r t w =
      (r.0 ≡ open_channel)
      × ((k : ℕ) × (r.1 ≡ state_at k q))
      × Streamed size (p + 1) (q + 1) t
      × Awaits hs w

  stream_next_batch-Runs :
      (hs : List Incoming) (fuel n p k start : ℕ) (h : H)
      → fuel ≤ 2 ^ 63
      → k ≡ p + 1
      → n ≤ top
      → top + 2 ≤ fuel
      → Runs
          (Awaits hs)
          (stream_next_batch env reorg_handler fuel n (state_at k p) start size h)
          (Turned hs p (max p n))
  unfolding stream_next_batch
  stream_next_batch-Runs hs fuel n p k start h limited after reached enough =
      elim (Bool-cases (ltb n k)) [
        | inl nothing ↦
            let same : max p n ≡ p = ground (arith, after, nothing) in
            rw (nothing, stream_next_batch, same)
              (pure-Runs _ (λ w q. (refl, (k, refl), ([], refl, refl), q)))
        | inr batch ↦
            let same : max p n ≡ n = ground (arith, after, batch) in
            rw (batch, stream_next_batch, same)
              (bind_first-Runs _ (some (chain n))
                (λ h' t w. Streamed size (p + 1) (n + 1) t × Awaits hs w)
                (weaken-Runs
                  (stream_range-Runs env reorg_handler upcoming fed chain top calm small quiet size
                    hs fuel _ k n h sized limited (ground (arith, batch)) reached
                    (omega (arith, enough, reached)))
                  (λ w q. q)
                  (λ r t w (e, streamed, q).
                    (e, (subst (λ (j : ℕ). Streamed size j (n + 1) t) after streamed, q))))
                (λ h' t.
                  pure-Runs _
                    (λ w (streamed, q). (refl, (add_u64 n 1, refl), rw append-nil streamed, q))))
      ]

  handle_incoming_block-Runs :
      (hs : List Incoming) (fuel p k start confirmations : ℕ) (incoming : Block) (h : H)
      → fuel ≤ 2 ^ 63
      → p ≤ top
      → incoming.number ≤ top
      → top + 2 ≤ fuel
      → Runs
          (Awaits hs)
          (handle_incoming_block env reorg_handler fuel incoming
            (state_at k p)
            start
            confirmations
            size
            h)
          (Turned hs p (max p (incoming.number - confirmations)))
  unfolding handle_incoming_block
  handle_incoming_block-Runs hs fuel p k start confirmations incoming h limited at reached enough =
      bind_call-Runs _ _ (ok none) (Awaits hs)
        (λ w q. let (none_found, kept) = quiet p at h w in (none_found, kept ∙ q))
        (λ h'.
          stream_next_batch-Runs hs fuel (incoming.number - confirmations) p _ start h' limited
            (omega (arith, calm.numbers p, at, small)) (omega (arith, reached)) enough)

  pub next_ended-Runs :
      (fuel start confirmations : ℕ) (flag : Bool)
      → Runs
          (Awaits [])
          (next_relevant env reorg_handler (suc fuel) start confirmations flag)
          (λ r t w. (r ≡ (none, flag)) × (t ≡ []) × Awaits [] w)
  unfolding next_relevant
  next_ended-Runs fuel start confirmations flag =
      bind_known-Runs _ none [] (Awaits [])
        (call-Runs _ (λ w q. let (same, kept) = fed.ended w q in (same, refl, kept)))
        (pure-Runs _ (λ w q. (refl, refl, q)))

  -- Once skipping is over, the next header is taken as it is.
  next_taken-Runs :
      (fuel start confirmations : ℕ) (x : Incoming) (hs : List Incoming)
      → Runs
          (Awaits (x ∷ hs))
          (next_relevant env reorg_handler (suc fuel) start confirmations true)
          (λ r t w. (r ≡ (some x, true)) × (t ≡ []) × Awaits hs w)
  unfolding next_relevant
  next_taken-Runs fuel start confirmations x hs =
      bind_known-Runs _ (some x) [] (Awaits hs)
        (call-Runs _ (λ w q. let (same, kept) = fed.arrives w x hs q in (same, refl, kept)))
        (pure-Runs _ (λ w q. (refl, refl, q)))

  continue_done :
      (fuel p k start confirmations : ℕ) (h : H)
      → Runs
          (Awaits [])
          (stream_blocks_continuously env reorg_handler
            (suc fuel)
            (state_at k p)
            start
            confirmations
            size
            true
            h)
          (λ done t w. Streamed size (p + 1) (p + 1) t)
  unfolding stream_blocks_continuously
  continue_done fuel p k start confirmations h =
      bind_known-Runs _ (none, true) [] (Awaits []) (next_ended-Runs fuel start confirmations true)
        (pure-Runs _ (λ w q. ([], refl, refl)))

  -- The loop streams up to the frontier and ends with the subscription.
  pub stream_blocks_continuously-Runs :
      (hs : List Incoming) (fuel p k start confirmations : ℕ) (h : H)
      → All (IsHeader top) hs
      → p ≤ top
      → length hs + top + 3 ≤ fuel
      → fuel ≤ 2 ^ 63
      → Runs
          (Awaits hs)
          (stream_blocks_continuously env reorg_handler fuel
            (state_at k p)
            start
            confirmations
            size
            true
            h)
          (λ done t w. Streamed size (p + 1) (frontier confirmations (p + 1) hs) t)
  unfolding stream_blocks_continuously reported
  stream_blocks_continuously-Runs hs zero p k start confirmations h known at enough limited =
      absurd (omega arith)
  stream_blocks_continuously-Runs [] (suc fuel) p k start confirmations h known at enough limited =
      continue_done fuel p k start confirmations h
  stream_blocks_continuously-Runs (err (ProviderError.lagged n) ∷ hs) (suc fuel) p k start
        confirmations h known at enough limited =
      bind_known-Runs _ (some (err (ProviderError.lagged n)), true) [] (Awaits hs)
        (next_taken-Runs fuel start confirmations (err (ProviderError.lagged n)) hs)
        (stream_blocks_continuously-Runs hs fuel p k start confirmations h known.1 at (omega arith)
          (omega arith))
  stream_blocks_continuously-Runs (err ProviderError.timeout ∷ hs) (suc fuel) p k start
        confirmations h known at enough limited =
      absurd known.0
  stream_blocks_continuously-Runs (err ProviderError.closed ∷ hs) (suc fuel) p k start confirmations
        h known at enough limited =
      absurd known.0
  stream_blocks_continuously-Runs (err ProviderError.block_not_found ∷ hs) (suc fuel) p k start
        confirmations h known at enough limited =
      absurd known.0
  stream_blocks_continuously-Runs (err (ProviderError.rpc_error n) ∷ hs) (suc fuel) p k start
        confirmations h known at enough limited =
      absurd known.0
  stream_blocks_continuously-Runs (ok header ∷ hs) (suc fuel) p k start confirmations h known at
        enough limited =
      let n : ℕ = header.number - confirmations in
      let q : ℕ = max p n in
      bind_known-Runs _ (some (ok header), true) [] (Awaits hs)
        (next_taken-Runs fuel start confirmations (ok header) hs)
        (bind-Runs (Turned hs p q)
          (handle_incoming_block-Runs hs (suc fuel) p k start confirmations header h limited at
            known.0 (omega (arith, enough)))
          (λ (c, s, h') t.
            fact-Runs (λ w turned. (turned.0, turned.1, turned.2))
              (λ (opened, (k', same), streamed).
                let further =
                  stream_blocks_continuously-Runs hs fuel q k' start confirmations h' known.1
                    (omega (arith, at, known.0)) (omega (arith, enough)) (omega (arith, limited)) in
                let last : max (p + 1) (n + 1) ≡ q + 1 = omega arith in
                let resumed =
                  weaken-Runs further (λ w (turned : Turned hs p q (c, s, h') t w). turned.3)
                    (λ done t' w more.
                      Streamed-append size (p + 1) (q + 1) (frontier confirmations (q + 1) hs) t t'
                        streamed more) in
                when_open-Runs _ c opened (
                  rw last (
                    subst
                      (λ s'.
                        Runs (Turned hs p q (c, s, h') t)
                          (stream_blocks_continuously env reorg_handler fuel s' start confirmations
                            size true h')
                          (λ done t' w.
                            Streamed size (p + 1) (frontier confirmations (q + 1) hs) (t ++ t')))
                      (sym same) resumed)))))
