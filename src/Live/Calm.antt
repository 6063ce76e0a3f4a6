-- ===== src/Live/Calm.antt =====
-- Live streaming while the chain stands: one range of blocks.
use event_scanner.Prelude.{
  ℕ, zero, suc, ◌+◌, ◌^◌, ◌≤◌, ◌<◌, ◌≡◌, refl, ap, ◌∙◌, subst, true, Option, none, some, List, [],
  ◌∷◌, arith,
}
use native.Mathlib.Decide.{dec_lt}
use event_scanner.Types.{ok, open_channel, from_data}
use event_scanner.Env.{Env, Block, BlockNumberOrTag}
use event_scanner.Task.{delivered}
use event_scanner.Task.Hoare.{Trace}
use event_scanner.Task.Runs.{
  Runs, pure-Runs, call-Runs, weaken-Runs, or_panic_some-Runs, try_stream-Runs, bind_known-Runs,
  bind_call-Runs,
}
use event_scanner.RangeIterator.{RangeIterator, batch_end}
use event_scanner.RangeIterator.Step.{
  IsReady, block_limit, after, next-past, next-some, batch_bounds, after-IsReady, forward-IsReady,
}
use event_scanner.RangeStream.{Item}
use event_scanner.ReorgHandler.{ReorgHandler}
use event_scanner.Historical.Calm.{IsCalm, Streamed}
use event_scanner.Live.{Incoming, stream_batches, stream_range_with_reorg_handling}

-- `upcoming` is what the subscription will still yield; nothing but reading it changes it, and every
-- send reaches the receiver.
pub record IsFed {W : Type 0} (env : Env W) (upcoming : W → List Incoming) : Type 0 where
  pub ended :
      (w : W)
      → upcoming w ≡ []
      → ((env.next_header w).0 ≡ none) × (upcoming (env.next_header w).1 ≡ [])
  pub arrives :
      (w : W) (x : Incoming) (xs : List Incoming)
      → upcoming w ≡ x ∷ xs
      → ((env.next_header w).0 ≡ some x) × (upcoming (env.next_header w).1 ≡ xs)
  pub asked : (n : BlockNumberOrTag) (w : W) → upcoming (env.get_block_by_number n w).1 ≡ upcoming w
  pub sends : (w : W) → (env.send_is_ok w).0 ≡ true
  pub sent : (w : W) → upcoming (env.send_is_ok w).1 ≡ upcoming w

-- The reorg handler finds none below a block of the chain.
abbrev pub FindsNone :
    {W H : Type 0} → (W → List Incoming) → ReorgHandler W H → (ℕ → Block) → ℕ → Type 0
FindsNone {W} {H} upcoming reorg_handler chain top =
    (n : ℕ)
    → n ≤ top
    → (h : H) (w : W)
    → ((reorg_handler.check h (chain n) w).0.0 ≡ ok none)
      × (upcoming (reorg_handler.check h (chain n) w).1 ≡ upcoming w)

Streamed-cons :
    (size start end upto : ℕ) (t : Trace Item)
    → start ≤ end
    → end < start + size
    → end < upto
    → Streamed size (end + 1) upto t
    → Streamed size start upto (delivered (from_data (record { start = start; end = end })) ∷ t)
Streamed-cons size start end upto t ordered sized below (rs, e, tiles) =
    (record { start = start; end = end } ∷ rs, rw e refl, (refl, ordered, sized, below, tiles))

module _ {W H : Type 0} (env : Env W) (reorg_handler : ReorgHandler W H)
    (upcoming : W → List Incoming) (fed : IsFed env upcoming) (chain : ℕ → Block) (top : ℕ)
    (calm : IsCalm env chain top) (small : top < block_limit)
    (quiet : FindsNone upcoming reorg_handler chain top) (size : ℕ) (hs : List Incoming) where
  abbrev Awaits : W → Type 0
  Awaits w = upcoming w ≡ hs

  -- The last batch, once there is one past the end.
  abbrev IsDone : RangeIterator → Option Block → Type 0
  IsDone iter last =
      iter.end < iter.current → (last ≡ some (chain iter.end)) × (iter.current ≡ iter.end + 1)

  abbrev RangeDone : ℕ → ℕ → Option Block × H → Trace Item → W → Type 0
  RangeDone start end r t w = (r.0 ≡ some (chain end)) × Streamed size start (end + 1) t × Awaits w

  stream_batches-Runs :
      (fuel min_common_ancestor : ℕ) (iter : RangeIterator) (last : Option Block) (h : H)
      → IsReady fuel iter
      → iter.range_size ≡ size
      → iter.end ≤ top
      → iter.end + 2 ≤ iter.current + fuel
      → iter.current ≤ iter.end + 1
      → IsDone iter last
      → Runs Awaits
          (stream_batches env reorg_handler fuel min_common_ancestor iter last h)
          (RangeDone iter.current iter.end)
  unfolding stream_batches after
  stream_batches-Runs zero min iter last h ready sized reached enough near done =
      absurd (omega arith)
  stream_batches-Runs (suc fuel) min iter last h ready sized reached enough near done =
      elim (dec_lt iter.end iter.current) [
        | yes past ↦
            let (same, at) = done past in
            rw (next-past fuel iter ready past, stream_batches)
              (pure-Runs (last, h) (λ w p. (same, ([], refl, at), p)))
        | no more ↦
            let started : iter.current ≤ iter.end = omega arith in
            let bounds = batch_bounds fuel iter ready started in
            rw (next-some fuel iter ready started, stream_batches)
              (bind_known-Runs _ (ok (chain (batch_end iter))) [] Awaits
                (call-Runs _
                  (λ w p. (calm.blocks (batch_end iter) (omega arith) w, refl, fed.asked _ w ∙ p)))
                (bind_known-Runs _ open_channel _ Awaits
                  (try_stream-Runs env _ (λ w p. (fed.sends w, fed.sent w ∙ p)))
                  (bind_call-Runs _ _ (ok none) Awaits
                    (λ w p.
                      let (none_found, kept) = quiet (batch_end iter) (omega arith) h w in
                      (none_found, kept ∙ p))
                    (λ h'.
                      weaken-Runs
                        (stream_batches-Runs fuel min (after iter) (some (chain (batch_end iter)))
                          h' (after-IsReady fuel iter ready started) sized reached
                          (omega (arith, bounds, enough)) (omega (arith, bounds))
                          (λ past.
                            let at : batch_end iter ≡ iter.end = omega (arith, bounds, past) in
                            (ap (λ (n : ℕ). some (chain n)) at, omega (arith, bounds, at))))
                        (λ w p. p)
                        (λ r t w (same, streamed, p). (
                          same,
                          Streamed-cons size iter.current (batch_end iter) (iter.end + 1) t bounds.0
                              (omega (arith, bounds, sized)) (omega (arith, bounds))
                              (subst (λ (n : ℕ). Streamed size n (iter.end + 1) t) bounds.3
                                streamed),
                          p,
                        ))))))
      ]

  -- A range that begins at or below its end, with a turn for each block and one more.
  pub stream_range-Runs :
      (fuel min_common_ancestor start end : ℕ) (h : H)
      → 1 ≤ size
      → fuel ≤ 2 ^ 63
      → start ≤ end
      → end ≤ top
      → end + 2 ≤ start + fuel
      → Runs Awaits
          (stream_range_with_reorg_handling env reorg_handler fuel min_common_ancestor start end
            size h)
          (RangeDone start end)
  unfolding stream_range_with_reorg_handling
  stream_range-Runs fuel min start end h sized limited ordered reached enough =
      let (iter, made, ready, at_start, at_end, same_size) =
        forward-IsReady fuel start end size sized (omega arith) limited in
      rw made (
        or_panic_some-Runs _ (
          weaken-Runs
            (stream_batches-Runs fuel min iter none h ready same_size
              (omega (arith, at_end, reached)) (omega (arith, at_end, at_start, enough))
              (omega (arith, at_end, at_start, ordered))
              (λ past. absurd (omega (arith, past, at_end, at_start, ordered))))
            (λ w p. p)
            (λ r t w q.
              let from_start = subst (λ (n : ℕ). RangeDone n iter.end r t w) at_start q in
              subst (λ (n : ℕ). RangeDone start n r t w) at_end from_start)))
