-- ===== src/Live/Batches.antt =====
-- `stream_range_with_reorg_handling` of src/block_range_scanner/common.rs keeps the receiver served.
use native.Mathlib.Decide.{dec_lt}
use event_scanner.Prelude.{
  ℕ, zero, suc, ◌+◌, ◌-◌, ◌^◌, ◌≤◌, ◌<◌, ◌≡◌, refl, sym, subst, max, Option, none, some, [], ◌∷◌,
  ◌++◌, arith, add_u64,
}
use event_scanner.Types.{
  Result, ok, err, ProviderError, ScannerError, Notification, open_channel, closed_channel,
  from_data, from_notification, from_error,
}
use event_scanner.Env.{Env, Block}
use event_scanner.Task.{delivered, pure, ◌>>◌, try_stream}
use event_scanner.Task.Hoare.{
  Trace, Hoare, pure-Hoare, call-Hoare, still_running-Hoare, or_panic_some-Hoare, bind-Hoare,
  try_stream-Hoare, weaken-Hoare, fact-Hoare, each_pair,
}
use event_scanner.RangeIterator.{RangeIterator, reset_to, batch_end}
use event_scanner.RangeIterator.Tiling.{TilesUp-le}
use event_scanner.RangeIterator.Step.{
  IsReady, block_limit, after, next-past, next-some, batch_bounds, after-IsReady, reset_to-IsReady,
  forward-IsReady,
}
use event_scanner.RangeStream.{Item}
use event_scanner.ReorgHandler.{ReorgHandler, CheckResult}
use event_scanner.Live.{stream_batches, stream_range_with_reorg_handling}
use event_scanner.Live.Served.{IsLawful, AtEnd}
use event_scanner.Receiver.Rules.{
  ServedTo, Gapless, served→gapless, refused-Gapless, OnOpen, report-Hoare, data_extends,
  reorg_restarts,
}

module _ {W H : Type 0} (env : Env W) (reorg_handler : ReorgHandler W H)
    (lawful : IsLawful env reorg_handler) (stream_start size : ℕ) where
  -- The loop invariant of `stream_batches`.
  pub record AtBatch (iter : RangeIterator) (last : Option Block) (t : Trace Item) : Type 0 where
    at : ServedTo stream_start size iter.current t
    past : iter.end < iter.current → (h : H) → AtEnd stream_start size iter.end (last, h) t

  pub AtBatch-Gapless :
      (iter : RangeIterator) (last : Option Block) (t : Trace Item)
      → AtBatch iter last t
      → Gapless stream_start size t
  AtBatch-Gapless iter last t a = served→gapless stream_start size iter.current t a.at

  pub report_end-Hoare :
      {pre : Trace Item → Type 0} (end : ℕ) (e : ScannerError) (h : H)
      → ((t : Trace Item) → pre t → Gapless stream_start size t)
      → Hoare
          (Gapless stream_start size)
          pre
          (try_stream env (from_error e) >> pure (none, h))
          (AtEnd stream_start size end)
  unfolding AtEnd
  report_end-Hoare end e h k =
      weaken-Hoare (report-Hoare stream_start size env e (none, h) k) (λ t p. p)
        (λ b t p. subst (λ c. AtEnd stream_start size end c t) (sym p.1) p.0)

  -- After a reorg the loop goes on from where the receiver has to be served.
  pub AtBatch-reset :
      (iter : RangeIterator) (ancestor block : Block) (t : Trace Item)
      → ancestor.number < block_limit
      → block.number ≤ iter.end
      → iter.end < block_limit
      → stream_start ≤ block.number + 1
      → AtBatch
          (reset_to (max (add_u64 ancestor.number 1) (stream_start - 1)) iter)
          (some block)
          (t ++ (delivered (from_notification (Notification.reorg_detected ancestor.number)) ∷ []))
  unfolding AtEnd reset_to
  AtBatch-reset iter ancestor block t small within end_small low = record {
    at = reorg_restarts stream_start size ancestor.number _ t (omega arith) (omega arith);
    past = λ p h. (
      reorg_restarts stream_start size ancestor.number (block.number + 1) t (omega arith)
          (omega arith),
      reorg_restarts stream_start size ancestor.number (iter.end + 1) t (omega arith) (omega arith),
      omega arith,
    );
  }

  -- After a batch without a reorg the loop goes on behind it.
  pub AtBatch-after :
      (iter : RangeIterator) (fuel : ℕ) (block : Block) (t : Trace Item)
      → IsReady (suc fuel) iter
      → iter.current ≤ iter.end
      → block.number ≡ batch_end iter
      → ServedTo stream_start size (batch_end iter + 1) t
      → AtBatch (after iter) (some block) t
  unfolding AtEnd after
  AtBatch-after iter fuel block t ready started e s =
      let bounds = batch_bounds fuel iter ready started in
      record {
        at = rw bounds.3 s;
        past = λ p h.
            let last : iter.end ≡ batch_end iter = omega (arith, bounds, p) in
            (rw e s, rw last s, omega (arith, e, last, ready.end_small));
      }

  -- The block that ends the next batch.
  abbrev pub Fetched : RangeIterator → Result ProviderError Block → Trace Item → Type 0
  Fetched iter answer t =
      ServedTo stream_start size iter.current t
      × ((block : Block) → answer ≡ ok block → block.number ≡ batch_end iter)

  abbrev pub Handed : RangeIterator → Trace Item → Type 0
  Handed iter t =
      ServedTo stream_start size (batch_end iter + 1) t × (stream_start ≤ batch_end iter + 1)

  abbrev pub Checked : RangeIterator → CheckResult × H → Trace Item → Type 0
  Checked iter (checked, h) t =
      Handed iter t
      × ((ancestor : Block) → checked ≡ ok (some ancestor) → ancestor.number < block_limit)

  pub hand_over :
      (iter : RangeIterator) (fuel : ℕ)
      → IsReady (suc fuel) iter
      → iter.current ≤ iter.end
      → iter.range_size ≡ size
      → Hoare
          (Gapless stream_start size)
          (ServedTo stream_start size iter.current)
          (try_stream env (from_data (record { start = iter.current; end = batch_end iter })))
          ((OnOpen stream_start size) (Handed iter))
  hand_over iter fuel ready started sized =
      let bounds = batch_bounds fuel iter ready started in
      try_stream-Hoare env _
        (λ t s. (
          data_extends stream_start size _ iter.current t refl bounds.0
              (omega (arith, bounds, sized)) s,
          omega (arith, bounds, s.not_before, TilesUp-le size s.base iter.current _ s.tiled),
        ))
        (λ t s.
          refused-Gapless stream_start size _ t (served→gapless stream_start size iter.current t s))

  pub stream_batches-Hoare :
      (fuel : ℕ) (iter : RangeIterator) (last : Option Block) (h : H)
      → IsReady fuel iter
      → iter.range_size ≡ size
      → Hoare
          (Gapless stream_start size)
          (AtBatch iter last)
          (stream_batches env reorg_handler fuel (stream_start - 1) iter last h)
          (AtEnd stream_start size iter.end)
  unfolding stream_batches AtEnd after reset_to
  stream_batches-Hoare zero iter last h ready sized =
      still_running-Hoare (AtBatch-Gapless iter last)
  stream_batches-Hoare (suc fuel) iter last h ready sized = elim (dec_lt iter.end iter.current) [
    | yes past ↦
        rw (next-past fuel iter ready past, stream_batches)
          (pure-Hoare (last, h) (λ t p. p.past past h))
    | no more ↦
        let started : iter.current ≤ iter.end = omega arith in
        rw (next-some fuel iter ready started, stream_batches)
          (bind-Hoare (Fetched iter)
            (call-Hoare _ (λ w t p. (p.at, lawful.numbered (batch_end iter) w)))
            (elim [
              | err e ↦
                  report_end-Hoare iter.end _ h
                    (λ t p. served→gapless stream_start size iter.current t p.0)
              | ok block ↦
                  fact-Hoare (λ t p. p.1 block refl)
                    (λ named.
                      bind-Hoare ((OnOpen stream_start size) (Handed iter))
                        (weaken-Hoare (hand_over iter fuel ready started sized) (λ t p. p.0)
                          (λ a t p. p))
                        (elim [
                          | closed_channel ↦ pure-Hoare _ (λ t p. p)
                          | open_channel ↦
                              bind-Hoare (Checked iter)
                                (call-Hoare _ (λ w t p. (p, λ a. lawful.ancestors h block w a)))
                                (each_pair _ (elim [
                                  | err e ↦ λ h'.
                                      report_end-Hoare iter.end e h'
                                        (λ t p. served→gapless stream_start size _ t p.0.0)
                                  | ok none ↦ λ h'.
                                      weaken-Hoare
                                        (stream_batches-Hoare fuel (after iter) (some block) h'
                                          (after-IsReady fuel iter ready started) sized)
                                        (λ t p.
                                          AtBatch-after iter fuel block t ready started named p.0.0)
                                        (λ b t p. p)
                                  | ok (some ancestor) ↦ λ h'.
                                      fact-Hoare (λ t p. p.1 ancestor refl)
                                        (λ small.
                                          bind-Hoare
                                            ((OnOpen stream_start size) (
                                              AtBatch
                                                (reset_to
                                                  (max (add_u64 ancestor.number 1)
                                                    (stream_start - 1))
                                                  (after iter))
                                                (some block)))
                                            (try_stream-Hoare env _
                                              (λ t p.
                                                AtBatch-reset (after iter) ancestor block t small
                                                  (omega (arith, named)) ready.end_small
                                                  (omega (arith, named, p.0.1)))
                                              (λ t p.
                                                refused-Gapless stream_start size _ t
                                                  (served→gapless stream_start size _ t p.0.0)))
                                            (elim [
                                              | closed_channel ↦ pure-Hoare _ (λ t p. p)
                                              | open_channel ↦
                                                  stream_batches-Hoare fuel
                                                    (reset_to
                                                      (max (add_u64 ancestor.number 1)
                                                        (stream_start - 1))
                                                      (after iter))
                                                    (some block) h'
                                                    (reset_to-IsReady fuel _ (after iter)
                                                      (after-IsReady fuel iter ready started))
                                                    sized
                                            ]))
                                ]))
                        ]))
            ]))
  ]

  pub stream_range-Hoare :
      (fuel start end : ℕ) (h : H)
      → 1 ≤ size
      → end < block_limit
      → fuel ≤ 2 ^ 63
      → Hoare
          (Gapless stream_start size)
          (ServedTo stream_start size start)
          (stream_range_with_reorg_handling env reorg_handler fuel
            (stream_start - 1)
            start
            end
            size
            h)
          (AtEnd stream_start size end)
  unfolding stream_range_with_reorg_handling AtEnd
  stream_range-Hoare fuel start end h sized small enough =
      let (iter, made, ready, at_start, to_end, size_kept) =
        forward-IsReady fuel start end size sized small enough in
      rw (made, stream_range_with_reorg_handling)
        (or_panic_some-Hoare _ (
          weaken-Hoare (stream_batches-Hoare fuel iter none h ready size_kept)
            (λ t s. record {
              at = rw at_start s;
              past = λ p k. served→gapless stream_start size start t s;
            })
            (λ b t p. subst (λ (k : ℕ). AtEnd stream_start size k b t) to_end p)))
