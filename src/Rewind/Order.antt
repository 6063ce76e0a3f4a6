-- ===== src/Rewind/Order.antt =====
-- A rewind streams its whole range downwards, for every behaviour of provider and receiver.
use native.Mathlib.Nat.{div-le_self}
use event_scanner.Prelude.{
  ℕ, ◌+◌, ◌-◌, ◌/◌, ◌≤◌, ◌<◌, ◌≡◌, ◌⊎◌, inl, inr, refl, subst, none, some, Bool, true, false, List,
  [], ◌∷◌, ltb, if◌then◌else◌, add_u64, arith,
}
use event_scanner.Types.{ok, err, open_channel, closed_channel, from_data}
use event_scanner.Env.{Env, Block}
use event_scanner.Task.{Progress, finished, running, panicked, try_stream}
use event_scanner.Task.Hoare.{
  Trace, Outcome, Hoare, pure-Hoare, call-Hoare, or_panic_some-Hoare, bind-Hoare, try_stream-Hoare,
  each_pair, fact-Hoare, weaken-Hoare,
}
use event_scanner.RangeIterator.{BlockRange, RangeIterator, reverse, collect_reverse}
use event_scanner.RangeIterator.Tiling.{TilesDown}
use event_scanner.RangeIterator.Reverse.{reverse-TilesDown}
use event_scanner.RangeIterator.Step.{block_limit}
use event_scanner.RangeStream.{Item}
use event_scanner.ReorgHandler.{ReorgHandler, CheckResult}
use event_scanner.Rewind.{rewind_ranges, handle_stream_rewind}
use event_scanner.Rewind.Phases.{descending, ended, IsRewound, begins, streams, stops}
use event_scanner.Rewind.Rescan.{
  IsHonest, Never, In, OnOpen, fail-Hoare, Rescanned, handle_reorg_rescan-Hoare,
}

-- The iterator that a rewind makes, and the ranges that it yields.
pub reverse_tiles :
    (start end size : ℕ)
    → 1 ≤ size
    → start < block_limit
    → end ≤ start
    → (iter : RangeIterator) × (reverse start end size ≡ some iter)
      × TilesDown size (start + 1) end (collect_reverse iter)
unfolding reverse
reverse_tiles start end size sized small ordered =
    let few = div-le_self (start - end) size in
    let iter : RangeIterator = record {
      current = start;
      end = end;
      range_size = size;
      batch_count = 0;
      total_batches = if ltb start end then 0 else add_u64 ((start - end) / size) 1;
    } in
    let made : reverse start end size ≡ some iter = ground arith in
    (iter, made, (reverse-TilesDown start end size made ordered (omega (arith, few, small))).0)

module _ {W H : Type 0} (env : Env W) (reorg_handler : ReorgHandler W H)
    (honest : IsHonest env reorg_handler) (size from to : ℕ) (sized : 1 ≤ size)
    (small : from < block_limit) where
  -- How a rewind ends: at the end of the range, or early after an error or without a receiver.
  abbrev IsOver : Unit {0} → Trace Item → Type 0
  IsOver done t = In env size from to (descending to) t ⊎ In env size from to ended t

  -- What is known once the reorg handler has answered.
  abbrev Checked : ℕ → CheckResult × H → Trace Item → Type 0
  Checked low (checked, h) t =
      In env size from to (descending low) t
      × ((ancestor : Block) → checked ≡ ok (some ancestor) → ancestor.number < block_limit)

  check-Checked :
      (low : ℕ) (tip : Block) (h : H) (w : W) (t : Trace Item)
      → In env size from to (descending low) t
      → Checked low (reorg_handler.check h tip w).0 t
  check-Checked low tip h w t q = (q, λ ancestor e. honest.ancestors h tip w ancestor e)

  stream_range-Hoare :
      (r : BlockRange) (low : ℕ)
      → r.end + 1 ≡ low
      → r.start ≤ r.end
      → r.end < r.start + size
      → to ≤ r.start
      → Hoare
          (Never env size from to)
          (In env size from to (descending low))
          (try_stream env (from_data r))
          (OnOpen env size from to (descending r.start))
  stream_range-Hoare r low meets ordered bounded above =
      try_stream-Hoare env (from_data r) (λ t q. streams low t r q meets ordered bounded above)
        (λ t q. stops (descending low) t _ tt q)

  rewind_ranges-Hoare :
      (ranges : List BlockRange) (check_reorg : Bool) (tip : Block) (h : H) (low : ℕ)
      → TilesDown size low to ranges
      → tip.number ≡ from
      → Hoare
          (Never env size from to)
          (In env size from to (descending low))
          (rewind_ranges env reorg_handler ranges check_reorg tip size h)
          IsOver
  unfolding rewind_ranges
  rewind_ranges-Hoare [] check_reorg tip h low tiles at =
      pure-Hoare _ (λ t q. inl (subst (λ (k : ℕ). In env size from to (descending k) t) tiles q))
  rewind_ranges-Hoare (r ∷ rs) false tip h low tiles at =
      bind-Hoare (OnOpen env size from to (descending r.start))
        (stream_range-Hoare r low tiles.0 tiles.1 tiles.2 tiles.3)
        (elim [
          | closed_channel ↦ pure-Hoare _ (λ t q. inr q)
          | open_channel ↦ rewind_ranges-Hoare rs false tip h r.start tiles.4 at
        ])
  rewind_ranges-Hoare (r ∷ rs) true tip h low tiles at =
      bind-Hoare (OnOpen env size from to (descending r.start))
        (stream_range-Hoare r low tiles.0 tiles.1 tiles.2 tiles.3)
        (elim [
          | closed_channel ↦ pure-Hoare _ (λ t q. inr q)
          | open_channel ↦
              bind-Hoare (Checked r.start) (call-Hoare _ (check-Checked r.start tip h)) (
                each_pair _ (elim [
                  | err e ↦ λ h'.
                      weaken-Hoare (fail-Hoare env size from to (descending r.start) e tt tt)
                        (λ t q. q.0) (λ done t q. inr q.0)
                  | ok none ↦ λ h'.
                      weaken-Hoare (rewind_ranges-Hoare rs true tip h' r.start tiles.4 at)
                        (λ t q. q.0) (λ done t q. q)
                  | ok (some ancestor) ↦ λ h'.
                      fact-Hoare (λ t q. q.1 ancestor refl)
                        (λ bounded.
                          bind-Hoare
                            (Rescanned env reorg_handler honest size from to sized small r.start)
                            (weaken-Hoare
                              (handle_reorg_rescan-Hoare env reorg_handler honest size from to sized
                                small tip ancestor r.start bounded at)
                              (λ t q. q.0) (λ x t q. q))
                            (each_pair _ (elim [
                              | closed_channel ↦ λ tip'. pure-Hoare _ (λ t q. inr q.0)
                              | open_channel ↦ λ tip'.
                                  fact-Hoare (λ t q. q.1)
                                    (λ same.
                                      weaken-Hoare
                                        (rewind_ranges-Hoare rs true tip' h' r.start tiles.4 same)
                                        (λ t q. q.0) (λ done t q. q))
                            ])))
                ]))
        ])

  handle_stream_rewind-Hoare :
      (high low : Block) (h : H)
      → high.number ≡ from
      → low.number ≡ to
      → to ≤ from
      → Hoare
          (Never env size from to)
          (In env size from to (descending (from + 1)))
          (handle_stream_rewind env reorg_handler high low size h)
          IsOver
  unfolding handle_stream_rewind
  handle_stream_rewind-Hoare high low h at_high at_low ordered =
      bind-Hoare (λ answer. In env size from to (descending (from + 1))) (call-Hoare _ (λ w t q. q))
        (λ answer.
          let (iter, made, tiles) = reverse_tiles from to size sized small ordered in
          let made' : reverse high.number low.number size ≡ some iter = rw (at_low, at_high) made in
          rw made' (
            or_panic_some-Hoare _
              (rewind_ranges-Hoare (collect_reverse iter) _ high h (from + 1) tiles at_high)))

-- Whatever errors and reorgs come in and whether or not the receiver leaves, where the provider and
-- the reorg handler answer with blocks that fit their numbers, a range may hold at least one block and
-- the numbers are below the limit, a rewind from a block down to another at or below it ends without a panic, and the receiver got consecutive ranges downwards from the higher block, each
-- reorg notification followed by the ranges from the block after its common ancestor up to the
-- higher block: all of it, down to the lower block, unless an error was sent or the receiver was
-- gone.
pub handle_stream_rewind-IsRewound :
    {W H : Type 0} (env : Env W) (reorg_handler : ReorgHandler W H) (from to : Block) (size : ℕ)
    (h : H) (w : W)
    → IsHonest env reorg_handler
    → 1 ≤ size
    → to.number ≤ from.number
    → from.number < block_limit
    → let (outcome, sent, _) = handle_stream_rewind env reorg_handler from to size h w in
      (outcome ≡ finished tt)
      × (IsRewound size from.number to.number (descending to.number) sent
          ⊎ IsRewound size from.number to.number ended sent)
handle_stream_rewind-IsRewound env reorg_handler from to size h w honest sized ordered small =
    over _ _ (
      (handle_stream_rewind-Hoare env reorg_handler honest size from.number to.number sized small
          from to h refl refl ordered).run
        [] w begins)
  where
    over :
        (o : Progress (Unit {0})) (t : Trace Item)
        → Outcome
            (λ t'. ⊥)
            (λ done t'.
              IsRewound size from.number to.number (descending to.number) t'
              ⊎ IsRewound size from.number to.number ended t')
            o
            t
        → (o ≡ finished tt)
          × (IsRewound size from.number to.number (descending to.number) t
              ⊎ IsRewound size from.number to.number ended t)
    over (finished done) t q = (refl, q)
    over running t q = absurd q
    over panicked t q = absurd q
