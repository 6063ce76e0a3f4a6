-- ===== src/RangeIterator/Reverse.antt =====
-- What the reverse iterator yields.
use native.Mathlib.Nat.{div-mul-le_self, lt-div-mul-add}
use event_scanner.Prelude.{
  ℕ, zero, suc, ◌+◌, ◌-◌, ◌*◌, ◌/◌, ◌≤◌, ◌<◌, ◌≡◌, refl, ap, some, [], ◌∷◌, arith, IsU64, length,
  ltb, if◌then◌else◌, add_u64,
}
use event_scanner.RangeIterator.{
  RangeIterator, reverse, next_reverse, collect_from, collect_reverse, batch_low,
}
use event_scanner.RangeIterator.Tiling.{TilesDown, collect_from-cons}

-- The iterator has `suc n` batches left, and they reach exactly down to its end.
record HasBatches (n : ℕ) (it : RangeIterator) : Type 0 where
  left : it.total_batches ≡ it.batch_count + suc n
  total_fits : IsU64 it.total_batches
  started : it.end ≤ it.current
  sized : 1 ≤ it.range_size
  full : n * it.range_size ≤ it.current - it.end
  last : it.current - it.end < suc n * it.range_size

abbrev after : RangeIterator → RangeIterator
after it = record it { current = batch_low it - 1; batch_count = it.batch_count + 1 }

batch_low_full :
    (n : ℕ) (it : RangeIterator)
    → HasBatches (suc n) it
    → (batch_low it + it.range_size ≡ it.current + 1) × (it.end < batch_low it)
batch_low_full n it h = omega arith

next-more :
    (n : ℕ) (it : RangeIterator)
    → HasBatches (suc n) it
    → next_reverse it ≡ some (record { start = batch_low it; end = it.current }, after it)
unfolding next_reverse
next-more n it h = ground (arith, batch_low_full n it h)

after-HasBatches : (n : ℕ) (it : RangeIterator) → HasBatches (suc n) it → HasBatches n (after it)
after-HasBatches n it h = omega (arith, batch_low_full n it h)

batch_low_last : (it : RangeIterator) → HasBatches zero it → batch_low it ≡ it.end
batch_low_last it h = omega arith

next-last :
    (it : RangeIterator)
    → HasBatches zero it
    → (rest : RangeIterator) × (next_reverse it
        ≡ some (record { start = it.end; end = it.current }, rest))
unfolding next_reverse
next-last it h = (
  record it { current = batch_low it - 1; batch_count = add_u64 it.batch_count 1 },
  ground (arith, batch_low_last it h),
)

collect_last :
    (it : RangeIterator)
    → HasBatches zero it
    → collect_from next_reverse 1 it ≡ record { start = it.end; end = it.current } ∷ []
unfolding collect_from
collect_last it h = let (rest, e) = next-last it h in collect_from-cons next_reverse 0 it e

collect-TilesDown :
    (n : ℕ) (it : RangeIterator)
    → HasBatches n it
    → TilesDown it.range_size (it.current + 1) it.end (collect_from next_reverse (suc n) it)
      × (length (collect_from next_reverse (suc n) it) ≡ suc n)
collect-TilesDown zero it h = rw (collect_last it h) (omega arith)
collect-TilesDown (suc n) it h =
    let ih = collect-TilesDown n (after it) (after-HasBatches n it h) in
    let low = batch_low_full n it h in
    let e : batch_low it - 1 + 1 ≡ batch_low it = omega (arith, low) in
    rw (collect_from-cons next_reverse (suc n) it (next-more n it h)) (
      (refl, omega (arith, low), omega (arith, low), omega (arith, low), rw e at ih.0),
      ap suc ih.1,
    )

batches_of :
    (it : RangeIterator)
    → it.end ≤ it.current
    → 1 ≤ it.range_size
    → IsU64 it.total_batches
    → it.total_batches ≡ it.batch_count + (it.current - it.end) / it.range_size + 1
    → HasBatches ((it.current - it.end) / it.range_size) it
batches_of it a b d e = record {
  left = omega (arith, e);
  total_fits = d;
  started = a;
  sized = b;
  full = div-mul-le_self (it.current - it.end) it.range_size;
  last = omega (arith, lt-div-mul-add {a = it.current - it.end} {b = it.range_size} b);
}

collect_reverse-HasBatches :
    (n : ℕ) (it : RangeIterator)
    → HasBatches n it
    → TilesDown it.range_size (it.current + 1) it.end (collect_reverse it)
      × (length (collect_reverse it) ≡ suc n)
unfolding collect_reverse
collect_reverse-HasBatches n it h =
    let e : it.total_batches - it.batch_count ≡ suc n = omega (arith, h.left) in
    rw e (collect-TilesDown n it h)

collect_reverse-empty :
    (it : RangeIterator) → it.total_batches ≡ it.batch_count → collect_reverse it ≡ []
unfolding collect_reverse
collect_reverse-empty it h =
    let e : it.total_batches - it.batch_count ≡ 0 = omega arith in rw (e, collect_from)

pub reverse_fields :
    (start end size : ℕ) {it : RangeIterator}
    → reverse start end size ≡ some it
    → IsU64 ((start - end) / size + 1)
    → (it.current ≡ start)
      × (it.end ≡ end)
      × (it.range_size ≡ size)
      × (it.batch_count ≡ 0)
      × (it.total_batches ≡ (if ltb start end then 0 else (start - end) / size + 1))
      × (1 ≤ size)
unfolding reverse
reverse_fields start end size e u = ground arith

-- The reverse iterator from `start` down to `end` yields consecutive ranges of at most
-- `max_block_range` blocks, the first ending at `start` and the last starting at `end`, as many as
-- the quotient says, whenever their number fits a `u64`.
pub reverse-TilesDown :
    (start end size : ℕ) {it : RangeIterator}
    → reverse start end size ≡ some it
    → end ≤ start
    → IsU64 ((start - end) / size + 1)
    → TilesDown size (start + 1) end (collect_reverse it)
      × (length (collect_reverse it) ≡ (start - end) / size + 1)
reverse-TilesDown start end size {it} e h v =
    let f = reverse_fields start end size e v in
    let all = collect_reverse-HasBatches ((it.current - it.end) / it.range_size) it (
      batches_of it (omega (arith, f.0, f.1)) (omega (arith, f.2, f.5)) (ground (arith, f.4, v))
        (rw (f.0, f.1, f.2, f.3, f.4) (ground arith))) in
    rw (← f.2, ← f.0, ← f.1) (all.0, omega (arith, all.1))
