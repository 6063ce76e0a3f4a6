-- ===== src/RangeIterator/Forward.antt =====
-- What the forward iterator yields, from a fresh start and after `reset_to`.
use native.Mathlib.Nat.{div-mul-le_self, lt-div-mul-add}
use event_scanner.Prelude.{
  ℕ, zero, suc, ◌+◌, ◌-◌, ◌*◌, ◌/◌, ◌≤◌, ◌<◌, ◌≡◌, refl, ap, some, [], ◌∷◌, arith, IsU64, add_u64,
  length, ltb, max, if◌then◌else◌, Bool-cases, inl, inr,
}
use event_scanner.RangeIterator.{
  RangeIterator, forward, reset_to, next_forward, collect_from, collect_forward, batch_end,
}
use event_scanner.RangeIterator.Tiling.{
  TilesUp, collect_from-cons, blocks, interval, blocks-TilesUp,
}

-- The iterator has `suc n` batches left, and they reach exactly to its end.
record HasBatches (n : ℕ) (it : RangeIterator) : Type 0 where
  left : it.total_batches ≡ it.batch_count + suc n
  total_fits : IsU64 it.total_batches
  end_fits : IsU64 it.end
  started : it.current ≤ it.end
  sized : 1 ≤ it.range_size
  full : n * it.range_size ≤ it.end - it.current
  last : it.end - it.current < suc n * it.range_size

abbrev after : RangeIterator → RangeIterator
after it = record it { current = batch_end it + 1; batch_count = it.batch_count + 1 }

-- With another batch to follow, this one is full and nothing wraps.
batch_end_full :
    (n : ℕ) (it : RangeIterator)
    → HasBatches (suc n) it
    → (batch_end it + 1 ≡ it.current + it.range_size) × (batch_end it < it.end)
batch_end_full n it h = omega arith

next-more :
    (n : ℕ) (it : RangeIterator)
    → HasBatches (suc n) it
    → next_forward it ≡ some (record { start = it.current; end = batch_end it }, after it)
unfolding next_forward
next-more n it h = ground (arith, batch_end_full n it h)

after-HasBatches : (n : ℕ) (it : RangeIterator) → HasBatches (suc n) it → HasBatches n (after it)
after-HasBatches n it h = omega (arith, batch_end_full n it h)

batch_end_last : (it : RangeIterator) → HasBatches zero it → batch_end it ≡ it.end
batch_end_last it h = omega arith

-- After the last batch `current` may have wrapped; it is not read again.
next-last :
    (it : RangeIterator)
    → HasBatches zero it
    → (rest : RangeIterator) × (next_forward it
        ≡ some (record { start = it.current; end = it.end }, rest))
unfolding next_forward
next-last it h = (
  record it { current = add_u64 (batch_end it) 1; batch_count = add_u64 it.batch_count 1 },
  ground (arith, batch_end_last it h),
)

collect_last :
    (it : RangeIterator)
    → HasBatches zero it
    → collect_from next_forward 1 it ≡ record { start = it.current; end = it.end } ∷ []
unfolding collect_from
collect_last it h = let (rest, e) = next-last it h in collect_from-cons next_forward 0 it e

collect-TilesUp :
    (n : ℕ) (it : RangeIterator)
    → HasBatches n it
    → TilesUp it.range_size it.current (it.end + 1) (collect_from next_forward (suc n) it)
      × (length (collect_from next_forward (suc n) it) ≡ suc n)
collect-TilesUp zero it h = rw (collect_last it h) (omega arith)
collect-TilesUp (suc n) it h =
    let ih = collect-TilesUp n (after it) (after-HasBatches n it h) in
    rw (collect_from-cons next_forward (suc n) it (next-more n it h)) (
      (
        refl,
        omega arith,
        omega (arith, batch_end_full n it h),
        omega (arith, batch_end_full n it h),
        ih.0,
      ),
      ap suc ih.1,
    )

-- The batches that `forward` and `reset_to` count.
batches_of :
    (it : RangeIterator)
    → it.current ≤ it.end
    → 1 ≤ it.range_size
    → IsU64 it.end
    → IsU64 it.total_batches
    → it.total_batches ≡ it.batch_count + (it.end - it.current) / it.range_size + 1
    → HasBatches ((it.end - it.current) / it.range_size) it
batches_of it a b c d e = record {
  left = omega (arith, e);
  total_fits = d;
  end_fits = c;
  started = a;
  sized = b;
  full = div-mul-le_self (it.end - it.current) it.range_size;
  last = omega (arith, lt-div-mul-add {a = it.end - it.current} {b = it.range_size} b);
}

collect_forward-HasBatches :
    (n : ℕ) (it : RangeIterator)
    → HasBatches n it
    → TilesUp it.range_size it.current (it.end + 1) (collect_forward it)
      × (length (collect_forward it) ≡ suc n)
unfolding collect_forward
collect_forward-HasBatches n it h =
    let e : it.total_batches - it.batch_count ≡ suc n = omega (arith, h.left) in
    rw e (collect-TilesUp n it h)

-- An iterator whose count is right yields the ranges from its position to its end, and none if it
-- stands past the end.
pub collect_forward-TilesUp :
    (it : RangeIterator)
    → 1 ≤ it.range_size
    → IsU64 it.end
    → IsU64 it.total_batches
    → it.total_batches
      ≡ it.batch_count
        + (if ltb it.end it.current then 0 else (it.end - it.current) / it.range_size + 1)
    → TilesUp it.range_size it.current (max it.current (it.end + 1)) (collect_forward it)
      × (length (collect_forward it)
          ≡ (if ltb it.end it.current then 0 else (it.end - it.current) / it.range_size + 1))
unfolding collect_forward
collect_forward-TilesUp it sized fits total_fits count = elim (Bool-cases (ltb it.end it.current)) [
  | inl past ↦
      let none_left : it.total_batches - it.batch_count ≡ 0 = ground (arith, count, past) in
      let e : max it.current (it.end + 1) ≡ it.current = ground (arith, past) in
      rw (past, e, none_left, collect_from) (refl, refl)
  | inr more ↦
      let started : it.current ≤ it.end = ground (arith, more) in
      let e : max it.current (it.end + 1) ≡ it.end + 1 = omega arith in
      let all =
        collect_forward-HasBatches ((it.end - it.current) / it.range_size) it
          (batches_of it started sized fits total_fits (ground (arith, count, more))) in
      rw (more, e) (all.0, omega (arith, all.1))
]

pub forward_fields :
    (start end size : ℕ) {it : RangeIterator}
    → forward start end size ≡ some it
    → IsU64 ((end - start) / size + 1)
    → (it.current ≡ start)
      × (it.end ≡ end)
      × (it.range_size ≡ size)
      × (it.batch_count ≡ 0)
      × (it.total_batches ≡ (if ltb end start then 0 else (end - start) / size + 1))
      × (1 ≤ size)
unfolding forward
forward_fields start end size e u = ground arith

-- The forward iterator from `start` to `end` yields consecutive ranges of at most
-- `max_block_range` blocks, from `start` to `end` and no further (none if `start` is past `end`),
-- as many as the quotient says, whenever their number fits a `u64`.
pub forward-TilesUp :
    (start end size : ℕ) {it : RangeIterator}
    → forward start end size ≡ some it
    → IsU64 end
    → IsU64 ((end - start) / size + 1)
    → TilesUp size start (max start (end + 1)) (collect_forward it)
      × (length (collect_forward it) ≡ (if ltb end start then 0 else (end - start) / size + 1))
forward-TilesUp start end size {it} e u v =
    let f = forward_fields start end size e v in
    rw (← f.2, ← f.0, ← f.1)
      (collect_forward-TilesUp it (omega (arith, f.5, f.2)) (omega (arith, u, f.1))
        (ground (arith, f.4, v)) (rw (f.0, f.1, f.2, f.3, f.4) (omega arith)))

-- After `reset_to(block)` the iterator yields consecutive ranges from `block` to its unchanged end,
-- or none if `block` is past the end, however many batches it had yielded before, as long as the
-- batch count still fits a `u64`.
pub reset_to-TilesUp :
    (block : ℕ) (it : RangeIterator)
    → 1 ≤ it.range_size
    → IsU64 it.end
    → IsU64 (it.batch_count + ((it.end - block) / it.range_size + 1))
    → TilesUp it.range_size block (max block (it.end + 1)) (collect_forward (reset_to block it))
unfolding reset_to
reset_to-TilesUp block it sized fits total_fits =
    (collect_forward-TilesUp (reset_to block it) sized fits (ground arith) (ground arith)).0

-- The blocks of the ranges that the forward iterator yields are `start`, `start + 1`, … , `end`:
-- each once, and in ascending order.
pub forward-blocks :
    (start end size : ℕ) {it : RangeIterator}
    → forward start end size ≡ some it
    → start ≤ end
    → IsU64 end
    → IsU64 ((end - start) / size + 1)
    → blocks (collect_forward it) ≡ interval start (end + 1 - start)
forward-blocks start end size {it} e h u v =
    let upto : max start (end + 1) ≡ end + 1 = omega arith in
    let tiles = (forward-TilesUp start end size e u v).0 in
    blocks-TilesUp size start (end + 1) (collect_forward it) (rw upto at tiles)
