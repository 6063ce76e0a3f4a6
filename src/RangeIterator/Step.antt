-- ===== src/RangeIterator/Step.antt =====
-- One turn of the forward iterator, for loops that reset it while they run. Block numbers and the
-- number of turns stay below 2^63, so that no `u64` wraps.
use native.Mathlib.Nat.{div-eq-sub-div, div-eq_of_lt, div-le_self}
use native.Mathlib.Decide.{dec_lt}
use event_scanner.Prelude.{
  ℕ, suc, ◌+◌, ◌-◌, ◌/◌, ◌^◌, ◌≤◌, ◌<◌, ◌≡◌, refl, none, some, arith, ltb, if◌then◌else◌, add_u64,
}
use event_scanner.RangeIterator.{RangeIterator, forward, reset_to, next_forward, batch_end}

abbrev pub block_limit : ℕ
block_limit = 2 ^ 63 - 1

-- The number of ranges that are left from `current`.
abbrev pub batches_left : RangeIterator → ℕ
batches_left it = if ltb it.end it.current then 0 else (it.end - it.current) / it.range_size + 1

-- `turns` is how often the loop may still turn.
pub record IsReady (turns : ℕ) (it : RangeIterator) : Type 0 where
  pub sized : 1 ≤ it.range_size
  pub end_small : it.end < block_limit
  pub turns_left : it.batch_count + turns ≤ 2 ^ 63
  pub count : it.total_batches ≡ it.batch_count + batches_left it

unfoldable pub after : RangeIterator → RangeIterator
after it = record it { current = add_u64 (batch_end it) 1; batch_count = add_u64 it.batch_count 1 }

module _ (turns : ℕ) (it : RangeIterator) (ready : IsReady (suc turns) it) where
  pub next-past : it.end < it.current → next_forward it ≡ none
  unfolding next_forward
  next-past h = ground (arith, ready.count)

  div-bound : (it.end - it.current) / it.range_size ≤ it.end
  div-bound = omega (arith, ready.sized)

  pub next-some :
      it.current ≤ it.end
      → next_forward it ≡ some (record { start = it.current; end = batch_end it }, after it)
  unfolding next_forward after
  next-some h = ground (arith, ready.count)

  pub batch_bounds :
      it.current ≤ it.end
      → (it.current ≤ batch_end it)
        × (batch_end it < it.current + it.range_size)
        × (batch_end it ≤ it.end)
        × ((after it).current ≡ batch_end it + 1)
        × ((after it).batch_count ≡ it.batch_count + 1)
  unfolding after
  batch_bounds h = omega (arith, ready.sized, ready.end_small, ready.turns_left)

  batches_left-more :
      it.current + it.range_size ≤ it.end
      → (it.end - it.current) / it.range_size
        ≡ (it.end - (it.current + it.range_size)) / it.range_size + 1
  batches_left-more h =
      let e : it.end - it.current - it.range_size ≡ it.end - (it.current + it.range_size) =
        omega arith in
      rw (← e)
        (div-eq-sub-div {m = it.range_size} {n = it.end - it.current} ready.sized (omega arith))

  batches_left-last :
      it.current ≤ it.end
      → it.end < it.current + it.range_size
      → (it.end - it.current) / it.range_size ≡ 0
  batches_left-last h k = div-eq_of_lt {n = it.end - it.current} {m = it.range_size} (omega arith)

  after-count :
      it.current ≤ it.end
      → (after it).total_batches ≡ (after it).batch_count + batches_left (after it)
  unfolding after
  after-count h = elim (dec_lt it.end (it.current + it.range_size)) [
    | yes last ↦
        let e = batches_left-last h last in
        let b = batch_bounds h in ground (arith, ready.count, e, b.3, b.4)
    | no more ↦
        let e = batches_left-more (omega arith) in
        let c : (after it).current ≡ it.current + it.range_size =
          omega (arith, batch_bounds h, ready.end_small) in
        rw c (ground (arith, ready.count, e, (batch_bounds h).4))
  ]

  pub after-IsReady : it.current ≤ it.end → IsReady turns (after it)
  unfolding after
  after-IsReady h = record {
    sized = ready.sized;
    end_small = ready.end_small;
    turns_left = omega (arith, batch_bounds h, ready.turns_left);
    count = after-count h;
  }

pub reset_to-IsReady :
    (turns block : ℕ) (it : RangeIterator) → IsReady turns it → IsReady turns (reset_to block it)
unfolding reset_to
reset_to-IsReady turns block it ready = record {
  sized = ready.sized;
  end_small = ready.end_small;
  turns_left = ready.turns_left;
  count =
      let few : (it.end - block) / it.range_size ≤ it.end - block =
        div-le_self (it.end - block) it.range_size in
      ground (arith, few, ready.end_small, ready.turns_left);
}

pub forward-IsReady :
    (turns start end size : ℕ)
    → 1 ≤ size
    → end < block_limit
    → turns ≤ 2 ^ 63
    → (it : RangeIterator) × (forward start end size ≡ some it)
      × IsReady turns it
      × (it.current ≡ start)
      × (it.end ≡ end)
      × (it.range_size ≡ size)
unfolding forward
forward-IsReady turns start end size a b c = (
  record {
    current = start;
    end = end;
    range_size = size;
    batch_count = 0;
    total_batches = if ltb end start then 0 else add_u64 ((end - start) / size) 1;
  },
  ground arith,
  record {
    sized = a;
    end_small = b;
    turns_left = omega arith;
    count = ground (arith, div-le_self (end - start) size);
  },
  refl,
  refl,
  refl,
)
