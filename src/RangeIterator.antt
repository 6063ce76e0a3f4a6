-- ===== src/RangeIterator.antt =====
-- `RangeIterator` of src/block_range_scanner/range_iterator.rs: an iterator over inclusive block
-- ranges of bounded size. `Forward` and `Reverse` are the two instances of its direction
-- parameter; their operations are told apart by name.
pub mod Tiling
pub mod Forward
pub mod Directions
pub mod Reverse
pub mod Step
use event_scanner.Prelude.{
  ℕ, zero, suc, ◌+◌, ◌-◌, ◌/◌, ◌%◌, ◌^◌, min, max, Option, none, some, List, [], ◌∷◌, ltb, leb,
  if◌then◌else◌, add_u64, saturating_add, saturating_sub,
}

-- `RangeInclusive<BlockNumber>`.
pub record BlockRange : Type 0 where
  pub start : ℕ
  pub end : ℕ

pub record RangeIterator : Type 0 where
  pub current : ℕ
  pub end : ℕ
  pub range_size : ℕ
  pub batch_count : ℕ
  pub total_batches : ℕ

-- `forward(start, end, max_block_range)`; `none` is the panic of its assertion.
unfoldable pub forward : ℕ → ℕ → ℕ → Option RangeIterator
forward start end max_block_range =
    if leb 1 max_block_range
    then some (record {
      current = start;
      end = end;
      range_size = max_block_range;
      batch_count = 0;
      total_batches = if ltb end start then 0 else add_u64 ((end - start) / max_block_range) 1;
    })
    else none

unfoldable pub reset_to : ℕ → RangeIterator → RangeIterator
reset_to block it = record it {
  current = block;
  total_batches =
      if ltb it.end block
      then it.batch_count
      else add_u64 (add_u64 it.batch_count ((it.end - block) / it.range_size)) 1;
}

unfoldable pub reverse : ℕ → ℕ → ℕ → Option RangeIterator
reverse start end max_block_range =
    if leb 1 max_block_range
    then some (record {
      current = start;
      end = end;
      range_size = max_block_range;
      batch_count = 0;
      total_batches = if ltb start end then 0 else add_u64 ((start - end) / max_block_range) 1;
    })
    else none

abbrev pub batch_end : RangeIterator → ℕ
batch_end it = min (saturating_add it.current (it.range_size - 1)) it.end

-- `next` of `Iterator for RangeIterator<Forward>`, with the iterator that it leaves.
unfoldable pub next_forward : RangeIterator → Option (BlockRange × RangeIterator)
next_forward it =
    if leb it.total_batches it.batch_count
    then none
    else some (
      record { start = it.current; end = batch_end it },
      record it { current = add_u64 (batch_end it) 1; batch_count = add_u64 it.batch_count 1 },
    )

abbrev pub batch_low : RangeIterator → ℕ
batch_low it = max (saturating_sub it.current (it.range_size - 1)) it.end

-- `next` of `Iterator for RangeIterator<Reverse>`.
unfoldable pub next_reverse : RangeIterator → Option (BlockRange × RangeIterator)
next_reverse it =
    if leb it.total_batches it.batch_count
    then none
    else some (
      record { start = batch_low it; end = it.current },
      record it {
        current = saturating_sub (batch_low it) 1;
        batch_count = add_u64 it.batch_count 1;
      },
    )

-- The batches that are left: the lower bound of both `size_hint`s, on a 64-bit `usize`.
abbrev pub remaining : RangeIterator → ℕ
remaining it = it.total_batches - it.batch_count

-- What a `for` loop draws from an iterator, given how many times it may ask.
unfoldable pub collect_from :
    (RangeIterator → Option (BlockRange × RangeIterator)) → ℕ → RangeIterator → List BlockRange
collect_from next zero it = []
collect_from next (suc n) it = elim (next it) [
  | none ↦ []
  | some (range, rest) ↦ range ∷ collect_from next n rest
]

-- `for range in iter`: the ranges, in order, until `next` returns `None`.
unfoldable pub collect_forward : RangeIterator → List BlockRange
unfolding collect_from next_forward
collect_forward it = collect_from next_forward (remaining it) it

unfoldable pub collect_reverse : RangeIterator → List BlockRange
unfolding collect_from next_reverse
collect_reverse it = collect_from next_reverse (remaining it) it
