-- ===== src/Tests/Ranges.antt =====
-- The range iterator and the ring buffer.
use event_scanner.Prelude.{ℕ, ◌≡◌, refl, some, List, [], ◌∷◌, arith, length}
use event_scanner.RangeIterator.{
  BlockRange, RangeIterator, forward, reverse, reset_to, collect_forward, collect_reverse,
}
use event_scanner.RangeIterator.Tiling.{TilesUp, TilesDown, blocks, interval}
use event_scanner.RangeIterator.Forward.{forward-TilesUp, forward-blocks, reset_to-TilesUp}
use event_scanner.RangeIterator.Reverse.{reverse-TilesDown}
use event_scanner.RangeIterator.Directions.{directions_agree}
use event_scanner.Prelude.{reverse as backwards}
use event_scanner.RingBuffer
use event_scanner.RingBuffer.{limited}
use event_scanner.RingBuffer.Recall.{pop_all, pop_all-push_all}
use event_scanner.RingBuffer.Retention.{push_all, newest, push_all_retains}

abbrev iter : RangeIterator
iter = record { current = 100; end = 250; range_size = 50; batch_count = 0; total_batches = 4 }

abbrev down : RangeIterator
down = record { current = 250; end = 100; range_size = 50; batch_count = 0; total_batches = 4 }

abbrev range : ℕ → ℕ → BlockRange
range a b = record { start = a; end = b }

forward_basic :
    collect_forward iter ≡ range 100 149 ∷ range 150 199 ∷ range 200 249 ∷ range 250 250 ∷ []
unfolding collect_forward
forward_basic = refl

reverse_basic :
    collect_reverse down ≡ range 201 250 ∷ range 151 200 ∷ range 101 150 ∷ range 100 100 ∷ []
unfolding collect_reverse
reverse_basic = refl

forward_made : forward 100 250 50 ≡ some iter
unfolding forward
forward_made = refl

reverse_made : reverse 250 100 50 ≡ some down
unfolding reverse
reverse_made = refl

forward-TilesUp_example :
    TilesUp 50 100 251 (collect_forward iter) × (length (collect_forward iter) ≡ 4)
forward-TilesUp_example = forward-TilesUp 100 250 50 forward_made (omega arith) (omega arith)

forward-blocks_example : blocks (collect_forward iter) ≡ interval 100 151
forward-blocks_example =
    forward-blocks 100 250 50 forward_made (omega arith) (omega arith) (omega arith)

reset_to-TilesUp_example : TilesUp 50 220 251 (collect_forward (reset_to 220 iter))
reset_to-TilesUp_example = reset_to-TilesUp 220 iter (omega arith) (omega arith) (omega arith)

reverse-TilesDown_example :
    TilesDown 50 251 100 (collect_reverse down) × (length (collect_reverse down) ≡ 4)
reverse-TilesDown_example = reverse-TilesDown 250 100 50 reverse_made (omega arith) (omega arith)

abbrev items : List ℕ
items = 1 ∷ 2 ∷ 3 ∷ 4 ∷ []

retained : (push_all items (RingBuffer.new (limited 2))).inner ≡ 3 ∷ 4 ∷ []
unfolding push_all RingBuffer.new RingBuffer.push
retained = refl

push_all_retains_example :
    (push_all items (RingBuffer.new (limited 2))).inner ≡ newest (limited 2) items
push_all_retains_example = push_all_retains (limited 2) items

directions_agree_example : blocks (backwards (collect_reverse down)) ≡ blocks (collect_forward iter)
directions_agree_example =
    directions_agree 100 250 50 (omega arith) (omega arith) (omega arith) forward_made reverse_made

pop_all-push_all_example :
    pop_all 4 (push_all items (RingBuffer.new (limited 2)))
    ≡ (backwards (newest (limited 2) items), RingBuffer.new (limited 2))
pop_all-push_all_example = pop_all-push_all (limited 2) items 4 (omega arith)
