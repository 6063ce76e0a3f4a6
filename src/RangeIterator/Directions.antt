-- ===== src/RangeIterator/Directions.antt =====
-- The two directions of the range iterator.
use mathlib.Core.List.{reverse-cons}
use native.Mathlib.Nat.{div-le_self}
use event_scanner.Prelude.{
  ℕ, ◌+◌, ◌-◌, ◌≤◌, ◌<◌, ◌≡◌, refl, sym, ap, ◌∙◌, some, List, [], ◌∷◌, ◌++◌, append-nil,
  append_assoc, reverse, arith,
}
use event_scanner.RangeIterator.{
  BlockRange, RangeIterator, forward, collect_forward, collect_reverse,
}
use event_scanner.RangeIterator.{reverse as backward}
use event_scanner.RangeIterator.Tiling.{TilesDown, blocks, interval, interval-append}
use event_scanner.RangeIterator.Forward.{forward-blocks}
use event_scanner.RangeIterator.Reverse.{reverse-TilesDown}
use event_scanner.RangeIterator.Step.{block_limit}

blocks-append : (rs ss : List BlockRange) → blocks (rs ++ ss) ≡ blocks rs ++ blocks ss
unfolding blocks
blocks-append [] ss = refl
blocks-append (r ∷ rs) ss = rw (blocks-append rs ss, append_assoc) refl

-- Ranges that go down, read from the last one on, name every block once, in ascending order.
blocks-TilesDown :
    (size upto to : ℕ) (rs : List BlockRange)
    → TilesDown size upto to rs
    → blocks (reverse rs) ≡ interval to (upto - to)
unfolding blocks interval
blocks-TilesDown size upto to [] tiles =
    let none_left : upto - to ≡ 0 = omega arith in rw none_left refl
blocks-TilesDown size upto to (r ∷ rs) tiles =
    let m : ℕ = r.start - to in
    let n : ℕ = r.end + 1 - r.start in
    let lower = blocks-TilesDown size r.start to rs tiles.4 in
    let at : to + m ≡ r.start = omega (arith, tiles) in
    let all : m + n ≡ upto - to = omega (arith, tiles) in
    let joined : interval to m ++ interval r.start n ≡ interval to (upto - to) =
      rw (at, all) at (interval-append to m n) in
    ap blocks (reverse-cons r rs)
    ∙ blocks-append (reverse rs) (r ∷ [])
    ∙ (rw (lower, append-nil) joined)

-- Over the same blocks, below the limit and with the same range size of at least 1, the reverse
-- iterator's ranges, read from the last one on, name the same blocks in the same order as the forward
-- iterator's.
pub directions_agree :
    (low high size : ℕ) {up down : RangeIterator}
    → 1 ≤ size
    → low ≤ high
    → high < block_limit
    → forward low high size ≡ some up
    → backward high low size ≡ some down
    → blocks (reverse (collect_reverse down)) ≡ blocks (collect_forward up)
directions_agree low high size {up} {down} sized ordered small e e' =
    let few = div-le_self (high - low) size in
    blocks-TilesDown size (high + 1) low (collect_reverse down)
      (reverse-TilesDown high low size e' ordered (omega (arith, few, small))).0
    ∙ sym
        (forward-blocks low high size e ordered (omega (arith, small)) (omega (arith, few, small)))
