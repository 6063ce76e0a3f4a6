-- ===== src/RangeIterator/Tiling.antt =====
-- Ranges that cut an interval of blocks into consecutive pieces: the reference for what the range
-- iterators, and the handlers that stream their ranges, emit.
use event_scanner.Prelude.{
  ℕ, zero, suc, ◌+◌, ◌-◌, ◌≤◌, ◌<◌, ◌≡◌, sym, ap, ◌∙◌, Option, some, List, [], ◌∷◌, ◌++◌, arith,
}
use event_scanner.RangeIterator.{BlockRange, RangeIterator, collect_from}

-- One turn of a `for` loop over an iterator.
pub collect_from-cons :
    (next : RangeIterator → Option (BlockRange × RangeIterator)) (n : ℕ) (it : RangeIterator)
    {r : BlockRange} {rest : RangeIterator}
    → next it ≡ some (r, rest)
    → collect_from next (suc n) it ≡ r ∷ collect_from next n rest
unfolding collect_from
collect_from-cons next n it e = rw (e, collect_from)

-- The ranges go up from block `from` to just below `upto`, each at most `size` blocks long.
abbrev pub TilesUp : ℕ → ℕ → ℕ → List BlockRange → Type 0
TilesUp size from upto [] = from ≡ upto
TilesUp size from upto (r ∷ rs) =
    (r.start ≡ from)
    × (r.start ≤ r.end)
    × (r.end < r.start + size)
    × (r.end < upto)
    × TilesUp size (r.end + 1) upto rs

-- The ranges go down from just below `upto` to block `to`; each is still written low to high.
abbrev pub TilesDown : ℕ → ℕ → ℕ → List BlockRange → Type 0
TilesDown size upto to [] = upto ≡ to
TilesDown size upto to (r ∷ rs) =
    (r.end + 1 ≡ upto)
    × (r.start ≤ r.end)
    × (r.end < r.start + size)
    × (to ≤ r.start)
    × TilesDown size r.start to rs

pub TilesUp-le :
    (size from upto : ℕ) (rs : List BlockRange) → TilesUp size from upto rs → from ≤ upto
TilesUp-le size from upto [] h = omega arith
TilesUp-le size from upto (r ∷ rs) h = omega (arith, TilesUp-le size (r.end + 1) upto rs h.4)

-- Two tilings that meet make one.
pub TilesUp-append :
    (size from mid upto : ℕ) (xs ys : List BlockRange)
    → TilesUp size from mid xs
    → TilesUp size mid upto ys
    → TilesUp size from upto (xs ++ ys)
TilesUp-append size from mid upto [] ys h k = subst_from (sym h) k
  where
    subst_from : {a b : ℕ} → a ≡ b → TilesUp size a upto ys → TilesUp size b upto ys
    subst_from e t = rw (← e) t
TilesUp-append size from mid upto (x ∷ xs) ys h k = (
  h.0,
  h.1,
  h.2,
  omega (arith, TilesUp-le size mid upto ys k),
  TilesUp-append size (x.end + 1) mid upto xs ys h.4 k,
)

-- The blocks `from`, `from + 1`, … , `n` of them.
unfoldable pub interval : ℕ → ℕ → List ℕ
interval from zero = []
interval from (suc n) = from ∷ interval (from + 1) n

-- The blocks of the ranges, in the order in which they are streamed.
unfoldable pub blocks : List BlockRange → List ℕ
unfolding interval
blocks [] = []
blocks (r ∷ rs) = interval r.start (r.end + 1 - r.start) ++ blocks rs

pub interval-append : (a m n : ℕ) → interval a m ++ interval (a + m) n ≡ interval a (m + n)
unfolding interval
interval-append a zero n =
    ap (λ (k : ℕ). interval k n) (omega arith) ∙ ap (λ (k : ℕ). interval a k) (omega arith)
interval-append a (suc m) n =
    ap (λ (l : List ℕ). a ∷ l)
      (ap (λ (k : ℕ). interval (a + 1) m ++ interval k n) (omega arith)
        ∙ interval-append (a + 1) m n)
    ∙ ap (λ (k : ℕ). interval a k) (let e : suc (m + n) ≡ suc m + n = omega arith in e)

-- A tiling names every block of its interval once, in ascending order.
pub blocks-TilesUp :
    (size from upto : ℕ) (rs : List BlockRange)
    → TilesUp size from upto rs
    → blocks rs ≡ interval from (upto - from)
unfolding blocks interval
blocks-TilesUp size from upto [] h =
    ap (λ (k : ℕ). interval from k) (let e : zero ≡ upto - from = omega arith in e)
blocks-TilesUp size from upto (r ∷ rs) h =
    ap (λ (l : List ℕ). interval r.start (r.end + 1 - r.start) ++ l)
      (blocks-TilesUp size (r.end + 1) upto rs h.4
        ∙ ap (λ (k : ℕ). interval k (upto - (r.end + 1))) (omega arith))
    ∙ interval-append r.start (r.end + 1 - r.start) (upto - (r.end + 1))
    ∙ ap (λ (k : ℕ). interval k (r.end + 1 - r.start + (upto - (r.end + 1)))) h.0
    ∙ ap (λ (k : ℕ). interval from k) (omega (arith, TilesUp-le size (r.end + 1) upto rs h.4))
