-- ===== src/RingBuffer/Recall.antt =====
-- What popping a ring buffer from its newest item on gives back.
use mathlib.Core.List.{reverse-cons, reverse-reverse}
use event_scanner.Prelude.{
  ℕ, zero, suc, ◌≤◌, ◌≡◌, refl, sym, ap, ap₂, ◌∙◌, Option, none, some, List, [], ◌∷◌, reverse,
  length, length-reverse, arith,
}
use event_scanner.RingBuffer.{RingBufferCapacity, RingBuffer, new, push, pop_back}
use event_scanner.RingBuffer.Retention.{
  push_all, newest, length-newest, push_all_retains, last?-append, init-append,
}

module _ {T : Type 0} where
  -- One item that was popped, before what is popped after it.
  abbrev pub popped : Option T → RingBuffer T → List T × RingBuffer T → List T × RingBuffer T
  popped none buf rest = ([], buf)
  popped (some x) buf (items, left) = (x ∷ items, left)

  -- Pops until the buffer is empty, at most this many items: they, and what is left.
  unfoldable pub pop_all : ℕ → RingBuffer T → List T × RingBuffer T
  unfolding pop_back
  pop_all zero buf = ([], buf)
  pop_all (suc n) buf = let (item, buf') = pop_back buf in popped item buf' (pop_all n buf')

  -- The buffer that holds these, newest first.
  abbrev holding : RingBufferCapacity → List T → RingBuffer T
  holding c xs = record { inner = reverse xs; capacity = c }

  pop_back-holding :
      (c : RingBufferCapacity) (x : T) (xs : List T)
      → pop_back (holding c (x ∷ xs)) ≡ (some x, holding c xs)
  unfolding pop_back
  pop_back-holding c x xs =
      rw (reverse-cons x xs, last?-append (reverse xs) x, init-append (reverse xs) x) refl

  pop_all-pop_back :
      (n : ℕ) (buf rest : RingBuffer T) (x : T)
      → pop_back buf ≡ (some x, rest)
      → pop_all (suc n) buf ≡ (let (items, left) = pop_all n rest in (x ∷ items, left))
  unfolding pop_all
  pop_all-pop_back n buf rest x e =
      ap (λ (p : Option T × RingBuffer T). popped p.0 p.1 (pop_all n p.1)) e

  pop_all-holding :
      (n : ℕ) (c : RingBufferCapacity) (xs : List T)
      → length xs ≤ n
      → pop_all n (holding c xs) ≡ (xs, record { inner = []; capacity = c })
  unfolding pop_all pop_back
  pop_all-holding zero c [] enough = refl
  pop_all-holding zero c (x ∷ xs) enough = absurd (omega arith)
  pop_all-holding (suc n) c [] enough = refl
  pop_all-holding (suc n) c (x ∷ xs) enough =
      let rest = pop_all-holding n c xs (omega (arith, enough)) in
      pop_all-pop_back n (holding c (x ∷ xs)) (holding c xs) x (pop_back-holding c x xs)
      ∙ ap (λ (p : List T × RingBuffer T). (x ∷ p.0, p.1)) rest

  push_all-capacity : (xs : List T) (buf : RingBuffer T) → (push_all xs buf).capacity ≡ buf.capacity
  unfolding push_all push
  push_all-capacity [] buf = refl
  push_all-capacity (x ∷ xs) buf = push_all-capacity xs (push x buf)

  -- Items that are pushed to a new buffer come back, newest first, when it is popped until it is
  -- empty: as many of the newest as the buffer's limit, or all if it is unbounded. The buffer is then
  -- as it was new.
  pub pop_all-push_all :
      (c : RingBufferCapacity) (xs : List T) (n : ℕ)
      → length xs ≤ n
      → pop_all n (push_all xs (new c)) ≡ (reverse (newest c xs), new c)
  unfolding new
  pop_all-push_all c xs n enough =
      let kept = push_all_retains c xs in
      let same : holding c (reverse (newest c xs)) ≡ push_all xs (new c) =
        ap₂ (λ i k. record { inner = i; capacity = k }) (reverse-reverse (newest c xs) ∙ sym kept)
          (sym (push_all-capacity xs (new c))) in
      rw (sym same) (
        pop_all-holding n c (reverse (newest c xs))
          (omega (arith, enough, length-newest c xs, length-reverse (newest c xs))))
