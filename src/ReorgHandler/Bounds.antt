-- ===== src/ReorgHandler/Bounds.antt =====
-- The store of past hashes stays within its capacity.
use event_scanner.Prelude.{
  ℕ, zero, suc, ◌≤◌, ◌≡◌, refl, Bool-cases, some, List, [], ◌∷◌, length, ◌==◌, arith, length-append,
  inl, inr, Option-cases,
}
use event_scanner.Types.{Result, ProviderError, ok, err}
use event_scanner.Env.{Env, Block, BlockNumberOrTag}
use event_scanner.RingBuffer.{
  RingBufferCapacity, limited, infinite, RingBuffer, push, push_within, pop_front, pop_back, init,
  last?, clear,
}
use event_scanner.RingBuffer
use event_scanner.ReorgHandler.{
  DefaultReorgHandler, new, remember, forget_newest, forget_all, reorg_detected,
  return_common_ancestor, fall_back, find_common_ancestor, check,
}

-- As many items as a capacity lets stand.
abbrev pub Fits : {T : Type 0} → RingBufferCapacity → List T → Type 0
Fits infinite items = Unit
Fits (limited n) items = length items ≤ n

module _ {T : Type 0} where
  length-pop_front : (x : T) (xs : List T) → length (pop_front (x ∷ xs)) ≡ length xs
  length-pop_front x xs = refl

  length-init : (xs : List T) → length (init xs) ≤ length xs
  length-init [] = omega arith
  length-init (x ∷ []) = omega arith
  length-init (x ∷ y ∷ xs) = omega (arith, length-init (y ∷ xs))

  push_within-Fits :
      (c : RingBufferCapacity) (x : T) (xs : List T) → Fits c xs → Fits c (push_within c x xs)
  push_within-Fits infinite x xs h = tt
  push_within-Fits (limited zero) x xs h = h
  push_within-Fits (limited (suc n)) x [] h = ground arith
  push_within-Fits (limited (suc n)) x (y ∷ ys) h =
      let shifted = length-append ys (x ∷ []) in
      let longer = length-append (y ∷ ys) (x ∷ []) in
      elim (Bool-cases (length (y ∷ ys) == suc n)) [
        | inl full ↦ rw full (ground (arith, shifted, h))
        | inr room ↦ rw room (ground (arith, longer, room, h))
      ]

  init-Fits : (c : RingBufferCapacity) (xs : List T) → Fits c xs → Fits c (init xs)
  init-Fits infinite xs h = tt
  init-Fits (limited n) xs h = omega (arith, length-init xs, h)

nil-Fits : (T : Type 0) (c : RingBufferCapacity) → Fits {T = T} c []
nil-Fits T infinite = tt
nil-Fits T (limited n) = omega arith

-- The handler has the capacity that it was made with, and no more hashes than that.
abbrev pub Holds : RingBufferCapacity → DefaultReorgHandler → Type 0
Holds c h = (h.buffer.capacity ≡ c) × Fits c h.buffer.inner

module _ (c : RingBufferCapacity) where
  pushed-Holds :
      (item : ℕ × ℕ) (h : DefaultReorgHandler)
      → Holds c h
      → Holds c (record h { buffer = push item h.buffer })
  unfolding push
  pushed-Holds item h (e, fits) = (e, rw e (push_within-Fits c item h.buffer.inner fits))

  remember-Holds :
      (block : Block) (h : DefaultReorgHandler) → Holds c h → Holds c (remember block h)
  unfolding remember
  remember-Holds block h holds = elim (Option-cases (RingBuffer.back h.buffer)) [
    | inl empty ↦ rw (remember, empty) (pushed-Holds (block.number, block.hash) h holds)
    | inr ((number, hash), newest) ↦ elim (Bool-cases (hash == block.hash)) [
      | inl same ↦ rw (remember, newest, same) holds
      | inr other ↦ rw (remember, newest, other) (pushed-Holds (block.number, block.hash) h holds)
    ]
  ]

  forget_newest-Holds : (h : DefaultReorgHandler) → Holds c h → Holds c (forget_newest h)
  unfolding forget_newest pop_back
  forget_newest-Holds h (e, fits) = (e, init-Fits c h.buffer.inner fits)

  forget_all-Holds : (h : DefaultReorgHandler) → Holds c h → Holds c (forget_all h)
  unfolding forget_all clear
  forget_all-Holds h (e, fits) = (e, nil-Fits (ℕ × ℕ) c)

  module _ {W : Type 0} (env : Env W) where
    fall_back-Holds :
        (h : DefaultReorgHandler) (w : W) → Holds c h → Holds c (fall_back env h w).0.1
    unfolding fall_back
    fall_back-Holds h w holds = ground arith

    return-Holds :
        (block : Block) (h : DefaultReorgHandler) (w : W)
        → Holds c h
        → Holds c (return_common_ancestor env block h w).0.1
    unfolding return_common_ancestor
    return-Holds block h w holds = let cleared = forget_all-Holds h holds in ground arith

    -- One turn of the loop, once the provider has answered.
    turn-Holds :
        (n number hash : ℕ) (h : DefaultReorgHandler) (w : W) (answer : Result ProviderError Block)
        → RingBuffer.back h.buffer ≡ some (number, hash)
        → (env.get_block_by_number (BlockNumberOrTag.number number) w).0 ≡ answer
        → Holds c h
        → ((w' : W) → Holds c (find_common_ancestor env n (forget_newest h) w').0.1)
        → Holds c (find_common_ancestor env (suc n) h w).0.1
    unfolding find_common_ancestor
    turn-Holds n number hash h w (ok block) newest e holds later =
        elim (Bool-cases (block.hash == hash)) [
          | inl same ↦ rw (find_common_ancestor, newest, e, same) (return-Holds block h _ holds)
          | inr other ↦ rw (find_common_ancestor, newest, e, other) (later _)
        ]
    turn-Holds n number hash h w (err ProviderError.block_not_found) newest e holds later =
        rw (find_common_ancestor, newest, e) (later _)
    turn-Holds n number hash h w (err ProviderError.timeout) newest e holds later =
        rw (find_common_ancestor, newest, e) holds
    turn-Holds n number hash h w (err ProviderError.closed) newest e holds later =
        rw (find_common_ancestor, newest, e) holds
    turn-Holds n number hash h w (err (ProviderError.rpc_error x)) newest e holds later =
        rw (find_common_ancestor, newest, e) holds
    turn-Holds n number hash h w (err (ProviderError.lagged x)) newest e holds later =
        rw (find_common_ancestor, newest, e) holds

    find-Holds :
        (n : ℕ) (h : DefaultReorgHandler) (w : W)
        → Holds c h
        → Holds c (find_common_ancestor env n h w).0.1
    unfolding find_common_ancestor
    find-Holds zero h w holds = fall_back-Holds h w holds
    find-Holds (suc n) h w holds = elim (Option-cases (RingBuffer.back h.buffer)) [
      | inl empty ↦ rw (empty, find_common_ancestor) (fall_back-Holds h w holds)
      | inr ((number, hash), newest) ↦
          turn-Holds n number hash h w _ newest refl holds
            (λ w'. find-Holds n (forget_newest h) w' (forget_newest-Holds h holds))
    ]

    check-Holds :
        (h : DefaultReorgHandler) (block : Block) (w : W)
        → Holds c h
        → Holds c (check env h block w).0.1
    unfolding check
    check-Holds h block w holds =
        let found = find-Holds (length h.buffer.inner) h (reorg_detected env block w).1 holds in
        let remembered = remember-Holds block h holds in ground arith

-- Checks in turn.
unfoldable pub check_each :
    {W : Type 0} → Env W → List Block → DefaultReorgHandler → W → DefaultReorgHandler × W
unfolding check
check_each env [] h w = (h, w)
check_each env (block ∷ blocks) h w =
    let ((_, h'), w') = check env h block w in check_each env blocks h' w'

-- Whatever the provider answers, a handler that was made with a capacity still has it after any
-- checks, and remembers no more hashes than it: the limit at most (none for 0), if there is one.
pub check_each-Holds :
    {W : Type 0} (env : Env W) (c : RingBufferCapacity) (blocks : List Block) (w : W)
    → Holds c (check_each env blocks (new c) w).0
unfolding check_each new RingBuffer.new
check_each-Holds env c blocks w = go blocks (new c) w (refl, nil-Fits (ℕ × ℕ) c)
  where
    go :
        (blocks : List Block) (h : DefaultReorgHandler) (w : _)
        → Holds c h
        → Holds c (check_each env blocks h w).0
    go [] h w holds = holds
    go (block ∷ blocks) h w holds = go blocks _ _ (check-Holds c env h block w holds)
