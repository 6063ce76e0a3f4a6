-- ===== src/RingBuffer/Retention.antt =====
-- What a ring buffer retains.
use native.Mathlib.Decide.{dec_lt}
use event_scanner.Prelude.{
  ℕ, zero, suc, ◌-◌, ◌≤◌, ◌≡◌, refl, sym, ap, ◌∙◌, some, List, [], ◌∷◌, ◌++◌, length, drop, arith,
  ==_iff, length-append, length-drop, append-nil, append_assoc,
}
use event_scanner.RingBuffer.{
  RingBufferCapacity, limited, infinite, RingBuffer, new, push, push_within, pop_front, last?, init,
}

module _ {T : Type 0} where
  -- Pushes in order.
  unfoldable pub push_all : List T → RingBuffer T → RingBuffer T
  push_all [] buf = buf
  push_all (x ∷ xs) buf = push_all xs (push x buf)

  -- What a capacity lets stand of a history, oldest first: the newest `limit` items, or all.
  pub newest : RingBufferCapacity → List T → List T
  newest infinite history = history
  newest (limited limit) history = drop (length history - limit) history

  pub length-newest : (c : RingBufferCapacity) (xs : List T) → length (newest c xs) ≤ length xs
  unfolding newest
  length-newest infinite xs = omega arith
  length-newest (limited n) xs = omega (arith, length-drop (length xs - n) xs)

  drop-append_one :
      (n : ℕ) (xs : List T) (x : T)
      → n ≤ length xs
      → drop n (xs ++ (x ∷ [])) ≡ drop n xs ++ (x ∷ [])
  drop-append_one zero xs x h = refl
  drop-append_one (suc n) [] x h = absurd (omega arith)
  drop-append_one (suc n) (y ∷ xs) x h = drop-append_one n xs x (omega arith)

  pop_front-drop :
      (n : ℕ) (xs : List T) → suc n ≤ length xs → pop_front (drop n xs) ≡ drop (suc n) xs
  pop_front-drop zero [] h = refl
  pop_front-drop zero (x ∷ xs) h = refl
  pop_front-drop (suc n) [] h = refl
  pop_front-drop (suc n) (x ∷ xs) h = pop_front-drop n xs (omega arith)

  drop_all : (n : ℕ) (xs : List T) → length xs ≤ n → drop n xs ≡ []
  drop_all zero [] h = refl
  drop_all zero (x ∷ xs) h = absurd (omega arith)
  drop_all (suc n) [] h = refl
  drop_all (suc n) (x ∷ xs) h = drop_all n xs (omega arith)

  -- One push keeps the retained part of the history.
  push_within-newest :
      (c : RingBufferCapacity) (history : List T) (x : T)
      → push_within c x (newest c history) ≡ newest c (history ++ (x ∷ []))
  unfolding newest
  push_within-newest infinite history x = refl
  push_within-newest (limited zero) history x =
      drop_all (length history - 0) history (omega arith)
      ∙ sym (drop_all (length (history ++ (x ∷ [])) - 0) (history ++ (x ∷ [])) (omega arith))
  push_within-newest (limited (suc n)) history x = elim (dec_lt n (length history)) [
    | yes full ↦
        let d = length history - suc n in
        let e : length (drop d history) ≡ suc n = omega (arith, length-drop d history) in
        let e' : length (history ++ (x ∷ [])) - suc n ≡ suc d =
          omega (arith, length-append history (x ∷ [])) in
        rw ((==_iff _ _).1 e, e', pop_front-drop d history (omega arith))
          (sym (drop-append_one (suc d) history x (omega arith)))
    | no room ↦
        let e : length history - suc n ≡ 0 = omega arith in
        let e' : length (history ++ (x ∷ [])) - suc n ≡ 0 =
          omega (arith, length-append history (x ∷ [])) in
        rw (e, e') (ground arith)
  ]

  push_all-newest :
      (xs history : List T) (buf : RingBuffer T)
      → buf.inner ≡ newest buf.capacity history
      → (push_all xs buf).inner ≡ newest buf.capacity (history ++ xs)
  unfolding push_all push
  push_all-newest [] history buf e = e ∙ ap (newest buf.capacity) (sym (append-nil history))
  push_all-newest (x ∷ xs) history buf e =
      push_all-newest xs (history ++ (x ∷ [])) (push x buf)
        (ap (push_within buf.capacity x) e ∙ push_within-newest buf.capacity history x)
      ∙ ap (newest buf.capacity) (append_assoc history (x ∷ []) xs)

  newest-nil : (c : RingBufferCapacity) → newest c [] ≡ []
  unfolding newest
  newest-nil infinite = refl
  newest-nil (limited n) = drop_all (0 - n) [] (omega arith)

  -- A buffer holds, oldest first, exactly the newest items of all that were pushed since it was
  -- made: as many as its limit (none for 0), or all if it is unbounded.
  pub push_all_retains :
      (c : RingBufferCapacity) (xs : List T) → (push_all xs (new c)).inner ≡ newest c xs
  unfolding new
  push_all_retains c xs = push_all-newest xs [] (new c) (sym (newest-nil c))

  pub last?-append : (xs : List T) (x : T) → last? (xs ++ (x ∷ [])) ≡ some x
  last?-append [] x = refl
  last?-append (y ∷ []) x = refl
  last?-append (y ∷ z ∷ xs) x = last?-append (z ∷ xs) x

  pub init-append : (xs : List T) (x : T) → init (xs ++ (x ∷ [])) ≡ xs
  init-append [] x = refl
  init-append (y ∷ []) x = refl
  init-append (y ∷ z ∷ xs) x = ap (λ l. y ∷ l) (init-append (z ∷ xs) x)
