-- ===== src/BlockRangeHandler/Collect.antt =====
-- `collect_logs` keeps the newest logs, newest first.
use event_scanner.Prelude.{
  ℕ, zero, suc, ◌-◌, ◌≡◌, refl, ap, true, false, List, [], ◌∷◌, ◌++◌, append-nil, reverse, length,
  take, leb, ◌==◌, length-take, length-append, take-all, arith, inl, inr, Bool-cases,
}
use event_scanner.BlockRangeHandler.{collect_logs}

module _ {T : Type 0} where
  pub take-append :
      (n : ℕ) (xs ys : List T) → take n (xs ++ ys) ≡ take n xs ++ take (n - length xs) ys
  take-append zero xs ys = let nothing : 0 - length xs ≡ 0 = omega arith in rw nothing refl
  take-append (suc n) [] ys = let all : suc n - 0 ≡ suc n = omega arith in rw all refl
  take-append (suc n) (x ∷ xs) ys =
      let same : suc n - suc (length xs) ≡ n - length xs = omega arith in
      rw same (ap (λ zs. x ∷ zs) (take-append n xs ys))

  -- New logs before a buffer: the newest of both.
  pub collect_logs-prepended :
      (collected logs : List T) (count : ℕ)
      → collect_logs collected logs count true ≡ (
        take count (reverse logs ++ collected),
        leb count (length (take count (reverse logs ++ collected))),
      )
  unfolding collect_logs
  collect_logs-prepended collected logs count =
      let short : count - length (take count (reverse logs)) ≡ count - length (reverse logs) =
        omega (arith, length-take count (reverse logs)) in
      let merged = take-append count (reverse logs) collected in rw (short, merged) refl

  -- Older logs after a buffer that holds the newest of `xs`: the newest of both.
  pub collect_logs-appended :
      (xs logs : List T) (count : ℕ)
      → collect_logs (take count xs) logs count false
        ≡ (take count (xs ++ reverse logs), leb count (length (xs ++ reverse logs)))
  unfolding collect_logs
  collect_logs-appended xs logs count =
      let merged = take-append count xs (reverse logs) in
      let held = length-take count xs in
      let all = length-append xs (reverse logs) in
      elim (Bool-cases (leb count (length xs))) [
        | inl full ↦
            let no_room : count - length (take count xs) ≡ 0 = ground (arith, held, full) in
            let none_left : count - length xs ≡ 0 = ground (arith, full) in
            let done : leb count (length (xs ++ reverse logs)) ≡ true = ground (arith, all, full) in
            rw (no_room, merged, none_left, done, append-nil) refl
        | inr more ↦
            let kept : take count xs ≡ xs = take-all count xs (ground (arith, more)) in
            let room : ((count - length xs) == 0) ≡ false = ground (arith, more) in
            let taken = length-take (count - length xs) (reverse logs) in
            let longer = length-append xs (take (count - length xs) (reverse logs)) in
            let same : leb count (length (xs ++ take (count - length xs) (reverse logs)))
                ≡ leb count (length (xs ++ reverse logs)) =
              ground (arith, all, taken, longer, more) in
            rw (merged, kept, room, same) refl
      ]
