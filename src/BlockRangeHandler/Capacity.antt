-- ===== src/BlockRangeHandler/Capacity.antt =====
-- `collect_logs` and a reorg keep the collected logs within the count.
use event_scanner.Prelude.{
  ℕ, ◌-◌, ◌≤◌, Bool, true, false, List, [], ◌∷◌, reverse, length, take, length-append, length-take,
  ◌==◌, arith, inl, inr, Bool-cases,
}
use event_scanner.BlockRangeHandler.{
  Log, collect_logs, is_orphaned, discard_logs_from_orphaned_blocks,
}

pub collect_logs-bounded :
    {T : Type 0} (collected logs : List T) (count : ℕ) (b : Bool)
    → length collected ≤ count
    → length (collect_logs collected logs count b).0 ≤ count
unfolding collect_logs
collect_logs-bounded collected logs count true held =
    let new_logs = take count (reverse logs) in
    omega (
      arith,
      length-append new_logs (take (count - length new_logs) collected),
      length-take count (reverse logs),
      length-take (count - length new_logs) collected,
    )
collect_logs-bounded collected logs count false held =
    let room : ℕ = count - length collected in
    elim (Bool-cases (room == 0)) [
      | inl full ↦ rw full held
      | inr more ↦ rw more (
          omega (
            arith,
            held,
            length-append collected (take room (reverse logs)),
            length-take room (reverse logs),
          ))
    ]

pub discard-bounded :
    (logs : List Log) (common_ancestor : ℕ)
    → length (discard_logs_from_orphaned_blocks logs common_ancestor) ≤ length logs
unfolding discard_logs_from_orphaned_blocks
discard-bounded [] common_ancestor = omega arith
discard-bounded (log ∷ logs) common_ancestor =
    let rest = discard-bounded logs common_ancestor in
    elim (Bool-cases (is_orphaned common_ancestor log)) [
      | inl orphaned ↦ rw orphaned (omega (arith, rest))
      | inr kept ↦ rw kept (omega (arith, rest))
    ]
