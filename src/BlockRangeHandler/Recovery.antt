-- ===== src/BlockRangeHandler/Recovery.antt =====
-- A reorg while the latest logs are collected.
use event_scanner.Prelude.{
  ℕ, ◌≤◌, ◌<◌, ◌≡◌, refl, sym, ap, false, some, List, [], ◌∷◌, ◌++◌, reverse, length, take, leb,
  ltb, if◌then◌else◌, length-take, take-all, arith, inl, inr, Bool-cases,
}
use event_scanner.Types.{Result, ok, ProviderError, Notification, from_data, from_notification}
use event_scanner.Env.{Env, Call}
use event_scanner.Task.{pure, call, or_panic, ◌>>=◌}
use event_scanner.RangeIterator.{BlockRange}
use event_scanner.RangeStream.{Item}
use event_scanner.BlockRangeHandler.{
  Log, Collection, is_orphaned, discard_logs_from_orphaned_blocks, last_block_number,
  still_recovering, get_logs, collect_latest,
}
use event_scanner.BlockRangeHandler.Collect.{collect_logs-prepended}

-- The block numbers do not increase, from `bound` on.
abbrev pub IsNewestFirst : ℕ → List Log → Type 0
IsNewestFirst bound [] = Unit
IsNewestFirst bound (log ∷ logs) =
    (n : ℕ) × (log.block_number ≡ some n) × (n ≤ bound) × IsNewestFirst n logs

-- The logs that are not above the ancestor, wherever they stand.
abbrev pub canonical_logs : ℕ → List Log → List Log
canonical_logs a [] = []
canonical_logs a (log ∷ logs) =
    if is_orphaned a log then canonical_logs a logs else log ∷ canonical_logs a logs

is_orphaned-numbered :
    (a n : ℕ) (log : Log) → log.block_number ≡ some n → is_orphaned a log ≡ ltb a n
unfolding is_orphaned
is_orphaned-numbered a n log at = rw at refl

all_canonical :
    (a bound : ℕ) (logs : List Log)
    → IsNewestFirst bound logs
    → bound ≤ a
    → canonical_logs a logs ≡ logs
all_canonical a bound [] h below = refl
all_canonical a bound (log ∷ logs) (n, at, le, rest) below =
    let low : ltb a n ≡ false = ground (arith, le, below) in
    rw (is_orphaned-numbered a n log at, low)
      (ap (λ l. log ∷ l) (all_canonical a n logs rest (omega (arith, le, below))))

-- `skip_while` drops all the orphaned logs of a buffer that is ordered newest first.
pub discard-newest_first :
    (a bound : ℕ) (logs : List Log)
    → IsNewestFirst bound logs
    → discard_logs_from_orphaned_blocks logs a ≡ canonical_logs a logs
unfolding discard_logs_from_orphaned_blocks
discard-newest_first a bound [] h = refl
discard-newest_first a bound (log ∷ logs) (n, at, le, rest) = elim (Bool-cases (ltb a n)) [
  | inl high ↦ rw (is_orphaned-numbered a n log at, high) (discard-newest_first a n logs rest)
  | inr low ↦
      let others = all_canonical a n logs rest (ground (arith, low)) in
      rw (is_orphaned-numbered a n log at, low) (ap (λ l. log ∷ l) (sym others))
]

-- While the latest logs are collected, newest first, a reorg drops the logs above the common
-- ancestor, and the logs of the first rescanned range, whose last block is above the ancestor, go
-- before those that are left. If these reach the count the collection ends with the newest of them,
-- whatever ranges follow; otherwise it goes on with all of them.
pub collect_latest_recovers :
    {W : Type 0} (env : Env W) (source : BlockRange → Call W (Result ProviderError (List Log)))
    (count a last bound : ℕ) (range : BlockRange) (log : Log) (logs : List Log) (rest : List Item)
    (s : Collection) (w : W)
    → (source range w).0 ≡ ok (log ∷ logs)
    → last_block_number (log ∷ logs) ≡ some last
    → a < last
    → IsNewestFirst bound s.collected
    → let merged = reverse (log ∷ logs) ++ canonical_logs a s.collected in
      collect_latest env source count
        (from_notification (Notification.reorg_detected a) ∷ from_data range ∷ rest)
        s
        w
      ≡ (if leb count (length merged)
            then pure (some (take count merged))
            else collect_latest env source count rest
                (record { collected = merged; reorg_ancestor = some a }))
          ((source range w).1)
unfolding collect_latest get_logs pure call or_panic ◌>>=◌ still_recovering
collect_latest_recovers env source count a last bound range log logs rest s w fetched numbered above
      ordered =
    let merged : List Log = reverse (log ∷ logs) ++ canonical_logs a s.collected in
    let dropped = discard-newest_first a bound s.collected ordered in
    let put = collect_logs-prepended (canonical_logs a s.collected) (log ∷ logs) count in
    let high : leb last a ≡ false = ground (arith, above) in
    let taken = length-take count merged in
    let full : leb count (length (take count merged)) ≡ leb count (length merged) =
      ground (arith, taken) in
    elim (Bool-cases (leb count (length merged))) [
      | inl done ↦ rw (fetched, numbered, high, dropped, put, full, done) refl
      | inr more ↦
          let all : take count merged ≡ merged = take-all count merged (ground (arith, more)) in
          rw (fetched, numbered, high, dropped, put, full, more, all) refl
    ]
