-- ===== src/Tests/Messages.antt =====
-- Comparisons of stream items, on logs whose content is their data.
use event_scanner.Prelude.{ℕ, ◌≡◌, ◌↔◌, refl, true, List, [], ◌∷◌, map, some, ◌==◌, ==_iff}
use event_scanner.Types.{
  err, ScannerError, Notification, data_of, notification, from_error, ScannerMessage,
}
use event_scanner.BlockRangeHandler.{Log}
use event_scanner.Messages.{message_eq, result_eq, message_eq_events, discriminant}
use event_scanner.Messages.Comparisons.{without_fields, comparisons_decide}

abbrev content : Log → ℕ
content log = log.content

abbrev two_logs : ScannerMessage (List Log)
two_logs = data_of (
    record { block_number = some 1; content = 5 }
    ∷ record { block_number = some 2; content = 6 }
    ∷ [])

-- An error is compared by its kind, a reorg by its block too.
kind_only : result_eq (from_error {T = ℕ} (ScannerError.lagged 3)) (ScannerError.lagged 8) ≡ true
unfolding result_eq discriminant
kind_only = refl

comparisons_decide_example :
    ((message_eq two_logs (Notification.reorg_detected 7) ≡ true)
      ↔ (two_logs ≡ notification (Notification.reorg_detected 7)))
    × ((result_eq (from_error {T = List Log} (ScannerError.lagged 3)) (ScannerError.lagged 8)
          ≡ true)
        ↔ ((e : ScannerError) × (from_error {T = List Log} (ScannerError.lagged 3) ≡ err e)
            × (without_fields e ≡ without_fields (ScannerError.lagged 8))))
    × ((message_eq_events (λ x y. x == y) content (λ x. x) two_logs (5 ∷ 6 ∷ []) ≡ true) ↔ (
        (logs : List Log) × (two_logs ≡ data_of logs)
        × (map content logs ≡ map (λ x. x) (5 ∷ 6 ∷ []))))
comparisons_decide_example =
    comparisons_decide (λ x y. x == y) content (λ x. x) two_logs
      (from_error (ScannerError.lagged 3)) (Notification.reorg_detected 7) (ScannerError.lagged 8)
      (5 ∷ 6 ∷ []) ==_iff
