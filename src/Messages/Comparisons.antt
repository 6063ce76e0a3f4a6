-- ===== src/Messages/Comparisons.antt =====
-- What the comparisons of src/types.rs, src/error.rs and src/event_scanner/message.rs decide.
use mathlib.Core.Bool.{false≢true}
use event_scanner.Prelude.{
  ℕ, drop, ◌≡◌, ◌↔◌, refl, sym, ap, ap₂, ◌∙◌, Bool, true, List, [], ◌∷◌, map, ◌==◌, ==_iff, inl,
  inr, Bool-cases,
}
use event_scanner.Types.{
  ok, err, ScannerError, Notification, ScannerMessage, data_of, notification, ScannerResult,
}
use event_scanner.BlockRangeHandler.{Log}
use event_scanner.Messages.{
  notification_eq, discriminant, message_eq, result_eq, all_eq, message_eq_events,
}

-- The constructor alone, with its fields blanked.
abbrev pub without_fields : ScannerError → ScannerError
without_fields (ScannerError.rpc_error e) = ScannerError.rpc_error 0
without_fields ScannerError.block_not_found = ScannerError.block_not_found
without_fields ScannerError.timeout = ScannerError.timeout
without_fields (ScannerError.block_exceeds_latest what block latest) =
    ScannerError.block_exceeds_latest "" 0 0
without_fields ScannerError.invalid_event_count = ScannerError.invalid_event_count
without_fields ScannerError.invalid_max_block_range = ScannerError.invalid_max_block_range
without_fields ScannerError.invalid_buffer_capacity = ScannerError.invalid_buffer_capacity
without_fields ScannerError.invalid_max_concurrent_fetches =
    ScannerError.invalid_max_concurrent_fetches
without_fields ScannerError.subscription_closed = ScannerError.subscription_closed
without_fields (ScannerError.lagged n) = ScannerError.lagged 0

-- The constructor that a discriminant names.
of_discriminant : ℕ → ScannerError
of_discriminant n = first_of (drop n variants)
  where
    variants : List ScannerError
    variants =
        ScannerError.rpc_error 0
        ∷ ScannerError.block_not_found
        ∷ ScannerError.timeout
        ∷ ScannerError.block_exceeds_latest "" 0 0
        ∷ ScannerError.invalid_event_count
        ∷ ScannerError.invalid_max_block_range
        ∷ ScannerError.invalid_buffer_capacity
        ∷ ScannerError.invalid_max_concurrent_fetches
        ∷ ScannerError.subscription_closed
        ∷ []

    first_of : List ScannerError → ScannerError
    first_of [] = ScannerError.lagged 0
    first_of (e ∷ es) = e

of_discriminant-discriminant :
    (e : ScannerError) → of_discriminant (discriminant e) ≡ without_fields e
unfolding discriminant of_discriminant
of_discriminant-discriminant (ScannerError.rpc_error e) = refl
of_discriminant-discriminant ScannerError.block_not_found = refl
of_discriminant-discriminant ScannerError.timeout = refl
of_discriminant-discriminant (ScannerError.block_exceeds_latest what block latest) = refl
of_discriminant-discriminant ScannerError.invalid_event_count = refl
of_discriminant-discriminant ScannerError.invalid_max_block_range = refl
of_discriminant-discriminant ScannerError.invalid_buffer_capacity = refl
of_discriminant-discriminant ScannerError.invalid_max_concurrent_fetches = refl
of_discriminant-discriminant ScannerError.subscription_closed = refl
of_discriminant-discriminant (ScannerError.lagged n) = refl

discriminant-without_fields : (e : ScannerError) → discriminant (without_fields e) ≡ discriminant e
unfolding discriminant
discriminant-without_fields (ScannerError.rpc_error e) = refl
discriminant-without_fields ScannerError.block_not_found = refl
discriminant-without_fields ScannerError.timeout = refl
discriminant-without_fields (ScannerError.block_exceeds_latest what block latest) = refl
discriminant-without_fields ScannerError.invalid_event_count = refl
discriminant-without_fields ScannerError.invalid_max_block_range = refl
discriminant-without_fields ScannerError.invalid_buffer_capacity = refl
discriminant-without_fields ScannerError.invalid_max_concurrent_fetches = refl
discriminant-without_fields ScannerError.subscription_closed = refl
discriminant-without_fields (ScannerError.lagged n) = refl

same_discriminant :
    (d e : ScannerError)
    → ((discriminant d == discriminant e) ≡ true) ↔ (without_fields d ≡ without_fields e)
same_discriminant d e =
    let (to, from) = ==_iff (discriminant d) (discriminant e) in
    (
      λ same.
          sym (of_discriminant-discriminant d)
          ∙ ap of_discriminant (to same)
          ∙ of_discriminant-discriminant e,
      λ same. from (
          sym (discriminant-without_fields d)
          ∙ ap discriminant same
          ∙ discriminant-without_fields e),
    )

notification_eq_iff : (m n : Notification) → (notification_eq m n ≡ true) ↔ (m ≡ n)
unfolding notification_eq
notification_eq_iff Notification.switching_to_live Notification.switching_to_live =
    (λ e. refl, λ e. refl)
notification_eq_iff Notification.switching_to_live Notification.no_past_logs_found =
    (λ e. absurd (cc e), λ e. absurd (cc e))
notification_eq_iff Notification.switching_to_live (Notification.reorg_detected n) =
    (λ e. absurd (cc e), λ e. absurd (cc e))
notification_eq_iff Notification.no_past_logs_found Notification.no_past_logs_found =
    (λ e. refl, λ e. refl)
notification_eq_iff Notification.no_past_logs_found Notification.switching_to_live =
    (λ e. absurd (cc e), λ e. absurd (cc e))
notification_eq_iff Notification.no_past_logs_found (Notification.reorg_detected n) =
    (λ e. absurd (cc e), λ e. absurd (cc e))
notification_eq_iff (Notification.reorg_detected m) (Notification.reorg_detected n) =
    let (to, from) = ==_iff m n in (λ e. ap Notification.reorg_detected (to e), λ e. from (cc e))
notification_eq_iff (Notification.reorg_detected m) Notification.switching_to_live =
    (λ e. absurd (cc e), λ e. absurd (cc e))
notification_eq_iff (Notification.reorg_detected m) Notification.no_past_logs_found =
    (λ e. absurd (cc e), λ e. absurd (cc e))

all_eq_iff :
    {D : Type 0} (data_eq : D → D → Bool)
    → ((x y : D) → (data_eq x y ≡ true) ↔ (x ≡ y))
    → (xs ys : List D) → (all_eq data_eq xs ys ≡ true) ↔ (xs ≡ ys)
unfolding all_eq
all_eq_iff data_eq decides [] [] = (λ e. refl, λ e. refl)
all_eq_iff data_eq decides [] (y ∷ ys) = (λ e. absurd (cc e), λ e. absurd (cc e))
all_eq_iff data_eq decides (x ∷ xs) [] = (λ e. absurd (cc e), λ e. absurd (cc e))
all_eq_iff data_eq decides (x ∷ xs) (y ∷ ys) =
    let (same, found) = decides x y in
    let (rest, back) = all_eq_iff data_eq decides xs ys in
    (
      λ e. elim (Bool-cases (data_eq x y)) [
        | inl equal ↦ ap₂ (λ z zs. z ∷ zs) (same equal) (rest (rw equal at e))
        | inr other ↦ absurd (false≢true (rw other at e))
      ],
      λ e.
          let first : x ≡ y = cc e in
          let others : xs ≡ ys = cc e in rw (found first, back others) refl,
    )

-- An item of a stream compares equal to a notification only if it is that notification, with its
-- block; an item compares equal to an error only if it is an error of the same kind, whatever the
-- fields of either; and a batch of logs compares equal to events only if its logs carry the encoded
-- events' data, in order, where the comparison of two logs' data decides their equality. No
-- comparison that should hold fails.
pub comparisons_decide :
    {D E : Type 0} (data_eq : D → D → Bool) (log_data : Log → D) (encode_log_data : E → D)
    (message : ScannerMessage (List Log)) (item : ScannerResult (List Log)) (n : Notification)
    (error : ScannerError) (events : List E)
    → ((x y : D) → (data_eq x y ≡ true) ↔ (x ≡ y))
    → ((message_eq message n ≡ true) ↔ (message ≡ notification n))
      × ((result_eq item error ≡ true)
          ↔ ((e : ScannerError) × (item ≡ err e) × (without_fields e ≡ without_fields error)))
      × ((message_eq_events data_eq log_data encode_log_data message events ≡ true) ↔ (
          (logs : List Log) × (message ≡ data_of logs)
          × (map log_data logs ≡ map encode_log_data events)))
unfolding message_eq result_eq message_eq_events
comparisons_decide data_eq log_data encode_log_data message item n error events decides =
    (message_case message, item_case item, events_case message)
  where
    message_case : (m : ScannerMessage (List Log)) → (message_eq m n ≡ true) ↔ (m ≡ notification n)
    message_case (data_of logs) = (λ e. absurd (cc e), λ e. absurd (cc e))
    message_case (notification m) =
        let (to, from) = notification_eq_iff m n in (λ e. ap notification (to e), λ e. from (cc e))

    item_case :
        (r : ScannerResult (List Log))
        → (result_eq r error ≡ true)
          ↔ ((e : ScannerError) × (r ≡ err e) × (without_fields e ≡ without_fields error))
    item_case (ok m) = (λ e. absurd (cc e), λ (e, same, _). absurd (cc same))
    item_case (err d) =
        let (to, from) = same_discriminant d error in
        (
          λ same. (d, refl, to same),
          λ (e, is_e, same). let found : d ≡ e = cc is_e in from (rw found same),
        )

    events_case :
        (m : ScannerMessage (List Log))
        → (message_eq_events data_eq log_data encode_log_data m events ≡ true) ↔ (
            (logs : List Log) × (m ≡ data_of logs)
            × (map log_data logs ≡ map encode_log_data events))
    events_case (notification m) = (λ e. absurd (cc e), λ (logs, same, _). absurd (cc same))
    events_case (data_of logs) =
        let (to, from) =
          all_eq_iff data_eq decides (map log_data logs) (map encode_log_data events) in
        (
          λ e. (logs, refl, to e),
          λ (others, is_others, same).
              let found : logs ≡ others = cc is_others in from (rw found same),
        )
