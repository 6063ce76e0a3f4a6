-- ===== src/Messages.antt =====
-- src/types.rs, src/error.rs and src/event_scanner/message.rs: how the items of a stream compare with
-- notifications, errors and decoded events, and what each kind of value is streamed as.
pub mod Comparisons
use event_scanner.Prelude.{ℕ, Bool, true, false, List, [], ◌∷◌, map, ◌==◌, ◌&&◌}
use event_scanner.Types.{
  Result, ok, err, ScannerError, Notification, ScannerMessage, data_of, notification, ScannerResult,
}
use event_scanner.BlockRangeHandler.{Log}

-- The derived `PartialEq` of `Notification`.
unfoldable pub notification_eq : Notification → Notification → Bool
notification_eq Notification.switching_to_live Notification.switching_to_live = true
notification_eq Notification.switching_to_live Notification.no_past_logs_found = false
notification_eq Notification.switching_to_live (Notification.reorg_detected n) = false
notification_eq Notification.no_past_logs_found Notification.no_past_logs_found = true
notification_eq Notification.no_past_logs_found Notification.switching_to_live = false
notification_eq Notification.no_past_logs_found (Notification.reorg_detected n) = false
notification_eq (Notification.reorg_detected m) (Notification.reorg_detected n) = m == n
notification_eq (Notification.reorg_detected m) Notification.switching_to_live = false
notification_eq (Notification.reorg_detected m) Notification.no_past_logs_found = false

-- `std::mem::discriminant` of an error.
unfoldable pub discriminant : ScannerError → ℕ
discriminant (ScannerError.rpc_error e) = 0
discriminant ScannerError.block_not_found = 1
discriminant ScannerError.timeout = 2
discriminant (ScannerError.block_exceeds_latest what block latest) = 3
discriminant ScannerError.invalid_event_count = 4
discriminant ScannerError.invalid_max_block_range = 5
discriminant ScannerError.invalid_buffer_capacity = 6
discriminant ScannerError.invalid_max_concurrent_fetches = 7
discriminant ScannerError.subscription_closed = 8
discriminant (ScannerError.lagged n) = 9

module _ {T : Type 0} where
  -- `PartialEq<Notification> for ScannerMessage<T>`
  unfoldable pub message_eq : ScannerMessage T → Notification → Bool
  message_eq (notification n) other = notification_eq n other
  message_eq (data_of x) other = false

  -- `PartialEq<ScannerError> for ScannerResult<T>`
  unfoldable pub result_eq : ScannerResult T → ScannerError → Bool
  result_eq (ok message) other = false
  result_eq (err e) other = discriminant e == discriminant other

-- `Iterator::eq` over the data of two lists.
unfoldable pub all_eq : {D : Type 0} → (D → D → Bool) → List D → List D → Bool
all_eq data_eq [] [] = true
all_eq data_eq [] (y ∷ ys) = false
all_eq data_eq (x ∷ xs) [] = false
all_eq data_eq (x ∷ xs) (y ∷ ys) = data_eq x y && all_eq data_eq xs ys

-- `PartialEq<&[E]> for Message`. alloy's data of a log, its comparison and `encode_log_data` of an
-- event are parameters.
module _ {D E : Type 0} (data_eq : D → D → Bool) (log_data : Log → D)
    (encode_log_data : E → D) where
  unfoldable pub message_eq_events : ScannerMessage (List Log) → List E → Bool
  unfolding all_eq
  message_eq_events (data_of logs) other =
      all_eq data_eq (map log_data logs) (map encode_log_data other)
  message_eq_events (notification n) other = false
