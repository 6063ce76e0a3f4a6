-- ===== src/BlockRangeHandler/Forward.antt =====
-- What a listener of the streaming modes is sent.
use event_scanner.Prelude.{◌≡◌, List, [], ◌∷◌}
use event_scanner.Types.{
  Result, ok, err, ProviderError, from_provider_error, data_of, notification, from_data,
  from_notification, from_error,
}
use event_scanner.Env.{Env}
use event_scanner.Task.{Task, Attempt, delivered, refused}
use event_scanner.RangeIterator.{BlockRange}
use event_scanner.RangeStream.{Item}
use event_scanner.BlockRangeHandler.{Log, LogItem}

-- The listener's item for a message, given the provider's answers; none for a range without logs.
abbrev pub items_for :
    (BlockRange → Result ProviderError (List Log)) → Item → List LogItem → List LogItem
items_for answer_of (ok (data_of range)) rest = elim (answer_of range) [
  | ok [] ↦ rest
  | ok (log ∷ logs) ↦ from_data (log ∷ logs) ∷ rest
  | err e ↦ from_error (from_provider_error e) ∷ rest
]
items_for answer_of (ok (notification n)) rest = from_notification n ∷ rest
items_for answer_of (err e) rest = from_error e ∷ rest

abbrev pub all_items_for : (BlockRange → Result ProviderError (List Log)) → List Item → List LogItem
all_items_for answer_of [] = []
all_items_for answer_of (m ∷ ms) = items_for answer_of m (all_items_for answer_of ms)

-- The items went out in order, up to the first that the listener was gone for.
abbrev pub IsForwarded : List LogItem → List (Attempt LogItem) → Type 0
IsForwarded [] [] = Unit
IsForwarded [] (a ∷ trace) = ⊥
IsForwarded (item ∷ items) [] = ⊥
IsForwarded (item ∷ items) (delivered i ∷ trace) = (i ≡ item) × IsForwarded items trace
IsForwarded (item ∷ items) (refused i ∷ trace) = (i ≡ item) × (trace ≡ [])
