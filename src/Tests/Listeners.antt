-- ===== src/Tests/Listeners.antt =====
-- The listeners of the streaming modes and of the latest-events mode, over the small chain.
use event_scanner.Prelude.{
  ℕ, ◌≡◌, refl, some, none, List, [], ◌∷◌, ◌++◌, map, subst, All, arith, length, take, leb, reverse,
  if◌then◌else◌,
}
use event_scanner.Types.{
  Result, ok, ProviderError, Notification, ScannerError, from_data, from_notification, from_error,
}
use event_scanner.Env.{Call}
use event_scanner.Task.{delivered, finished, ◌>>=◌, pure, call, or_panic, try_stream}
use event_scanner.RangeIterator.{BlockRange}
use event_scanner.RangeStream.{Item}
use event_scanner.BlockRangeHandler.{
  Log, Collection, collect_latest, stream_latest, send_collected, get_logs, collect_logs,
  still_recovering,
}
use event_scanner.BlockRangeHandler.Latest.{
  HasBlock, SentOnce, summary, last_of, chronological, stream_latest_sends_last,
}
use event_scanner.BlockRangeHandler.Bounds.{IsBounded, stream_latest-IsBounded}
use event_scanner.BlockRangeHandler.Recovery.{canonical_logs, collect_latest_recovers}
use event_scanner.Tests.World.{chain_world}

abbrev log_in : ℕ → Log
log_in n = record { block_number = some n; content = 7 }

-- A range has a log in its first and in its last block.
abbrev logs_of : BlockRange → List Log
logs_of range = log_in range.start ∷ log_in range.end ∷ []

abbrev source : BlockRange → Call ℕ (Result ProviderError (List Log))
source range w = (ok (logs_of range), w)

abbrev newer : BlockRange
newer = record { start = 91; end = 100 }

abbrev older : BlockRange
older = record { start = 81; end = 90 }

latest_run :
    (stream_latest chain_world source 3 (map from_data (newer ∷ older ∷ [])) 0).1
    ≡ delivered (from_data (log_in 90 ∷ log_in 91 ∷ log_in 100 ∷ [])) ∷ []
unfolding stream_latest collect_latest send_collected get_logs collect_logs still_recovering ◌>>=◌
    pure call or_panic try_stream
latest_run = refl

stream_latest_sends_last_example :
    SentOnce
      (summary (last_of 3 (chronological logs_of (newer ∷ older ∷ []))))
      (stream_latest chain_world source 3 (map from_data (newer ∷ older ∷ [])) 0).1
stream_latest_sends_last_example =
    stream_latest_sends_last chain_world source 3 logs_of (newer ∷ older ∷ []) 0 (λ range w'. refl)
      (λ range. ((range.start, refl), ((range.end, refl), tt)))

-- A reorg in the middle, and an error.
abbrev reorged_items : List Item
reorged_items =
    from_data newer
    ∷ from_error ScannerError.timeout
    ∷ from_notification (Notification.reorg_detected 95)
    ∷ from_data older
    ∷ []

source-numbered :
    (r : BlockRange) (w : ℕ) (logs : List Log) → (source r w).0 ≡ ok logs → All HasBlock logs
source-numbered r w logs e =
    let found : logs_of r ≡ logs = cc e in
    subst (All HasBlock) found ((r.start, refl), ((r.end, refl), tt))

stream_latest-IsBounded_example :
    let (outcome, sent, _) = stream_latest chain_world source 3 reorged_items 0 in
    (outcome ≡ finished tt) × IsBounded 3 sent
stream_latest-IsBounded_example =
    stream_latest-IsBounded chain_world source 3 reorged_items 0 source-numbered

abbrev messages : List Item
messages =
    from_data older
    ∷ from_error ScannerError.timeout
    ∷ from_notification Notification.switching_to_live
    ∷ []

-- The log of block 100 is orphaned, that of block 90 is not.
abbrev so_far : Collection
so_far = record { collected = log_in 100 ∷ log_in 90 ∷ []; reorg_ancestor = none }

abbrev rescanned : BlockRange
rescanned = record { start = 96; end = 100 }

collect_latest_recovers_example :
    collect_latest chain_world source 5
      (from_notification (Notification.reorg_detected 95) ∷ from_data rescanned ∷ [])
      so_far
      0
    ≡ (if leb 5 (length (reverse (logs_of rescanned) ++ canonical_logs 95 so_far.collected))
          then pure
              (some (take 5 (reverse (logs_of rescanned) ++ canonical_logs 95 so_far.collected)))
          else collect_latest chain_world source 5 [] (record {
            collected = reverse (logs_of rescanned) ++ canonical_logs 95 so_far.collected;
            reorg_ancestor = some 95;
          }))
        0
collect_latest_recovers_example =
    collect_latest_recovers chain_world source 5 95 100 100 rescanned (log_in 96) (log_in 100 ∷ [])
      [] so_far 0 refl refl (omega arith) (100, refl, omega arith, (90, refl, omega arith, tt))
