-- ===== src/BlockRangeHandler/Bounds.antt =====
-- How much a listener of the latest events is sent, whatever the provider answers.
use event_scanner.Prelude.{
  ℕ, ◌≤◌, ◌≡◌, refl, Option, none, some, List, [], ◌∷◌, ◌++◌, reverse, length, length-reverse, All,
  All-append, arith, inl, inr, Bool-cases, append-nil, append_assoc,
}
use event_scanner.Types.{
  Result, ok, err, ProviderError, Notification, data_of, notification, open_channel, closed_channel,
  from_data, from_notification,
}
use event_scanner.Env.{Env, Call}
use event_scanner.Task.{Task, pure, ◌>>=◌, Attempt, delivered, refused, finished, try_stream}
use event_scanner.Task.Hoare.{Trace}
use event_scanner.Task.Total.{
  Total, pure-Total, call-Total, weaken-Total, bind-Total, or_panic_some-Total, attempt-Total,
}
use event_scanner.RangeIterator.{BlockRange}
use event_scanner.RangeStream.{Item}
use event_scanner.BlockRangeHandler.{
  Log, LogItem, Collection, collect_logs, discard_logs_from_orphaned_blocks, get_logs,
  collect_latest, send_collected, stream_latest, still_recovering, is_some,
}
use event_scanner.BlockRangeHandler.Latest.{HasBlock, last-HasBlock}
use event_scanner.BlockRangeHandler.Capacity.{collect_logs-bounded, discard-bounded}

-- An attempt that passes on a notification or an error.
abbrev pub IsPassed : Attempt LogItem → Type 0
IsPassed (delivered (ok (data_of logs))) = ⊥
IsPassed (refused (ok (data_of logs))) = ⊥
IsPassed (delivered (ok (notification n))) = Unit
IsPassed (refused (ok (notification n))) = Unit
IsPassed (delivered (err e)) = Unit
IsPassed (refused (err e)) = Unit

-- At most one batch, of at most `count` logs.
abbrev pub IsBatch : ℕ → Trace LogItem → Type 0
IsBatch count [] = Unit
IsBatch count (delivered (ok (data_of logs)) ∷ []) = length logs ≤ count
IsBatch count (refused (ok (data_of logs)) ∷ []) = length logs ≤ count
IsBatch count (delivered (ok (notification n)) ∷ t) = ⊥
IsBatch count (refused (ok (notification n)) ∷ t) = ⊥
IsBatch count (delivered (err e) ∷ t) = ⊥
IsBatch count (refused (err e) ∷ t) = ⊥
IsBatch count (delivered (ok (data_of logs)) ∷ a ∷ t) = ⊥
IsBatch count (refused (ok (data_of logs)) ∷ a ∷ t) = ⊥

-- Notifications and errors that are passed on, and at the end a batch, if any.
abbrev pub IsBounded : ℕ → Trace LogItem → Type 0
IsBounded count t =
    (passed : Trace LogItem) × (batch : Trace LogItem) × (t ≡ passed ++ batch)
    × All IsPassed passed
    × IsBatch count batch

abbrev OnlyPassed : ℕ → Option (List Log) → Trace LogItem → Type 0
OnlyPassed count none t = All IsPassed t
OnlyPassed count (some collected) t = (length collected ≤ count) × All IsPassed t

-- The logs of an item have their block numbers.
abbrev IsNumbered : LogItem → Type 0
IsNumbered (ok (data_of logs)) = All HasBlock logs
IsNumbered (ok (notification n)) = Unit
IsNumbered (err e) = Unit

module _ {V : Type 0} (listening : Env V)
    (source : BlockRange → Call V (Result ProviderError (List Log))) (count : ℕ)
    (numbered : (r : BlockRange) (v : V) (logs : List Log)
      → (source r v).0 ≡ ok logs
      → All HasBlock logs) where
  answered-Total :
      (item : Item) → Total (get_logs listening source item) (λ r t. IsNumbered r × (t ≡ []))
  unfolding get_logs
  answered-Total (err e) = pure-Total _ (tt, refl)
  answered-Total (ok (notification n)) = pure-Total _ (tt, refl)
  answered-Total (ok (data_of r)) =
      bind-Total (λ answer t. ((logs : List Log) → answer ≡ ok logs → All HasBlock logs) × (t ≡ []))
        (call-Total _ (λ v. (numbered r v, refl)))
        (elim [
          | err e ↦ λ t (known, none_sent). rw none_sent (pure-Total _ (tt, refl))
          | ok logs ↦ λ t (known, none_sent). rw none_sent (pure-Total _ (known logs refl, refl))
        ])

  OnlyPassed-after :
      (s t : Trace LogItem) (r : Option (List Log))
      → All IsPassed s
      → OnlyPassed count r t
      → OnlyPassed count r (s ++ t)
  OnlyPassed-after s t none passed rest = All-append IsPassed s t passed rest
  OnlyPassed-after s t (some collected) passed (held, rest) =
      (held, All-append IsPassed s t passed rest)

  -- An item that is sent on, after which the loop goes on or returns.
  passed_on-Total :
      (item : LogItem) (rest : Task LogItem V (Option (List Log)))
      → IsPassed (delivered item)
      → IsPassed (refused item)
      → Total rest (OnlyPassed count)
      → Total
          (do
            state ← try_stream listening item
            elim state [ closed_channel ↦ pure none | open_channel ↦ rest ])
          (OnlyPassed count)
  passed_on-Total item rest sent not_sent more =
      bind-Total (λ state t. All IsPassed t)
        (attempt-Total listening item (sent, tt) (not_sent, tt))
        (elim [
          | closed_channel ↦ λ t passed. pure-Total none (OnlyPassed-after t [] none passed tt)
          | open_channel ↦ λ t passed. weaken-Total more (λ r u. OnlyPassed-after t u r passed)
        ])

  collect_latest-Total :
      (items : List Item) (s : Collection)
      → length s.collected ≤ count
      → Total (collect_latest listening source count items s) (OnlyPassed count)
  unfolding collect_latest
  collect_latest-Total [] s held = pure-Total _ (held, tt)
  collect_latest-Total (item ∷ items) s held =
      bind-Total (λ r t. IsNumbered r × (t ≡ [])) (answered-Total item)
        (elim [
          | ok (data_of []) ↦
              λ t (known, none_sent). rw none_sent (collect_latest-Total items s held)
          | ok (data_of (log ∷ logs)) ↦ λ t (known, none_sent).
              let (last, at) = last-HasBlock log logs known in
              let ancestor : Option ℕ = still_recovering s.reorg_ancestor last in
              let put = collect_logs s.collected (log ∷ logs) count (is_some ancestor) in
              let fits =
                collect_logs-bounded s.collected (log ∷ logs) count (is_some ancestor) held in
              rw (none_sent, at)
                (or_panic_some-Total _ (elim (Bool-cases put.1) [
                  | inl complete ↦ rw complete (pure-Total _ (fits, tt))
                  | inr more ↦ rw more (
                      collect_latest-Total items
                        (record { collected = put.0; reorg_ancestor = ancestor }) fits)
                ]))
          | ok (notification (Notification.reorg_detected common_ancestor)) ↦
              λ t (known, none_sent).
                let kept = discard-bounded s.collected common_ancestor in
                rw none_sent (
                  collect_latest-Total items
                    (record {
                      collected = discard_logs_from_orphaned_blocks s.collected common_ancestor;
                      reorg_ancestor = some common_ancestor;
                    })
                    (omega (arith, held, kept)))
          | ok (notification Notification.switching_to_live) ↦ λ t (known, none_sent).
              rw none_sent (passed_on-Total _ _ tt tt (collect_latest-Total items s held))
          | ok (notification Notification.no_past_logs_found) ↦ λ t (known, none_sent).
              rw none_sent (passed_on-Total _ _ tt tt (collect_latest-Total items s held))
          | err e ↦ λ t (known, none_sent).
              rw none_sent (passed_on-Total _ _ tt tt (collect_latest-Total items s held))
        ])

  passed-IsBounded : (a : Attempt LogItem) → IsPassed a → IsBounded count (a ∷ [])
  passed-IsBounded a passed = (a ∷ [], [], refl, (passed, tt), tt)

  batch-IsBounded : (t : Trace LogItem) → IsBatch count t → IsBounded count t
  batch-IsBounded t fits = ([], t, refl, tt, fits)

  send_collected-Total :
      (collected : List Log)
      → length collected ≤ count
      → Total (send_collected listening collected) (λ done t. IsBounded count t)
  unfolding send_collected
  send_collected-Total [] held =
      bind-Total (λ state t. IsBounded count t)
        (attempt-Total listening (from_notification Notification.no_past_logs_found)
          (passed-IsBounded _ tt) (passed-IsBounded _ tt))
        (λ state t bounded. pure-Total tt (rw append-nil bounded))
  send_collected-Total (log ∷ logs) held =
      let fits : length (reverse (log ∷ logs)) ≤ count =
        omega (arith, held, length-reverse (log ∷ logs)) in
      bind-Total (λ state t. IsBounded count t)
        (attempt-Total listening (from_data (reverse (log ∷ logs))) (batch-IsBounded _ fits)
          (batch-IsBounded _ fits))
        (λ state t bounded. pure-Total tt (rw append-nil bounded))

  stream_latest-Total :
      (items : List Item)
      → Total (stream_latest listening source count items) (λ done t. IsBounded count t)
  unfolding stream_latest
  stream_latest-Total items =
      bind-Total (OnlyPassed count)
        (collect_latest-Total items (record { collected = []; reorg_ancestor = none })
          (omega arith))
        (elim [
          | none ↦ λ t passed. pure-Total tt (t, [], refl, passed, tt)
          | some collected ↦ λ t (held, passed).
              weaken-Total (send_collected-Total collected held)
                (λ done u (before, batch, same, passed', fits). (
                  t ++ before,
                  batch,
                  rw (same, append_assoc) refl,
                  All-append IsPassed t before passed passed',
                  fits,
                ))
        ])

-- Whatever comes in, reorgs and errors included, whatever logs with block numbers the provider
-- answers with, and wherever the receiver leaves, the task of a latest-events listener ends, and
-- sends notifications and errors and then at most one batch, at the very end, of at most `count`
-- logs.
pub stream_latest-IsBounded :
    {V : Type 0} (listening : Env V)
    (source : BlockRange → Call V (Result ProviderError (List Log))) (count : ℕ) (items : List Item)
    (v : V)
    → ((r : BlockRange) (v' : V) (logs : List Log) → (source r v').0 ≡ ok logs → All HasBlock logs)
    → let (outcome, sent, _) = stream_latest listening source count items v in
      (outcome ≡ finished tt) × IsBounded count sent
stream_latest-IsBounded listening source count items v numbered =
    let (done, t, v', e, bounded) =
      (stream_latest-Total listening source count numbered items).run v in
    rw e (refl, bounded)
