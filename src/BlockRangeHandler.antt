-- ===== src/BlockRangeHandler.antt =====
-- src/event_scanner/block_range_handler.rs: what a listener is sent for the block ranges that are
-- broadcast to it. `buffered` keeps the order of the messages, so they are processed in turn.
pub mod Forward
pub mod Collect
pub mod Latest
pub mod Capacity
pub mod Bounds
pub mod Delivery
pub mod Recovery
pub mod Pipeline
pub mod Broadcast
use event_scanner.Prelude.{
  ℕ, ◌-◌, Bool, true, false, Option, none, some, List, [], ◌∷◌, ◌++◌, reverse, length, take, ltb,
  leb, ◌==◌, if◌then◌else◌,
}
use event_scanner.Types.{
  Result, ok, err, ProviderError, from_provider_error, Notification, data_of, notification,
  ScannerResult, ChannelState, open_channel, closed_channel, from_data, from_notification,
  from_error,
}
use event_scanner.Env.{Env, Call}
use event_scanner.Task.{Task, pure, call, or_panic, ◌>>=◌, ◌>>◌, try_stream}
use event_scanner.RangeIterator.{BlockRange}
use event_scanner.RangeStream.{Item}

-- alloy's `Log`, of which the crate reads the block number; the rest is only carried along.
pub record Log : Type 0 where
  pub block_number : Option ℕ
  pub content : ℕ

-- `EventScannerResult`, what a listener's sender takes
abbrev pub LogItem : Type 0
LogItem = ScannerResult (List Log)

-- `collect_logs`, with what becomes of `collected`
unfoldable pub collect_logs : {T : Type 0} → List T → List T → ℕ → Bool → List T × Bool
collect_logs collected logs count true =
    let new_logs = take count (reverse logs) in
    let spliced = new_logs ++ take (count - length new_logs) collected in
    (spliced, leb count (length spliced))
collect_logs collected logs count false =
    let room = count - length collected in
    let extended = collected ++ take room (reverse logs) in
    if room == 0 then (collected, true) else (extended, leb count (length extended))

-- Whether a log lies above the common ancestor.
unfoldable pub is_orphaned : ℕ → Log → Bool
is_orphaned common_ancestor log = elim log.block_number [
  | none ↦ false
  | some n ↦ ltb common_ancestor n
]

unfoldable pub discard_logs_from_orphaned_blocks : List Log → ℕ → List Log
unfolding is_orphaned
discard_logs_from_orphaned_blocks [] common_ancestor = []
discard_logs_from_orphaned_blocks (log ∷ logs) common_ancestor =
    let rest = discard_logs_from_orphaned_blocks logs common_ancestor in
    if is_orphaned common_ancestor log then rest else log ∷ logs

-- `logs.last()`, and its block number
abbrev pub last_block_number : List Log → Option ℕ
last_block_number [] = none
last_block_number (log ∷ []) = log.block_number
last_block_number (log ∷ x ∷ logs) = last_block_number (x ∷ logs)

-- The locals of the collection: the logs, newest first, and the ancestor of a reorg that is being
-- recovered from.
pub record Collection : Type 0 where
  pub collected : List Log
  pub reorg_ancestor : Option ℕ

-- The ancestor once the recovery is known to be over.
unfoldable pub still_recovering : Option ℕ → ℕ → Option ℕ
still_recovering none last_log_block_num = none
still_recovering (some a) last_log_block_num = if leb last_log_block_num a then none else some a

abbrev pub is_some : Option ℕ → Bool
is_some none = false
is_some (some a) = true

module _ {W : Type 0} (env : Env W) where
  -- What is sent once the loop has ended.
  unfoldable pub send_collected : List Log → Task LogItem W (Unit {0})
  send_collected [] = try_stream env (from_notification Notification.no_past_logs_found) >> pure tt
  send_collected collected = try_stream env (from_data (reverse collected)) >> pure tt

module _ {W : Type 0} (env : Env W)
    (provider_get_logs : BlockRange → Call W (Result ProviderError (List Log))) where
  -- The `map` of the stream: the logs of a range, anything else as it came.
  unfoldable pub get_logs : Item → Task LogItem W LogItem
  get_logs (ok (data_of range)) = do
    answer ← call (provider_get_logs range)
    elim answer [
      | ok logs ↦ pure (from_data logs)
      | err e ↦ pure (from_error (from_provider_error e))
    ]
  get_logs (ok (notification n)) = pure (from_notification n)
  get_logs (err e) = pure (from_error e)

  -- `StreamHandler`: the task of one listener
  unfoldable pub stream_logs : List Item → Task LogItem W (Unit {0})
  stream_logs [] = pure tt
  stream_logs (message ∷ messages) = do
    result ← get_logs message
    elim result [
      | ok (data_of []) ↦ stream_logs messages
      | item ↦ do
        state ← try_stream env item
        elim state [ closed_channel ↦ pure tt | open_channel ↦ stream_logs messages ]
    ]

  -- `LatestEventsHandler`: the loop of one listener's task; `none` if it returned early.
  unfoldable pub collect_latest : ℕ → List Item → Collection → Task LogItem W (Option (List Log))
  collect_latest count [] s = pure (some s.collected)
  collect_latest count (message ∷ messages) s = do
    result ← get_logs message
    elim result [
      | ok (data_of []) ↦ collect_latest count messages s
      | ok (data_of (log ∷ logs)) ↦ do
        last_log_block_num ← or_panic (last_block_number (log ∷ logs))
        let reorg_ancestor = still_recovering s.reorg_ancestor last_log_block_num
        let (collected, complete) =
            collect_logs s.collected (log ∷ logs) count (is_some reorg_ancestor)
        let rest =
            collect_latest count messages
              (record { collected = collected; reorg_ancestor = reorg_ancestor })
        if complete then pure (some collected) else rest
      | ok (notification (Notification.reorg_detected common_ancestor)) ↦
          collect_latest count messages (record {
            collected = discard_logs_from_orphaned_blocks s.collected common_ancestor;
            reorg_ancestor = some common_ancestor;
          })
      | item ↦ do
        state ← try_stream env item
        elim state [ closed_channel ↦ pure none | open_channel ↦ collect_latest count messages s ]
    ]

  -- The whole task of one listener.
  unfoldable pub stream_latest : ℕ → List Item → Task LogItem W (Unit {0})
  unfolding collect_latest send_collected
  stream_latest count messages = do
    outcome ← collect_latest count messages (record { collected = []; reorg_ancestor = none })
    elim outcome [ none ↦ pure tt | some collected ↦ send_collected env collected ]
