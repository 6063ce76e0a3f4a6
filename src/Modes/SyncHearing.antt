-- ===== src/Modes/SyncHearing.antt =====
-- What the listener of a sync mode has, while the chain stands.
use event_scanner.Prelude.{
  ℕ, ◌+◌, ◌-◌, ◌^◌, ◌≤◌, ◌<◌, ◌≡◌, ◌⊎◌, inl, inr, refl, sym, ap, List, [], ◌∷◌, ◌++◌, All, map,
  length,
}
use event_scanner.Types.{Result, ok, ProviderError, from_data, Notification, from_notification}
use event_scanner.Env.{Env, Block, BlockId, Call}
use event_scanner.Task.{delivered, refused, finished}
use event_scanner.Task.Hoare.{Trace}
use event_scanner.Task.Total.{Total, pure-Total, weaken-Total, Sends}
use event_scanner.RangeIterator.{BlockRange}
use event_scanner.RangeIterator.Tiling.{interval}
use event_scanner.RangeIterator.Step.{block_limit}
use event_scanner.RangeStream.{Item}
use event_scanner.ReorgHandler.{new}
use event_scanner.Historical.Calm.{IsCalm, Streamed}
use event_scanner.Live.{Incoming}
use event_scanner.Live.Calm.{IsFed}
use event_scanner.Live.CalmRun.{frontier, IsHeader}
use event_scanner.Sync.CalmSync.{Subscribes, KnowsTip, IsHandover, SyncSent, run_syncs}
use event_scanner.Scanner
use event_scanner.BlockRangeHandler.{Log, LogItem, stream_logs}
use event_scanner.BlockRangeHandler.Delivery.{
  Delivers, stream_logs-Delivers, stream_logs-DeliversFirst, stream_logs-notified, logs_of_blocks,
  logs_in, concat_logs-TilesUp,
}
use event_scanner.EventScanner.{EventListener}
use event_scanner.Modes.{StreamHandler, Started, handle_streaming}
use event_scanner.Modes.Delivery.{items_of, items_of-all_delivered}
use event_scanner.Scanner.{BlockRangeScanner}
use event_scanner.Task.{Task}

items_of-append : (s t : Trace Item) → items_of (s ++ t) ≡ items_of s ++ items_of t
items_of-append [] t = refl
items_of-append (delivered item ∷ s) t = ap (λ (l : List Item). item ∷ l) (items_of-append s t)
items_of-append (refused item ∷ s) t = items_of-append s t

-- The logs of the past blocks, that the scanner is live, and the logs of the live blocks: each in
-- batches that make them up, and nothing else.
abbrev pub DeliversBoth : List Log → List Log → Trace LogItem → Type 0
DeliversBoth past live t =
    (before : Trace LogItem) × (after : Trace LogItem) × (t
      ≡ before ++ (delivered (from_notification Notification.switching_to_live) ∷ after))
    × Delivers past before
    × Delivers live after

-- What a listener of the sync mode has been sent, where `next` is the first live block, past the
-- confirmed tip.
abbrev pub HeardSync :
    {W : Type 0} → Env W → ℕ → (ℕ → List Log) → ℕ → ℕ → ℕ → List Incoming → Trace LogItem → Type 0
HeardSync env top block_logs start tip confirmations hs t =
    ((next : ℕ) × IsHandover env top confirmations start tip next
      × DeliversBoth (logs_of_blocks block_logs (interval start (next - start)))
          (logs_of_blocks block_logs (interval next (frontier confirmations next hs - next))) t)
    ⊎ ((t ≡ []) × (tip < start) × (frontier confirmations start hs ≡ start))

module _ {V F S : Type 0} (listening : Env V)
    (logs_for : F → BlockRange → Call V (Result ProviderError (List Log)))
    (block_logs : ℕ → List Log) (listener : EventListener F S) (hears : Sends listening ⊥)
    (fetched : (r : BlockRange) (v : V)
      → (logs_for listener.filter r v).0 ≡ ok (logs_in block_logs r)) where
  heard_both :
      (size start next upto : ℕ) (past live : Trace Item)
      → Streamed size start next past
      → Streamed size next upto live
      → Total
          (stream_logs listening (logs_for listener.filter) (
            items_of
              (past ++ (delivered (from_notification Notification.switching_to_live) ∷ live))))
          (λ done t.
            DeliversBoth
              (logs_of_blocks block_logs (interval start (next - start)))
              (logs_of_blocks block_logs (interval next (upto - next)))
              t)
  heard_both size start next upto past live (rs, e, tiles) (rs', e', tiles') =
      rw
        (
          items_of-append,
          e,
          e',
          items_of-all_delivered rs,
          items_of-all_delivered rs',
          sym (concat_logs-TilesUp block_logs size start next rs tiles),
          sym (concat_logs-TilesUp block_logs size next upto rs' tiles'),
        )
        (weaken-Total
          (stream_logs-DeliversFirst listening (logs_for listener.filter) (logs_in block_logs)
            fetched hears rs (from_notification Notification.switching_to_live ∷ map from_data rs')
            (stream_logs-notified listening (logs_for listener.filter) (logs_in block_logs) fetched
              hears Notification.switching_to_live (map from_data rs')
              (stream_logs-Delivers listening (logs_for listener.filter) (logs_in block_logs)
                fetched hears rs')))
          (λ done t (before, rest, same, q, (after, same', q')).
            (before, after, rw (same, same') refl, q, q')))

  heard_sync :
      {W : Type 0} (env : Env W) (top size start tip confirmations : ℕ) (hs : List Incoming)
      (sent : Trace Item)
      → SyncSent env top size start tip confirmations hs sent
      → Total
          (stream_logs listening (logs_for listener.filter) (items_of sent))
          (λ done t. HeardSync env top block_logs start tip confirmations hs t)
  unfolding stream_logs
  heard_sync env top size start tip confirmations hs sent (inr (nothing, ahead, same)) =
      rw nothing (pure-Total tt (inr (refl, ahead, same)))
  heard_sync env top size start tip confirmations hs sent
        (inl (next, past, rest, same, handover, streamed, (live, same', streamed'))) =
      rw (same, same')
        (weaken-Total
          (heard_both size start next (frontier confirmations next hs) past live streamed streamed')
          (λ done t q. inl (next, handover, q)))

-- The stream of a sync mode and its listener end, and the listener has been sent that.
abbrev pub HearsSync :
    {W V F S : Type 0}
    → Env W
    → ℕ
    → Env V
    → (F → BlockRange → Call V (Result ProviderError (List Log)))
    → (ℕ → List Log)
    → EventListener F S
    → List Incoming
    → ℕ
    → ℕ
    → ℕ
    → W
    → V
    → Started W (StreamHandler F S)
    → Type 0
HearsSync env top listening logs_for block_logs listener hs start tip confirmations w v started =
    let (outcome, sent, _) = started.stream w in
    (outcome ≡ finished tt)
    × (let (heard, received, _) =
          handle_streaming listening logs_for started.handler listener (items_of sent) v in
        (heard ≡ finished tt) × HeardSync env top block_logs start tip confirmations hs received)

-- The streaming phase that both sync modes start.
pub stream_from-HearsSync :
    {W V F S : Type 0} (env : Env W)
    (try_join_blocks : BlockId → BlockId → Call W (Result ProviderError (Block × Block)))
    (try_join_numbers : BlockId → Call W (Result ProviderError (ℕ × ℕ))) (fuel : ℕ)
    (listening : Env V) (logs_for : F → BlockRange → Call V (Result ProviderError (List Log)))
    (upcoming : W → List Incoming) (chain : ℕ → Block) (top : ℕ) (block_logs : ℕ → List Log)
    (s : BlockRangeScanner) (handler : StreamHandler F S) (listener : EventListener F S)
    (start_id : BlockId) (confirmations start latest : ℕ) (hs : List Incoming) (w w' : W) (v : V)
    → IsFed env upcoming
    → IsCalm env chain top
    → Subscribes env upcoming hs
    → KnowsTip env top
    → Sends listening ⊥
    → ((r : BlockRange) (v' : V) → (logs_for listener.filter r v').0 ≡ ok (logs_in block_logs r))
    → 1 ≤ s.max_block_range
    → top < block_limit
    → All (IsHeader top) hs
    → length hs + top + 3 ≤ fuel
    → fuel ≤ 2 ^ 63
    → (try_join_numbers start_id w).0 ≡ ok (start, latest)
    → latest ≤ top
    → upcoming w' ≡ hs
    → (task : Task Item W (Unit {0})) × ((Scanner.stream_from env try_join_blocks try_join_numbers
          fuel s start_id confirmations w).0
        ≡ ok task)
      × HearsSync env top listening logs_for block_logs listener hs start
          (latest - confirmations)
          confirmations
          w'
          v
          (record { stream = task; handler = handler })
unfolding Scanner.stream_from handle_streaming
stream_from-HearsSync env try_join_blocks try_join_numbers fuel listening logs_for upcoming chain
      top block_logs s handler listener start_id confirmations start latest hs w w' v fed calm
      subscribes tipped hears fetched sized small known enough limited found within awaits =
    let size : ℕ = s.max_block_range in
    let (task, ran, sends) =
      run_syncs env try_join_numbers upcoming chain top fuel start latest
        (record {
          max_block_range = size;
          start_id = start_id;
          block_confirmations = confirmations;
        })
        (new s.past_blocks_storage_capacity) hs w fed calm subscribes tipped small sized known
        enough limited found within in
    let (t, w'', streamed, sent) = sends w' awaits in
    let (done, received, v', heard, q) =
      (heard_sync listening logs_for block_logs listener hears fetched env top size start
          (latest - confirmations) confirmations hs t sent).run
        v in
    (task, ran, rw (streamed, heard) (refl, (refl, q)))
