-- ===== src/BlockRangeHandler/Delivery.antt =====
-- The logs of blocks, and a listener that gets those of consecutive ranges.
use event_scanner.Prelude.{
  ℕ, ◌+◌, ◌-◌, ◌≡◌, refl, sym, ap, ◌∙◌, subst, List, [], ◌∷◌, ◌++◌, append_assoc, append-nil, map,
  arith,
}
use event_scanner.Types.{
  Result, ok, err, ProviderError, Notification, data_of, notification, from_data, from_notification,
  open_channel, closed_channel,
}
use event_scanner.Env.{Env, Call}
use event_scanner.Task.{delivered, refused}
use event_scanner.Task.Hoare.{Trace}
use event_scanner.Task.Total.{
  Total, pure-Total, call-Total, weaken-Total, bind-Total, Sends, IfOpen, try_stream-Total,
}
use event_scanner.RangeIterator.{BlockRange}
use event_scanner.RangeStream.{Item}
use event_scanner.RangeIterator.Tiling.{
  TilesUp, TilesDown, blocks, interval, interval-append, blocks-TilesUp,
}
use event_scanner.BlockRangeHandler.{Log, LogItem, get_logs, stream_logs}
use event_scanner.BlockRangeHandler.Latest.{chronological}

-- The trace is data only, and its batches make up these logs.
abbrev pub Delivers : List Log → Trace LogItem → Type 0
Delivers logs [] = logs ≡ []
Delivers logs (delivered (ok (data_of batch)) ∷ t) =
    (rest : List Log) × (logs ≡ batch ++ rest) × Delivers rest t
Delivers logs (delivered (ok (notification n)) ∷ t) = ⊥
Delivers logs (delivered (err e) ∷ t) = ⊥
Delivers logs (refused item ∷ t) = ⊥

abbrev pub concat_logs : (BlockRange → List Log) → List BlockRange → List Log
concat_logs logs_of [] = []
concat_logs logs_of (r ∷ rs) = logs_of r ++ concat_logs logs_of rs

module _ {V : Type 0} (listening : Env V)
    (source : BlockRange → Call V (Result ProviderError (List Log)))
    (logs_of : BlockRange → List Log)
    (fetched : (range : BlockRange) (v : V) → (source range v).0 ≡ ok (logs_of range))
    (sends : Sends listening ⊥) where
  got-Total :
      (range : BlockRange)
      → Total
          (get_logs listening source (from_data range))
          (λ item t. (item ≡ from_data (logs_of range)) × (t ≡ []))
  unfolding get_logs
  got-Total range =
      bind-Total (λ answer t. (answer ≡ ok (logs_of range)) × (t ≡ []))
        (call-Total _ (λ v. (fetched range v, refl)))
        (elim [
          | err e ↦ λ t (bad, none_sent). absurd (cc bad)
          | ok logs ↦ λ t (same, none_sent).
              let found : logs ≡ logs_of range = cc same in
              rw (found, none_sent) (pure-Total _ (refl, refl))
        ])

  -- The batches of the ranges come before what the rest of the items leads to.
  abbrev DeliversFirst : List BlockRange → (Trace LogItem → Type 0) → Trace LogItem → Type 0
  DeliversFirst rs P t =
      (past : Trace LogItem) × (later : Trace LogItem) × (t ≡ past ++ later)
      × Delivers (concat_logs logs_of rs) past
      × P later

  pub stream_logs-DeliversFirst :
      (rs : List BlockRange) (items : List Item) {P : Trace LogItem → Type 0}
      → Total (stream_logs listening source items) (λ done t. P t)
      → Total
          (stream_logs listening source (map from_data rs ++ items))
          (λ done t. DeliversFirst rs P t)
  unfolding stream_logs
  stream_logs-DeliversFirst [] items more = weaken-Total more (λ done t q. ([], t, refl, refl, q))
  stream_logs-DeliversFirst (r ∷ rs) items more =
      bind-Total (λ item t. (item ≡ from_data (logs_of r)) × (t ≡ [])) (got-Total r)
        (elim [
          | err e ↦ λ t (bad, none_sent). absurd (cc bad)
          | ok (notification n) ↦ λ t (bad, none_sent). absurd (cc bad)
          | ok (data_of []) ↦ λ t (same, none_sent).
              let empty : logs_of r ≡ [] = cc same in
              rw (none_sent, empty) (stream_logs-DeliversFirst rs items more)
          | ok (data_of (log ∷ logs)) ↦ λ t (same, none_sent).
              let full : logs_of r ≡ log ∷ logs = cc same in
              rw (none_sent, full)
                (bind-Total (IfOpen ⊥ (λ s. s ≡ delivered (from_data (log ∷ logs)) ∷ []))
                  (try_stream-Total listening ⊥ sends (from_data (log ∷ logs)))
                  (elim [
                    | closed_channel ↦ λ s gone. absurd gone
                    | open_channel ↦ λ s e.
                        weaken-Total (stream_logs-DeliversFirst rs items more)
                          (λ done u (past, later, same, q, rest). (
                            delivered (from_data (log ∷ logs)) ∷ past,
                            later,
                            rw (e, same) refl,
                            (concat_logs logs_of rs, refl, q),
                            rest,
                          ))
                  ]))
        ])

  pub stream_logs-Delivers :
      (rs : List BlockRange)
      → Total
          (stream_logs listening source (map from_data rs))
          (λ done t. Delivers (concat_logs logs_of rs) t)
  unfolding stream_logs
  stream_logs-Delivers rs =
      subst
        (λ items.
          Total (stream_logs listening source items)
            (λ done t. Delivers (concat_logs logs_of rs) t))
        (append-nil (map from_data rs))
        (weaken-Total (stream_logs-DeliversFirst rs [] {P = λ t. t ≡ []} (pure-Total tt refl))
          (λ done t (past, later, same, q, none_left). rw (same, none_left, append-nil) q))

  -- A notification is passed on.
  pub stream_logs-notified :
      (n : Notification) (items : List Item) {P : Trace LogItem → Type 0}
      → Total (stream_logs listening source items) (λ done t. P t)
      → Total (stream_logs listening source (from_notification n ∷ items)) (λ done t.
        (later : Trace LogItem) × (t ≡ delivered (from_notification n) ∷ later) × P later)
  unfolding stream_logs get_logs
  stream_logs-notified n items more =
      bind-Total (λ item t. (item ≡ from_notification n) × (t ≡ [])) (pure-Total _ (refl, refl))
        (elim [
          | err e ↦ λ t (bad, none_sent). absurd (cc bad)
          | ok (data_of logs) ↦ λ t (bad, none_sent). absurd (cc bad)
          | ok (notification m) ↦ λ t (same, none_sent).
              let passed : m ≡ n = cc same in
              rw (none_sent, passed)
                (bind-Total (IfOpen ⊥ (λ s. s ≡ delivered (from_notification n) ∷ []))
                  (try_stream-Total listening ⊥ sends (from_notification n))
                  (elim [
                    | closed_channel ↦ λ s gone. absurd gone
                    | open_channel ↦ λ s e. weaken-Total more (λ done u q. (u, rw e refl, q))
                  ]))
        ])

-- The logs of blocks, in order.
abbrev pub logs_of_blocks : (ℕ → List Log) → List ℕ → List Log
logs_of_blocks block_logs [] = []
logs_of_blocks block_logs (n ∷ ns) = block_logs n ++ logs_of_blocks block_logs ns

module _ (block_logs : ℕ → List Log) where
  logs_of_blocks-append :
      (ms ns : List ℕ)
      → logs_of_blocks block_logs (ms ++ ns)
        ≡ logs_of_blocks block_logs ms ++ logs_of_blocks block_logs ns
  logs_of_blocks-append [] ns = refl
  logs_of_blocks-append (m ∷ ms) ns = rw (logs_of_blocks-append ms ns, append_assoc) refl

  -- What the provider has for a range.
  abbrev pub logs_in : BlockRange → List Log
  logs_in r = logs_of_blocks block_logs (interval r.start (r.end + 1 - r.start))

  pub concat_logs-TilesUp :
      (size from upto : ℕ) (rs : List BlockRange)
      → TilesUp size from upto rs
      → concat_logs logs_in rs ≡ logs_of_blocks block_logs (interval from (upto - from))
  unfolding blocks
  concat_logs-TilesUp size from upto rs tiles =
      each rs ∙ ap (logs_of_blocks block_logs) (blocks-TilesUp size from upto rs tiles)
    where
      each : (rs : List BlockRange) → concat_logs logs_in rs ≡ logs_of_blocks block_logs (blocks rs)
      each [] = refl
      each (r ∷ rs) =
          rw (logs_of_blocks-append (interval r.start (r.end + 1 - r.start)) (blocks rs), each rs)
            refl

  pub chronological-TilesDown :
      (size upto to : ℕ) (rs : List BlockRange)
      → TilesDown size upto to rs
      → chronological logs_in rs ≡ logs_of_blocks block_logs (interval to (upto - to))
  unfolding interval
  chronological-TilesDown size upto to [] tiles =
      let none_left : upto - to ≡ 0 = omega arith in rw none_left refl
  chronological-TilesDown size upto to (r ∷ rs) tiles =
      let m : ℕ = r.start - to in
      let n : ℕ = r.end + 1 - r.start in
      let lower = chronological-TilesDown size r.start to rs tiles.4 in
      let at : to + m ≡ r.start = omega (arith, tiles) in
      let all : m + n ≡ upto - to = omega (arith, tiles) in
      let joined : interval to m ++ interval r.start n ≡ interval to (upto - to) =
        rw (at, all) at (interval-append to m n) in
      rw lower (
        sym (logs_of_blocks-append (interval to m) (interval r.start n))
        ∙ ap (logs_of_blocks block_logs) joined)
