-- ===== src/BlockRangeHandler/Latest.antt =====
-- What a listener of the latest-events mode is sent while the chain stands.
use mathlib.Core.List.{reverse-cons, reverse-append, reverse-reverse}
use event_scanner.Prelude.{
  ℕ, zero, suc, ◌-◌, ◌≡◌, ◌⊎◌, refl, sym, ap, ◌∙◌, none, some, List, [], ◌∷◌, ◌++◌, append-nil,
  append_assoc, map, reverse, length, take, drop, leb, length-append, length-drop, take-all, All,
  arith, inl, inr, Bool-cases,
}
use event_scanner.Types.{Result, ok, ProviderError, Notification, from_data, from_notification}
use event_scanner.Env.{Env, Call}
use event_scanner.Task.{
  Attempt, delivered, refused, finished, pure, call, or_panic, ◌>>=◌, ◌>>◌, try_stream,
}
use event_scanner.RangeIterator.{BlockRange}
use event_scanner.BlockRangeHandler.{
  Log, LogItem, last_block_number, still_recovering, get_logs, collect_latest, send_collected,
  stream_latest,
}
use event_scanner.BlockRangeHandler.Collect.{take-append, collect_logs-appended}

-- The last `n` items.
abbrev pub last_of : {T : Type 0} → ℕ → List T → List T
last_of n xs = drop (length xs - n) xs

module _ {T : Type 0} where
  take-drop : (n : ℕ) (xs : List T) → take n xs ++ drop n xs ≡ xs
  take-drop zero xs = refl
  take-drop (suc n) [] = refl
  take-drop (suc n) (x ∷ xs) = ap (λ zs. x ∷ zs) (take-drop n xs)

  length-reverse : (xs : List T) → length (reverse xs) ≡ length xs
  length-reverse [] = refl
  length-reverse (x ∷ xs) =
      let split = reverse-cons x xs in
      let longer = length-append (reverse xs) (x ∷ []) in
      rw split (omega (arith, longer, length-reverse xs))

  -- The newest `n` of a list read backwards are its last ones.
  take-reverse : (n : ℕ) (xs : List T) → take n (reverse xs) ≡ reverse (last_of n xs)
  take-reverse n xs =
      let k : ℕ = length xs - n in
      let split : reverse xs ≡ reverse (drop k xs) ++ reverse (take k xs) =
        ap (λ zs. reverse zs) (sym (take-drop k xs)) ∙ reverse-append (take k xs) (drop k xs) in
      let tail = length-drop k xs in
      let turned = length-reverse (drop k xs) in
      let merged = take-append n (reverse (drop k xs)) (reverse (take k xs)) in
      let whole : take n (reverse (drop k xs)) ≡ reverse (drop k xs) =
        take-all n (reverse (drop k xs)) (omega (arith, tail, turned)) in
      let nothing : take (n - length (reverse (drop k xs))) (reverse (take k xs)) ≡ [] =
        elim (Bool-cases (leb n (length xs))) [
          | inl enough ↦
              let none_left : n - length (reverse (drop k xs)) ≡ 0 =
                ground (arith, tail, turned, enough) in
              rw none_left refl
          | inr short ↦
              let no_front : k ≡ 0 = ground (arith, short) in
              rw no_front (take-all _ [] (omega arith))
        ] in
      ap (λ zs. take n zs) split ∙ (rw (merged, whole, nothing, append-nil) refl)

abbrev pub HasBlock : Log → Type 0
HasBlock log = (n : ℕ) × (log.block_number ≡ some n)

pub last-HasBlock :
    (log : Log) (logs : List Log)
    → All HasBlock (log ∷ logs)
    → (n : ℕ) × (last_block_number (log ∷ logs) ≡ some n)
last-HasBlock log [] h = h.0
last-HasBlock log (x ∷ logs) h = last-HasBlock x logs h.1

nonempty-reverse :
    (log : Log) (logs : List Log) → (x : Log) × (xs : List Log) × (reverse (log ∷ logs) ≡ x ∷ xs)
nonempty-reverse log logs = rw (reverse-cons log logs) (snoc_cases (reverse logs))
  where
    snoc_cases : (r : List Log) → (x : Log) × (xs : List Log) × (r ++ (log ∷ []) ≡ x ∷ xs)
    snoc_cases [] = (log, [], refl)
    snoc_cases (x ∷ xs) = (x, xs ++ (log ∷ []), refl)

module _ (logs_of : BlockRange → List Log) where
  -- The logs of ranges that came newest first, in the order of the chain.
  abbrev pub chronological : List BlockRange → List Log
  chronological [] = []
  chronological (range ∷ ranges) = chronological ranges ++ logs_of range

  abbrev newest_first : List BlockRange → List Log
  newest_first [] = []
  newest_first (range ∷ ranges) = reverse (logs_of range) ++ newest_first ranges

  newest_first-chronological :
      (ranges : List BlockRange) → newest_first ranges ≡ reverse (chronological ranges)
  newest_first-chronological [] = refl
  newest_first-chronological (range ∷ ranges) =
      let tail = newest_first-chronological ranges in
      let split = reverse-append (chronological ranges) (logs_of range) in rw (split, tail) refl

  module _ {W : Type 0} (env : Env W)
      (source : BlockRange → Call W (Result ProviderError (List Log))) (count : ℕ)
      (fetched : (range : BlockRange) (w : W) → (source range w).0 ≡ ok (logs_of range))
      (numbered : (range : BlockRange) → All HasBlock (logs_of range)) where
    -- The loop ends with the newest of `xs` and `later`.
    abbrev EndsWith : List BlockRange → List Log → List Log → W → Type 0
    EndsWith ranges xs later w =
        (w' : W) × (collect_latest env source count (map from_data ranges)
            (record { collected = take count xs; reorg_ancestor = none }) w
          ≡ (finished (some (take count (xs ++ later))), [], w'))

    EndsWith-range :
        (range : BlockRange) (ranges : List BlockRange) (xs logs : List Log) (w : W)
        → ((xs' : List Log) (w' : W) → EndsWith ranges xs' (newest_first ranges) w')
        → (source range w).0 ≡ ok logs
        → All HasBlock logs
        → EndsWith (range ∷ ranges) xs (reverse logs ++ newest_first ranges) w
    unfolding collect_latest get_logs pure call or_panic ◌>>=◌ still_recovering
    EndsWith-range range ranges xs [] w after e _ =
        let (w', later) = after xs ((source range w).1) in (w', rw e later)
    EndsWith-range range ranges xs (log ∷ logs) w after e blocks =
        let (n, at) = last-HasBlock log logs blocks in
        let more : List Log = xs ++ reverse (log ∷ logs) in
        let put = collect_logs-appended xs (log ∷ logs) count in
        let (w', later) = after more ((source range w).1) in
        elim (Bool-cases (leb count (length more))) [
          | inl full ↦
              let merged = take-append count more (newest_first ranges) in
              let none_left : count - length more ≡ 0 = ground (arith, full) in
              let kept : take count more ++ [] ≡ take count more = append-nil (take count more) in
              (
                (source range w).1,
                rw (e, at, put, full, ← append_assoc, merged, none_left, kept) refl,
              )
          | inr room ↦ (w', rw (e, at, put, room, ← append_assoc) later)
        ]

    collect_latest-EndsWith :
        (ranges : List BlockRange) (xs : List Log) (w : W)
        → EndsWith ranges xs (newest_first ranges) w
    unfolding collect_latest pure
    collect_latest-EndsWith [] xs w = (w, rw append-nil refl)
    collect_latest-EndsWith (range ∷ ranges) xs w =
        EndsWith-range range ranges xs (logs_of range) w (collect_latest-EndsWith ranges)
          (fetched range w) (numbered range)

-- What the listener is told in the end.
abbrev pub summary : List Log → LogItem
summary [] = from_notification Notification.no_past_logs_found
summary (log ∷ logs) = from_data (log ∷ logs)

-- An item went out once, or the listener was gone.
abbrev pub SentOnce : LogItem → List (Attempt LogItem) → Type 0
SentOnce item trace = (trace ≡ delivered item ∷ []) ⊎ (trace ≡ refused item ∷ [])

try_stream-SentOnce :
    {W : Type 0} (env : Env W) (item : LogItem) (w : W)
    → SentOnce item ((try_stream env item >> pure tt) w).1
unfolding try_stream pure ◌>>=◌
try_stream-SentOnce env item w = ground (arith)

send_collected-SentOnce :
    {W : Type 0} (env : Env W) (collected : List Log) (w : W)
    → SentOnce (summary (reverse collected)) (send_collected env collected w).1
unfolding send_collected
send_collected-SentOnce env [] w = try_stream-SentOnce env _ w
send_collected-SentOnce env (log ∷ logs) w =
    let (x, xs, e) = nonempty-reverse log logs in
    rw e (try_stream-SentOnce env (from_data (x ∷ xs)) w)

-- The listener of the latest-events mode is sent one item, whether or not it still listens: the
-- last `count` logs of all the ranges in the order of the chain, or that there are none. The
-- ranges come newest first, each is fetched, and every log has its block number.
pub stream_latest_sends_last :
    {W : Type 0} (env : Env W) (source : BlockRange → Call W (Result ProviderError (List Log)))
    (count : ℕ) (logs_of : BlockRange → List Log) (ranges : List BlockRange) (w : W)
    → ((range : BlockRange) (w' : W) → (source range w').0 ≡ ok (logs_of range))
    → ((range : BlockRange) → All HasBlock (logs_of range))
    → let sent = (stream_latest env source count (map from_data ranges) w).1 in
      SentOnce (summary (last_of count (chronological logs_of ranges))) sent
unfolding stream_latest ◌>>=◌
stream_latest_sends_last env source count logs_of ranges w fetched numbered =
    let (w', ended) =
      collect_latest-EndsWith logs_of env source count fetched numbered ranges [] w in
    let newest = newest_first-chronological logs_of ranges in
    let backwards = take-reverse count (chronological logs_of ranges) in
    let turned = reverse-reverse (last_of count (chronological logs_of ranges)) in
    let collected : List Log = reverse (last_of count (chronological logs_of ranges)) in
    let sends = send_collected-SentOnce env collected w' in
    let empty : take {A = Log} count [] ≡ [] = take-all count [] (omega arith) in
    let ended' = rw (empty, newest, backwards) at ended in rw ended' (rw turned at sends)
