-- ===== src/BlockRangeHandler/Pipeline/Refine.antt =====
-- However the two tasks are interleaved, the listener is sent what processing in turn would send.
use event_scanner.Prelude.{
  ℕ, ◌≤◌, ◌≡◌, inl, inr, refl, List, [], ◌∷◌, ◌++◌, map, append-nil, append_assoc, length,
  length-append, ltb, Bool-cases, arith,
}
use event_scanner.Types.{Result, ProviderError, ChannelState, open_channel, closed_channel}
use event_scanner.Env.{Env, Call}
use event_scanner.Task.{Progress, Attempt, finished, pure, ◌>>=◌}
use event_scanner.RangeIterator.{BlockRange}
use event_scanner.RangeStream.{Item}
use event_scanner.BlockRangeHandler.{Log, LogItem, stream_logs}
use event_scanner.BlockRangeHandler.Pipeline.{
  Received, item_of, Forwarder, looping, closed, expect_failed, Processor, working, stream_ended,
  listener_left, crashed, Pipeline, start, Turn, forward, process, after, process_one, turn, run,
}
use event_scanner.BlockRangeHandler.Pipeline.Processing.{process_one-finished, stream_logs-cons}

abbrev pub state :
    {V : Type 0}
    → Forwarder
    → Processor
    → List Received
    → List Item
    → List (Attempt LogItem)
    → V
    → Pipeline V
state f p pending channel sent v = record {
  pending = pending;
  channel = channel;
  forwarder = f;
  processor = p;
  sent = sent;
  world = v;
}

-- A run after what has been sent already.
abbrev ahead :
    {V A : Type 0}
    → List (Attempt LogItem)
    → Progress A × List (Attempt LogItem) × V
    → Progress A × List (Attempt LogItem) × V
ahead t (o, t', v) = (o, t ++ t', v)

-- While the processing task works, the forwarding loop has not failed, and has ended only once
-- nothing is left to receive.
abbrev pub IsAlive : Forwarder → List Received → Type 0
IsAlive looping pending = Unit
IsAlive closed pending = pending ≡ []
IsAlive expect_failed pending = ⊥

abbrev pub HasClosed : Forwarder → Type 0
HasClosed looping = ⊥
HasClosed closed = Unit
HasClosed expect_failed = ⊥

module _ {V : Type 0} (env : Env V)
    (provider_get_logs : BlockRange → Call V (Result ProviderError (List Log)))
    (received : List Received) (v₀ : V) where
  -- Processing all that is received, in turn.
  abbrev pub in_turn : Progress (Unit {0}) × List (Attempt LogItem) × V
  in_turn = stream_logs env provider_get_logs (map item_of received) v₀

  -- What has been sent is what processing in turn sends up to here, and all of it once the
  -- processing task has returned.
  abbrev pub Agrees : Processor → Pipeline V → Type 0
  Agrees working s =
      (in_turn
        ≡ ahead s.sent
            (stream_logs env provider_get_logs (s.channel ++ map item_of s.pending) s.world))
      × IsAlive s.forwarder s.pending
  Agrees stream_ended s = (in_turn ≡ (finished tt, s.sent, s.world)) × HasClosed s.forwarder
  Agrees listener_left s = in_turn ≡ (finished tt, s.sent, s.world)
  Agrees crashed s = ⊥

  abbrev pub InStep : ℕ → Pipeline V → Type 0
  InStep capacity s = (length s.channel ≤ capacity) × Agrees s.processor s

  forward-InStep :
      (capacity : ℕ) (f : Forwarder) (p : Processor) (pending : List Received) (channel : List Item)
      (sent : List (Attempt LogItem)) (v : V)
      → InStep capacity (state f p pending channel sent v)
      → InStep capacity
          (turn env provider_get_logs capacity forward (state f p pending channel sent v))
  forward-InStep capacity looping working [] channel sent v (room, (e, alive)) = (room, (e, refl))
  forward-InStep capacity looping working (r ∷ rs) channel sent v (room, (e, alive)) =
      elim (Bool-cases (ltb (length channel) capacity)) [
        | inl free ↦
            let longer = length-append channel (item_of r ∷ []) in
            rw free (ground (arith, longer, free), (rw append_assoc e, tt))
        | inr full ↦ rw full (room, (e, tt))
      ]
  forward-InStep capacity looping stream_ended [] channel sent v (room, (e, bad)) = absurd bad
  forward-InStep capacity looping stream_ended (r ∷ rs) channel sent v (room, (e, bad)) = absurd bad
  forward-InStep capacity looping listener_left [] channel sent v (room, e) = (room, e)
  forward-InStep capacity looping listener_left (r ∷ rs) channel sent v (room, e) = (room, e)
  forward-InStep capacity looping crashed pending channel sent v (room, bad) = absurd bad
  forward-InStep capacity closed p pending channel sent v h = h
  forward-InStep capacity expect_failed p pending channel sent v h = h

  -- One message was processed.
  processed :
      (f : Forwarder) (pending : List Received) (item : Item) (items : List Item)
      (sent : List (Attempt LogItem)) (v : V) (c : ChannelState) (t : List (Attempt LogItem))
      (v' : V)
      → process_one env provider_get_logs item v ≡ (finished c, t, v')
      → Agrees working (state f working pending (item ∷ items) sent v)
      → Agrees (after (finished c)) (state f (after (finished c)) pending items (sent ++ t) v')
  unfolding pure ◌>>=◌
  processed f pending item items sent v open_channel t v' e (agrees, alive) =
      let one = stream_logs-cons env provider_get_logs item (items ++ map item_of pending) v in
      (rw (one, e, ← append_assoc) at agrees, alive)
  processed f pending item items sent v closed_channel t v' e (agrees, alive) =
      let one = stream_logs-cons env provider_get_logs item (items ++ map item_of pending) v in
      rw (one, e, append-nil) at agrees

  process-InStep :
      (capacity : ℕ) (f : Forwarder) (p : Processor) (pending : List Received) (channel : List Item)
      (sent : List (Attempt LogItem)) (v : V)
      → InStep capacity (state f p pending channel sent v)
      → InStep capacity
          (turn env provider_get_logs capacity process (state f p pending channel sent v))
  unfolding stream_logs pure
  process-InStep capacity f working pending (item ∷ items) sent v (room, agrees) =
      let (c, t, v', e) = process_one-finished env provider_get_logs item v in
      rw e (omega arith, processed f pending item items sent v c t v' e agrees)
  process-InStep capacity looping working pending [] sent v h = h
  process-InStep capacity closed working pending [] sent v (room, (agrees, none_left)) =
      (room, (rw (none_left, append-nil) at agrees, tt))
  process-InStep capacity expect_failed working pending [] sent v (room, (agrees, bad)) = absurd bad
  process-InStep capacity f stream_ended pending channel sent v h = h
  process-InStep capacity f listener_left pending channel sent v h = h
  process-InStep capacity f crashed pending channel sent v h = h

  run_from-InStep :
      (capacity : ℕ) (schedule : List Turn) (s : Pipeline V)
      → InStep capacity s
      → InStep capacity (run env provider_get_logs capacity schedule s)
  unfolding run
  run_from-InStep capacity [] s h = h
  run_from-InStep capacity (forward ∷ ts) s h =
      run_from-InStep capacity ts _
        (forward-InStep capacity s.forwarder s.processor s.pending s.channel s.sent s.world h)
  run_from-InStep capacity (process ∷ ts) s h =
      run_from-InStep capacity ts _
        (process-InStep capacity s.forwarder s.processor s.pending s.channel s.sent s.world h)

-- However the two tasks of a listener take turns: the channel holds no more than its capacity, the
-- processing task has sent what processing the messages one after the other sends up to there, and
-- all of that once it has returned, and the forwarding loop fails its `expect` only once the
-- processing task has returned because the listener left.
pub run-InStep :
    {V : Type 0} (env : Env V)
    (provider_get_logs : BlockRange → Call V (Result ProviderError (List Log)))
    (received : List Received) (capacity : ℕ) (schedule : List Turn) (v : V)
    → InStep env provider_get_logs received v capacity
        (run env provider_get_logs capacity schedule (start received v))
run-InStep env provider_get_logs received capacity schedule v =
    run_from-InStep env provider_get_logs received v capacity schedule (start received v)
      (omega arith, (refl, tt))
