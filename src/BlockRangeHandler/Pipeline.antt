-- ===== src/BlockRangeHandler/Pipeline.antt =====
-- The two tasks that `StreamHandler::spawn` runs for a listener, and the bounded channel between
-- them: the loop that forwards what is broadcast, and the one that processes it. `buffered` keeps the
-- order, so a range counts as processed in the turn that takes it from the channel.
pub mod Processing
pub mod Refine
pub mod Rounds
pub mod Unjoined
use event_scanner.Prelude.{ℕ, zero, suc, List, [], ◌∷◌, ◌++◌, map, length, ltb, if◌then◌else◌}
use event_scanner.Types.{
  Result, ok, err, ProviderError, ScannerError, data_of, ChannelState, open_channel, closed_channel,
  from_error,
}
use event_scanner.Env.{Env, Call}
use event_scanner.Task.{
  Task, Progress, Attempt, finished, running, panicked, pure, ◌>>=◌, try_stream,
}
use event_scanner.RangeIterator.{BlockRange}
use event_scanner.RangeStream.{Item}
use event_scanner.BlockRangeHandler.{Log, LogItem, get_logs}

-- An answer of `recv` of tokio's broadcast channel, until it is closed.
pub data Received : Type 0 where
  message : Item → Received
  lagged : ℕ → Received

-- What the forwarding loop makes of it.
abbrev pub item_of : Received → Item
item_of (message item) = item
item_of (lagged skipped) = from_error (ScannerError.lagged skipped)

pub data Forwarder : Type 0 where
  looping closed expect_failed : Forwarder

-- `stream_ended`: the channel is closed and empty. `listener_left`: it returned early.
pub data Processor : Type 0 where
  working stream_ended listener_left crashed : Processor

pub record Pipeline (V : Type 0) : Type 0 where
  -- what the forwarding loop will still receive
  pub pending : List Received
  -- the channel, oldest first
  pub channel : List Item
  pub forwarder : Forwarder
  pub processor : Processor
  -- what the processing task has sent to the listener
  pub sent : List (Attempt LogItem)
  pub world : V

abbrev pub start : {V : Type 0} → List Received → V → Pipeline V
start received v = record {
  pending = received;
  channel = [];
  forwarder = looping;
  processor = working;
  sent = [];
  world = v;
}

pub data Turn : Type 0 where
  forward process : Turn

-- One turn of the forwarding loop. A send waits while the channel is full, and fails once the
-- processing task has returned.
abbrev pub forward_turn :
    {V : Type 0} → ℕ → Forwarder → Processor → List Received → Pipeline V → Pipeline V
forward_turn capacity looping p [] s = record s { forwarder = closed }
forward_turn capacity looping working (r ∷ rs) s =
    if ltb (length s.channel) capacity
    then record s { pending = rs; channel = s.channel ++ (item_of r ∷ []) }
    else s
forward_turn capacity looping stream_ended (r ∷ rs) s = record s {
  pending = rs;
  forwarder = expect_failed;
}
forward_turn capacity looping listener_left (r ∷ rs) s = record s {
  pending = rs;
  forwarder = expect_failed;
}
forward_turn capacity looping crashed (r ∷ rs) s = record s {
  pending = rs;
  forwarder = expect_failed;
}
forward_turn capacity closed p rs s = s
forward_turn capacity expect_failed p rs s = s

abbrev pub after : Progress ChannelState → Processor
after (finished open_channel) = working
after (finished closed_channel) = listener_left
after running = crashed
after panicked = crashed

module _ {V : Type 0} (env : Env V)
    (provider_get_logs : BlockRange → Call V (Result ProviderError (List Log))) where
  -- What becomes of the logs of a range, or of another message.
  abbrev pub send_result : LogItem → Task LogItem V ChannelState
  send_result (ok (data_of [])) = pure open_channel
  send_result item = try_stream env item

  unfoldable pub process_one : Item → Task LogItem V ChannelState
  unfolding get_logs
  process_one item = do result ← get_logs env provider_get_logs item; send_result result

  -- One turn of the processing loop. It waits while the channel is empty and not closed.
  abbrev pub process_turn : Forwarder → Processor → List Item → Pipeline V → Pipeline V
  process_turn f working (item ∷ items) s =
      let (outcome, sent, v) = process_one item s.world in
      record s { channel = items; processor = after outcome; sent = s.sent ++ sent; world = v }
  process_turn looping working [] s = s
  process_turn closed working [] s = record s { processor = stream_ended }
  process_turn expect_failed working [] s = record s { processor = stream_ended }
  process_turn f stream_ended items s = s
  process_turn f listener_left items s = s
  process_turn f crashed items s = s

  abbrev pub turn : ℕ → Turn → Pipeline V → Pipeline V
  turn capacity forward s = forward_turn capacity s.forwarder s.processor s.pending s
  turn capacity process s = process_turn s.forwarder s.processor s.channel s

  -- The tasks take turns in any order.
  unfoldable pub run : ℕ → List Turn → Pipeline V → Pipeline V
  run capacity [] s = s
  run capacity (t ∷ ts) s = run capacity ts (turn capacity t s)
