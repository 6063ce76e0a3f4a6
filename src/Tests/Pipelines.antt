-- ===== src/Tests/Pipelines.antt =====
-- The two tasks of a listener, and the store of a reorg handler, over the small chain.
use event_scanner.Prelude.{ℕ, ◌≡◌, refl, some, List, [], ◌∷◌, arith, map, false}
use event_scanner.Types.{Result, ok, ProviderError, Notification, from_data, from_notification}
use event_scanner.Env.{Env, Call}
use event_scanner.Task.{finished, panicked, ◌>>=◌, pure, call, try_stream, or_panic}
use event_scanner.RangeIterator.{BlockRange}
use event_scanner.RingBuffer.{limited}
use event_scanner.ReorgHandler.{new}
use event_scanner.ReorgHandler.Bounds.{Holds, check_each, check_each-Holds}
use event_scanner.BlockRangeHandler.{Log, get_logs}
use event_scanner.BlockRangeHandler.Pipeline.{
  Received, message, lagged, item_of, closed, working, expect_failed, listener_left, Turn, forward,
  process, start, run, process_one,
}
use event_scanner.BlockRangeHandler.Pipeline.Refine.{InStep, in_turn, run-InStep}
use event_scanner.BlockRangeHandler.Pipeline.Rounds.{HasEnded, rounds, rounds_end}
use event_scanner.BlockRangeHandler.Pipeline.Unjoined.{forwards, forwarding_ends_first}
use event_scanner.BlockRangeHandler.Broadcast.{
  forward_latest, IsHandedOver, forward_latest-IsHandedOver,
}
use event_scanner.Tests.World.{block_at, chain_world}

abbrev logs_of : BlockRange → Call ℕ (Result ProviderError (List Log))
logs_of range w = (ok (record { block_number = some range.start; content = 7 } ∷ []), w)

-- A range, a lag of two messages, and a notification.
abbrev received : List Received
received =
    message (from_data (record { start = 3; end = 4 }))
    ∷ lagged 2
    ∷ message (from_notification Notification.switching_to_live)
    ∷ []

abbrev schedule : List Turn
schedule = forward ∷ forward ∷ process ∷ forward ∷ process ∷ process ∷ forward ∷ []

run-InStep_example :
    InStep chain_world logs_of received 0 1 (run chain_world logs_of 1 schedule (start received 0))
run-InStep_example = run-InStep chain_world logs_of received 1 schedule 0

rounds_end_example :
    let s = run chain_world logs_of 1 (rounds 4) (start received 0) in
    HasEnded s × (in_turn chain_world logs_of received 0 ≡ (finished tt, s.sent, s.world))
rounds_end_example = rounds_end chain_world logs_of received 1 4 0 (omega arith) (omega arith)

-- The listener has left: the second message that is forwarded makes the `expect` fail.
abbrev deserted : Env ℕ
deserted = record chain_world { send_is_ok = λ w. (false, w) }

expect_fails :
    let s = run deserted logs_of 1 (rounds 2) (start received 0) in
    (s.forwarder ≡ expect_failed) × (s.processor ≡ listener_left)
unfolding run process_one get_logs ◌>>=◌ pure call try_stream
expect_fails = (refl, refl)

check_each-Holds_example :
    Holds
      (limited 2)
      (check_each chain_world
        (block_at 100 ∷ block_at 101 ∷ block_at 102 ∷ [])
        (new (limited 2))
        0).0
check_each-Holds_example =
    check_each-Holds chain_world (limited 2) (block_at 100 ∷ block_at 101 ∷ block_at 102 ∷ []) 0

-- A lag after the processing task is gone.
lag_panics : (forward_latest deserted (lagged 2 ∷ []) 0).0 ≡ panicked
unfolding forward_latest ◌>>=◌ try_stream or_panic
lag_panics = refl

forward_latest-IsHandedOver_example :
    let (outcome, sent, _) = forward_latest deserted received 0 in
    IsHandedOver received outcome sent
forward_latest-IsHandedOver_example = forward_latest-IsHandedOver deserted received 0

forwarding_ends_first_example :
    let s = run chain_world logs_of 3 (forwards 4) (start received 0) in
    (s.forwarder ≡ closed)
    × (s.processor ≡ working)
    × (s.channel ≡ map item_of received)
    × (s.sent ≡ [])
forwarding_ends_first_example = forwarding_ends_first chain_world logs_of 3 received 0 (omega arith)
