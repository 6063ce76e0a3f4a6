-- ===== src/BlockRangeHandler/Pipeline/Rounds.antt =====
-- Taking turns, the two tasks of a listener end.
use event_scanner.Prelude.{
  ℕ, zero, suc, ◌≤◌, ◌<◌, ◌≡◌, refl, sym, subst, true, List, [], ◌∷◌, ◌++◌, length, ltb, arith,
}
use event_scanner.Types.{Result, ProviderError, ChannelState, open_channel, closed_channel}
use event_scanner.Env.{Env, Call}
use event_scanner.Task.{Attempt, finished}
use event_scanner.RangeIterator.{BlockRange}
use event_scanner.RangeStream.{Item}
use event_scanner.BlockRangeHandler.{Log, LogItem}
use event_scanner.BlockRangeHandler.Pipeline.{
  Received, item_of, Forwarder, looping, closed, expect_failed, Processor, working, stream_ended,
  listener_left, Pipeline, start, Turn, forward, process, after, turn, run,
}
use event_scanner.BlockRangeHandler.Pipeline.Refine.{in_turn, Agrees, state, run-InStep}
use event_scanner.BlockRangeHandler.Pipeline.Processing.{process_one-finished}

abbrev pub rounds : ℕ → List Turn
rounds zero = []
rounds (suc n) = forward ∷ process ∷ rounds n

-- Both tasks have ended.
pub data IsOver : Forwarder → Processor → Type 0 where
  all_processed : IsOver closed stream_ended
  left : IsOver closed listener_left
  left_before_the_end : IsOver expect_failed listener_left

abbrev pub HasEnded : {V : Type 0} → Pipeline V → Type 0
HasEnded s = IsOver s.forwarder s.processor

module _ {V : Type 0} (env : Env V)
    (provider_get_logs : BlockRange → Call V (Result ProviderError (List Log))) (capacity : ℕ)
    (some_room : 1 ≤ capacity) where
  stays :
      (n : ℕ) (f : Forwarder) (p : Processor) (pending : List Received) (channel : List Item)
      (sent : List (Attempt LogItem)) (v : V)
      → IsOver f p
      → HasEnded (run env provider_get_logs capacity (rounds n) (state f p pending channel sent v))
  unfolding run
  stays zero f p pending channel sent v over = over
  stays (suc n) f p pending channel sent v all_processed =
      stays n _ _ pending channel sent v all_processed
  stays (suc n) f p pending channel sent v left = stays n _ _ pending channel sent v left
  stays (suc n) f p pending channel sent v left_before_the_end =
      stays n _ _ pending channel sent v left_before_the_end

  after_leaving :
      (n : ℕ) (pending : List Received) (channel : List Item) (sent : List (Attempt LogItem))
      (v : V)
      → 1 ≤ n
      → HasEnded (
          run env provider_get_logs capacity
            (rounds n)
            (state looping listener_left pending channel sent v))
  unfolding run
  after_leaving zero pending channel sent v more = absurd (omega arith)
  after_leaving (suc n) [] channel sent v more = stays n _ _ [] channel sent v left
  after_leaving (suc n) (r ∷ rs) channel sent v more =
      stays n _ _ rs channel sent v left_before_the_end

  after_one :
      (n : ℕ) (rs : List Received) (sent : List (Attempt LogItem)) (c : ChannelState)
      (t : List (Attempt LogItem)) (v : V)
      → 1 ≤ n
      → ((sent' : List (Attempt LogItem)) (v' : V)
          → HasEnded (
              run env provider_get_logs capacity (rounds n) (state looping working rs [] sent' v')))
      → HasEnded (
          run env provider_get_logs capacity
            (rounds n)
            (state looping (after (finished c)) rs [] (sent ++ t) v))
  after_one n rs sent open_channel t v more later = later (sent ++ t) v
  after_one n rs sent closed_channel t v more later = after_leaving n rs [] (sent ++ t) v more

  forwarded :
      (r : Received) (rs : List Received) (sent : List (Attempt LogItem)) (v : V)
      → turn env provider_get_logs capacity forward (state looping working (r ∷ rs) [] sent v)
        ≡ state looping working rs (item_of r ∷ []) sent v
  forwarded r rs sent v = let free : ltb 0 capacity ≡ true = ground arith in rw free refl

  rounds-HasEnded :
      (n : ℕ) (pending : List Received) (sent : List (Attempt LogItem)) (v : V)
      → length pending < n
      → HasEnded
          (run env provider_get_logs capacity (rounds n) (state looping working pending [] sent v))
  unfolding run
  rounds-HasEnded zero pending sent v enough = absurd (omega arith)
  rounds-HasEnded (suc n) [] sent v enough = stays n _ _ [] [] sent v all_processed
  rounds-HasEnded (suc n) (r ∷ rs) sent v enough =
      let (c, t, v', e) = process_one-finished env provider_get_logs (item_of r) v in
      let went : turn env provider_get_logs capacity process
            (state looping working rs (item_of r ∷ []) sent v)
          ≡ state looping (after (finished c)) rs [] (sent ++ t) v' =
        rw e refl in
      let later =
        after_one n rs sent c t v' (omega arith)
          (λ sent' v''. rounds-HasEnded n rs sent' v'' (omega arith)) in
      subst (λ s. HasEnded (run env provider_get_logs capacity (process ∷ rounds n) s))
        (sym (forwarded r rs sent v))
        (subst (λ s. HasEnded (run env provider_get_logs capacity (rounds n) s)) (sym went) later)

-- A processing task that has ended has sent everything.
sent_all :
    {V : Type 0} (env : Env V)
    (provider_get_logs : BlockRange → Call V (Result ProviderError (List Log)))
    (received : List Received) (v₀ : V) (f : Forwarder) (p : Processor) (pending : List Received)
    (channel : List Item) (sent : List (Attempt LogItem)) (v : V)
    → Agrees env provider_get_logs received v₀ p (state f p pending channel sent v)
    → IsOver f p
    → in_turn env provider_get_logs received v₀ ≡ (finished tt, sent, v)
sent_all env provider_get_logs received v₀ f p pending channel sent v agrees all_processed =
    agrees.0
sent_all env provider_get_logs received v₀ f p pending channel sent v agrees left = agrees
sent_all env provider_get_logs received v₀ f p pending channel sent v agrees left_before_the_end =
    agrees

-- If the two tasks take turns and the channel has room for a message, both end, within one round more
-- than there are messages, and the listener was sent what processing them one after the other sends.
pub rounds_end :
    {V : Type 0} (env : Env V)
    (provider_get_logs : BlockRange → Call V (Result ProviderError (List Log)))
    (received : List Received) (capacity n : ℕ) (v : V)
    → 1 ≤ capacity
    → length received < n
    → let s = run env provider_get_logs capacity (rounds n) (start received v) in
      HasEnded s × (in_turn env provider_get_logs received v ≡ (finished tt, s.sent, s.world))
rounds_end env provider_get_logs received capacity n v some_room enough =
    let ended = rounds-HasEnded env provider_get_logs capacity some_room n received [] v enough in
    (
      ended,
      sent_all env provider_get_logs received v _ _ _ _ _ _
          (run-InStep env provider_get_logs received capacity (rounds n) v).1 ended,
    )
