-- ===== src/BlockRangeHandler/Pipeline/Unjoined.antt =====
-- `broadcast_stream` joins the forwarding loops only: what they leave behind.
use event_scanner.Prelude.{
  ℕ, zero, suc, ◌+◌, ◌≤◌, ◌≡◌, refl, true, List, [], ◌∷◌, ◌++◌, append-nil, append_assoc, map,
  length, length-append, ltb, arith,
}
use event_scanner.Types.{Result, ProviderError}
use event_scanner.Env.{Env, Call}
use event_scanner.RangeIterator.{BlockRange}
use event_scanner.RangeStream.{Item}
use event_scanner.BlockRangeHandler.{Log}
use event_scanner.BlockRangeHandler.Pipeline.{
  Received, item_of, looping, closed, working, start, Turn, forward, run,
}
use event_scanner.BlockRangeHandler.Pipeline.Refine.{state}

-- The forwarding loop takes this many turns in a row.
abbrev pub forwards : ℕ → List Turn
forwards zero = []
forwards (suc n) = forward ∷ forwards n

module _ {V : Type 0} (env : Env V)
    (provider_get_logs : BlockRange → Call V (Result ProviderError (List Log))) (capacity : ℕ) where
  forwarded :
      (rs : List Received) (channel : List Item) (v : V)
      → length channel + length rs ≤ capacity
      → run env provider_get_logs capacity
          (forwards (suc (length rs)))
          (state looping working rs channel [] v)
        ≡ state closed working [] (channel ++ map item_of rs) [] v
  unfolding run
  forwarded [] channel v fits = rw append-nil refl
  forwarded (r ∷ rs) channel v fits =
      let room : ltb (length channel) capacity ≡ true = ground (arith, fits) in
      let longer = length-append channel (item_of r ∷ []) in
      rw (run, room)
        (rw append_assoc at
          (forwarded rs (channel ++ (item_of r ∷ [])) v (omega (arith, fits, longer))))

-- The forwarding loop, which the broadcast waits for, can end before anything is processed: where
-- what it receives fits the channel, it has ended after one turn more than there are messages, while
-- the processing task, which the broadcast does not wait for, still has all of them before it and has
-- sent nothing.
pub forwarding_ends_first :
    {V : Type 0} (env : Env V)
    (provider_get_logs : BlockRange → Call V (Result ProviderError (List Log))) (capacity : ℕ)
    (received : List Received) (v : V)
    → length received ≤ capacity
    → let s =
        run env provider_get_logs capacity (forwards (suc (length received))) (start received v) in
      (s.forwarder ≡ closed)
      × (s.processor ≡ working)
      × (s.channel ≡ map item_of received)
      × (s.sent ≡ [])
forwarding_ends_first env provider_get_logs capacity received v fits =
    rw (forwarded env provider_get_logs capacity received [] v (omega (arith, fits)))
      (refl, refl, refl, refl)
