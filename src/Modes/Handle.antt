-- ===== src/Modes/Handle.antt =====
-- src/event_scanner/block_range_handler.rs: `StreamHandler::spawn` and `StreamHandler::handle`, for
-- all listeners of a handler.
use event_scanner.Prelude.{ℕ, ◌≤◌, ◌<◌, ◌≡◌, refl, ap, Bool, List, [], ◌∷◌, map, All, length, some}
use event_scanner.Types.{Result, ProviderError}
use event_scanner.Env.{Env, Call}
use event_scanner.Task.{Progress, finished}
use event_scanner.Task.Hoare.{Trace}
use event_scanner.Task.Total.{Sends}
use event_scanner.RangeIterator.{BlockRange}
use event_scanner.RangeStream.{Item}
use event_scanner.BlockRangeHandler.{Log, stream_logs}
use event_scanner.BlockRangeHandler.Pipeline.{Received, Pipeline, Turn, start, run}
use event_scanner.BlockRangeHandler.Pipeline.Rounds.{HasEnded, rounds}
use event_scanner.BlockRangeHandler.Broadcast.{
  all_finished, broadcast_stream, received_from, broadcast_stream-Total, broadcast_stream_reaches,
}
use event_scanner.EventScanner.{EventListener}
use event_scanner.Modes.{StreamHandler}

-- A listener with its two tasks.
abbrev pub Consumer : Type 0 → Type 0 → Type 0 → Type 0
Consumer V F S = EventListener F S × Pipeline V

-- `recv` is what a receiver of tokio's broadcast channel gets of what is sent. `schedule` and `worlds`
-- are the turns that the tasks of a listener take, and the outside that they meet.
module _ {W V F S : Type 0} (env : Env W) (join_all : Call W (List Bool)) (listening : Env V)
    (logs_for : F → BlockRange → Call V (Result ProviderError (List Log)))
    (recv : Trace Item → List Received) (schedule : EventListener F S → List Turn)
    (worlds : EventListener F S → V) where
  -- `spawn`: each listener's tasks, on what is broadcast to them.
  unfoldable pub spawn : StreamHandler F S → Trace Item → List (Consumer V F S)
  spawn handler broadcast =
      map
        (λ (listener : EventListener F S). (
          listener,
          run listening (logs_for listener.filter) handler.max_concurrent_fetches
              (schedule listener) (start (recv broadcast) (worlds listener)),
        ))
        handler.listeners

  -- `handle`: how it ends, and what it leaves of the consumers.
  unfoldable pub handle :
      StreamHandler F S → List Item → W → Progress (Unit {0}) × List (Consumer V F S)
  unfolding spawn broadcast_stream
  handle handler items w =
      let (outcome, broadcast, w') = broadcast_stream env join_all items w in
      (outcome, spawn handler broadcast)

All-map :
    {A B : Type 0} (P : B → Type 0) (f : A → B) (xs : List A)
    → ((x : A) → P (f x))
    → All P (map f xs)
All-map P f [] h = tt
All-map P f (x ∷ xs) h = (h x, All-map P f xs h)

firsts :
    {A B : Type 0} (f : A → B) (xs : List A)
    → map (λ (p : A × B). p.0) (map (λ x. (x, f x)) xs) ≡ xs
firsts f [] = refl
firsts f (x ∷ xs) = ap (λ ys. x ∷ ys) (firsts f xs)

-- Both tasks of a listener have ended, and it was sent what processing the items with its filter one
-- after the other sends.
abbrev pub IsServed :
    {V F S : Type 0}
    → Env V
    → (F → BlockRange → Call V (Result ProviderError (List Log)))
    → (EventListener F S → V)
    → List Item
    → Consumer V F S
    → Type 0
IsServed listening logs_for worlds items (listener, s) =
    HasEnded s
    × (stream_logs listening (logs_for listener.filter) items (worlds listener)
        ≡ (finished tt, s.sent, s.world))

-- While no consumer drops its receiver, lags or panics and its two tasks take turns, one round more
-- than there are items, a streaming handler ends and has served every one of its listeners, in the
-- order they were added: each was sent what processing the items of the stream, one after the other
-- and with its own filter, sends.
pub handle_serves :
    {W V F S : Type 0} (env : Env W) (join_all : Call W (List Bool)) (listening : Env V)
    (logs_for : F → BlockRange → Call V (Result ProviderError (List Log)))
    (recv : Trace Item → List Received) (worlds : EventListener F S → V)
    (handler : StreamHandler F S) (items : List Item) (n : ℕ) (w : W)
    → Sends env ⊥
    → ((w' : W) → all_finished (join_all w').0 ≡ some tt)
    → ((t : Trace Item) → recv t ≡ received_from t)
    → 1 ≤ handler.max_concurrent_fetches
    → length items < n
    → let (outcome, consumers) =
        handle env join_all listening logs_for recv (λ listener. rounds n) worlds handler items w in
      (outcome ≡ finished tt)
      × (map (λ (c : Consumer V F S). c.0) consumers ≡ handler.listeners)
      × All (IsServed listening logs_for worlds items) consumers
unfolding handle spawn
handle_serves {F = F} {S = S} env join_all listening logs_for recv worlds handler items n w sends
      joined keeps_up some_room enough =
    let (_, t, w', ran, all) = (broadcast_stream-Total env join_all sends joined items).run w in
    let served : (l : EventListener F S)
        → IsServed listening logs_for worlds items (
          l,
          run listening (logs_for l.filter) handler.max_concurrent_fetches (rounds n)
              (start (recv t) (worlds l)),
        ) =
      λ l.
        let (_, ended, same) =
          broadcast_stream_reaches env join_all listening (logs_for l.filter) items
            handler.max_concurrent_fetches n w (worlds l) sends joined some_room enough in
        rw (keeps_up t) (rw ran at ended, rw ran at same) in
    rw ran (
      refl,
      firsts _ handler.listeners,
      All-map (IsServed listening logs_for worlds items) _ handler.listeners served,
    )
