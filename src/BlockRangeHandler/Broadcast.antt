-- ===== src/BlockRangeHandler/Broadcast.antt =====
-- `broadcast_stream`, and the loop with which `LatestEventsHandler::spawn` forwards what is broadcast.
use event_scanner.Prelude.{
  Bool, true, false, Option, none, some, ◌≡◌, inl, inr, refl, ap, ℕ, ◌≤◌, ◌<◌, length, arith, List,
  [], ◌∷◌, map, Bool-cases,
}
use event_scanner.Types.{
  Result, ProviderError, ScannerError, open_channel, closed_channel, from_error,
}
use event_scanner.Env.{Env, Call}
use event_scanner.Task.{
  Task, Progress, delivered, refused, finished, panicked, pure, call, or_panic, ◌>>=◌, try_stream,
}
use event_scanner.Task.Hoare.{Trace}
use event_scanner.Task.Total.{
  Total, call-Total, weaken-Total, bind-Total, Sends, IfOpen, try_stream-Total,
}
use event_scanner.RangeIterator.{BlockRange}
use event_scanner.BlockRangeHandler.{Log, stream_logs}
use event_scanner.RangeStream.{Item}
use event_scanner.BlockRangeHandler.Pipeline.{Received, message, lagged, item_of, start, run}
use event_scanner.BlockRangeHandler.Pipeline.Rounds.{HasEnded, rounds, rounds_end}

module _ {W : Type 0} (env : Env W) where
  -- The loop of `LatestEventsHandler::spawn`; the world's channel is the one to the processing task.
  -- Its `expect` on a lag is `or_panic none`.
  unfoldable pub forward_latest : List Received → Task Item W (Unit {0})
  forward_latest [] = pure tt
  forward_latest (message item ∷ rs) = do
    state ← try_stream env item
    elim state [ open_channel ↦ forward_latest rs | closed_channel ↦ pure tt ]
  forward_latest (lagged skipped ∷ rs) = do
    state ← try_stream env (from_error (ScannerError.lagged skipped))
    elim state [ open_channel ↦ forward_latest rs | closed_channel ↦ or_panic none ]

-- What was forwarded, in order, and how the loop ends: once nothing is left, or where the processing
-- task is gone, quietly with a message and by a panic with a lag.
abbrev pub IsHandedOver : List Received → Progress (Unit {0}) → Trace Item → Type 0
IsHandedOver [] o [] = o ≡ finished tt
IsHandedOver [] o (a ∷ t) = ⊥
IsHandedOver (r ∷ rs) o [] = ⊥
IsHandedOver (r ∷ rs) o (delivered item ∷ t) = (item ≡ item_of r) × IsHandedOver rs o t
IsHandedOver (message m ∷ rs) o (refused item ∷ t) = (item ≡ m) × (t ≡ []) × (o ≡ finished tt)
IsHandedOver (lagged n ∷ rs) o (refused item ∷ t) =
    (item ≡ from_error (ScannerError.lagged n)) × (t ≡ []) × (o ≡ panicked)

-- The forwarding loop of the latest-events handler hands every message on in order, a lag as an
-- error, until nothing is left or the processing task is gone. It is gone as soon as the count is
-- reached: then the loop ends quietly with the next message, but a lag makes it panic.
pub forward_latest-IsHandedOver :
    {W : Type 0} (env : Env W) (rs : List Received) (w : W)
    → let (outcome, sent, _) = forward_latest env rs w in IsHandedOver rs outcome sent
unfolding forward_latest try_stream pure or_panic ◌>>=◌
forward_latest-IsHandedOver env [] w = refl
forward_latest-IsHandedOver env (message item ∷ rs) w = elim (Bool-cases (env.send_is_ok w).0) [
  | inl sent ↦ rw sent (refl, forward_latest-IsHandedOver env rs (env.send_is_ok w).1)
  | inr gone ↦ rw gone (refl, refl, refl)
]
forward_latest-IsHandedOver env (lagged n ∷ rs) w = elim (Bool-cases (env.send_is_ok w).0) [
  | inl sent ↦ rw sent (refl, forward_latest-IsHandedOver env rs (env.send_is_ok w).1)
  | inr gone ↦ rw gone (refl, refl, refl)
]

-- `JoinSet::join_all` panics if one of the tasks has panicked, which `false` stands for.
abbrev pub all_finished : List Bool → Option (Unit {0})
all_finished [] = some tt
all_finished (true ∷ os) = all_finished os
all_finished (false ∷ os) = none

module _ {W : Type 0} (env : Env W) (join_all : Call W (List Bool)) where
  abbrev pub join_consumers : Task Item W (Unit {0})
  join_consumers = do outcomes ← call join_all; or_panic (all_finished outcomes)

  -- The world's channel is the broadcast one, which refuses a message once every receiver is dropped.
  unfoldable pub broadcast_stream : List Item → Task Item W (Unit {0})
  broadcast_stream [] = join_consumers
  broadcast_stream (item ∷ items) = do
    state ← try_stream env item
    elim state [ open_channel ↦ broadcast_stream items | closed_channel ↦ join_consumers ]

-- A receiver that does not lag.
abbrev pub received_from : Trace Item → List Received
received_from [] = []
received_from (delivered item ∷ t) = message item ∷ received_from t
received_from (refused item ∷ t) = received_from t

pub all_sent : List Item → Trace Item
all_sent items = map (λ item. delivered item) items

items_of-received : (items : List Item) → map item_of (received_from (all_sent items)) ≡ items
unfolding all_sent
items_of-received [] = refl
items_of-received (item ∷ items) = ap (λ (l : List Item). item ∷ l) (items_of-received items)

length-received : (items : List Item) → length (received_from (all_sent items)) ≡ length items
unfolding all_sent
length-received [] = refl
length-received (item ∷ items) = omega (arith, length-received items)

module _ {W : Type 0} (env : Env W) (join_all : Call W (List Bool)) (sends : Sends env ⊥)
    (joined : (w : W) → all_finished (join_all w).0 ≡ some tt) where
  join_consumers-Total : Total (join_consumers env join_all) (λ done t. t ≡ [])
  unfolding or_panic
  join_consumers-Total =
      bind-Total (λ outcomes t. (all_finished outcomes ≡ some tt) × (t ≡ []))
        (call-Total _ (λ w. (joined w, refl)))
        (λ outcomes t (e, none_sent).
          rw (e, none_sent) (record { run = λ w. (tt, [], w, refl, refl) }))

  pub broadcast_stream-Total :
      (items : List Item)
      → Total (broadcast_stream env join_all items) (λ done t. t ≡ all_sent items)
  unfolding broadcast_stream all_sent
  broadcast_stream-Total [] = join_consumers-Total
  broadcast_stream-Total (item ∷ items) =
      bind-Total (IfOpen ⊥ (λ t. t ≡ delivered item ∷ [])) (try_stream-Total env ⊥ sends item)
        (elim [
          | closed_channel ↦ λ t gone. absurd gone
          | open_channel ↦
              λ t e. weaken-Total (broadcast_stream-Total items) (λ done s e'. rw (e, e') refl)
        ])

-- While no consumer drops its receiver and none panics, the broadcast ends, and each listener whose
-- receiver does not lag ends too, within one round more than there are items, and is sent what
-- processing the items of the stream one after the other sends.
pub broadcast_stream_reaches :
    {W V : Type 0} (env : Env W) (join_all : Call W (List Bool)) (listening : Env V)
    (provider_get_logs : BlockRange → Call V (Result ProviderError (List Log))) (items : List Item)
    (capacity n : ℕ) (w : W) (v : V)
    → Sends env ⊥
    → ((w' : W) → all_finished (join_all w').0 ≡ some tt)
    → 1 ≤ capacity
    → length items < n
    → let (outcome, sent, _) = broadcast_stream env join_all items w in
      let s = run listening provider_get_logs capacity (rounds n) (start (received_from sent) v) in
      (outcome ≡ finished tt)
      × HasEnded s
      × (stream_logs listening provider_get_logs items v ≡ (finished tt, s.sent, s.world))
broadcast_stream_reaches env join_all listening provider_get_logs items capacity n w v sends joined
      some_room enough =
    let (_, t, w', ran, all) = (broadcast_stream-Total env join_all sends joined items).run w in
    let as_many = length-received items in
    let (ended, sent) =
      rounds_end listening provider_get_logs (received_from (all_sent items)) capacity n v some_room
        (omega (arith, as_many, enough)) in
    rw (ran, all) (refl, ended, rw (items_of-received items) at sent)
