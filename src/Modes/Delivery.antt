-- ===== src/Modes/Delivery.antt =====
-- From the start of a mode to what its listener has, while the chain stands.
use event_scanner.Prelude.{
  ℕ, suc, ◌+◌, ◌-◌, ◌≤◌, ◌<◌, ◌≡◌, refl, sym, ap, subst, min, max, List, [], ◌∷◌, append-nil, map,
  ltb, if◌then◌else◌, arith,
}
use event_scanner.Types.{Result, ok, ProviderError, open_channel, closed_channel, from_data}
use event_scanner.Env.{Env, Block, BlockId, Call}
use event_scanner.Task.{Progress, delivered, refused, finished, pure, ◌>>◌}
use event_scanner.Task.Hoare.{Trace}
use event_scanner.Task.Total.{Total, pure-Total, weaken-Total, bind-Total, Sends, IfOpen}
use event_scanner.RangeIterator.{BlockRange}
use event_scanner.RangeIterator.Tiling.{interval}
use event_scanner.RangeIterator.Step.{block_limit}
use event_scanner.RangeStream.{Item}
use event_scanner.Historical.{HistoricalRangeHandler, handle_stream_historical_range}
use event_scanner.Historical.Calm.{IsCalm, all_delivered, Streamed, handle-Total}
use event_scanner.Scanner
use event_scanner.BlockRangeHandler.{Log, LogItem}
use event_scanner.BlockRangeHandler.Delivery.{
  Delivers, concat_logs, stream_logs-Delivers, logs_of_blocks, logs_in, concat_logs-TilesUp,
}
use event_scanner.EventScanner.{EventScanner, EventListener, Historic}
use event_scanner.Modes.{StreamHandler, Started, handle_streaming}
use event_scanner.Modes.Historic.{start as start_historic}

-- What a receiver was handed.
abbrev pub items_of : Trace Item → List Item
items_of [] = []
items_of (delivered item ∷ t) = item ∷ items_of t
items_of (refused item ∷ t) = items_of t

pub items_of-all_delivered : (rs : List BlockRange) → items_of (all_delivered rs) ≡ map from_data rs
items_of-all_delivered [] = refl
items_of-all_delivered (r ∷ rs) =
    ap (λ (l : List Item). from_data r ∷ l) (items_of-all_delivered rs)

-- The blocks from the lower of two to the higher.
abbrev pub blocks_between : ℕ → ℕ → List ℕ
blocks_between a b = interval (min a b) (max a b + 1 - min a b)

-- The stream and the listener end, and the listener has these logs, in batches, and nothing else.
abbrev pub ListenerHas :
    {V : Type 0} → (V → Progress (Unit {0}) × Trace LogItem × V) → List Log → V → Type 0
ListenerHas task logs v =
    let (outcome, received, _) = task v in (outcome ≡ finished tt) × Delivers logs received

module _ {W : Type 0} (env : Env W) (chain : ℕ → Block) (top : ℕ) (calm : IsCalm env chain top)
    (sends : Sends env ⊥) where
  -- The task of a historic stream.
  historical_task-Total :
      (h : HistoricalRangeHandler) (fuel : ℕ)
      → 1 ≤ h.max_block_range
      → h.end ≤ top
      → top < block_limit
      → h.start ≤ h.end
      → Total
          (handle_stream_historical_range env h (suc fuel) >> pure tt)
          (λ done t. Streamed h.max_block_range h.start (h.end + 1) t)
  historical_task-Total h fuel sized reached small ordered =
      bind-Total (IfOpen ⊥ (Streamed h.max_block_range h.start (h.end + 1)))
        (handle-Total env ⊥ sends h sized (omega (arith, reached, small)) chain top calm reached
          fuel ordered)
        (elim [
          | closed_channel ↦ λ t gone. absurd gone
          | open_channel ↦ λ t streamed. pure-Total tt (rw append-nil streamed)
        ])

-- The range that a historic stream covers.
abbrev range_between : ℕ → Block → Block → HistoricalRangeHandler
range_between size a b = record {
  max_block_range = size;
  start = if ltb b.number a.number then b.number else a.number;
  end = if ltb b.number a.number then a.number else b.number;
}

historic_started :
    {W F S : Type 0} (env : Env W)
    (try_join_blocks : BlockId → BlockId → Call W (Result ProviderError (Block × Block)))
    (try_join_numbers : BlockId → Call W (Result ProviderError (ℕ × ℕ))) (fuel : ℕ)
    (scanner : EventScanner Historic F S) (a b : Block) (w : W)
    → (try_join_blocks scanner.config.from_block scanner.config.to_block w).0 ≡ ok (a, b)
    → (started : Started W (StreamHandler F S)) × ((start_historic env try_join_blocks
          try_join_numbers fuel scanner w).0
        ≡ ok started)
      × (started.stream ≡ (
          handle_stream_historical_range env
            (range_between scanner.block_range_scanner.max_block_range a b)
            fuel
          >> pure tt))
unfolding start_historic Scanner.stream_historical
historic_started env try_join_blocks try_join_numbers fuel scanner a b w found = (
  record {
    stream =
        handle_stream_historical_range env
          (range_between scanner.block_range_scanner.max_block_range a b) fuel
        >> pure tt;
    handler = record {
      listeners = scanner.listeners;
      max_concurrent_fetches = scanner.config.max_concurrent_fetches;
      broadcast_channel_capacity = scanner.block_range_scanner.buffer_capacity;
    };
  },
  rw (found, Scanner.stream_historical) refl,
  refl,
)

range_between-bounds :
    (size : ℕ) (a b : Block)
    → ((range_between size a b).start ≡ min a.number b.number)
      × ((range_between size a b).end ≡ max a.number b.number)
range_between-bounds size a b = (ground arith, ground arith)

between-Total :
    {W : Type 0} (env : Env W) (chain : ℕ → Block) (top fuel size : ℕ) (a b : Block)
    → IsCalm env chain top
    → Sends env ⊥
    → 1 ≤ size
    → a.number ≤ top
    → b.number ≤ top
    → top < block_limit
    → Total
        (handle_stream_historical_range env (range_between size a b) (suc fuel) >> pure tt)
        (λ done t. Streamed size (min a.number b.number) (max a.number b.number + 1) t)
between-Total env chain top fuel size a b calm sends sized reached₁ reached₂ small =
    let (low, high) = range_between-bounds size a b in
    weaken-Total
      (historical_task-Total env chain top calm sends (range_between size a b) fuel sized
        (omega (arith, high, reached₁, reached₂)) small (omega (arith, low, high)))
      (λ done t streamed.
        let from_low =
          subst (λ (n : ℕ). Streamed size n ((range_between size a b).end + 1) t) low streamed in
        subst (λ (n : ℕ). Streamed size (min a.number b.number) (n + 1) t) high from_low)

-- The listener of a stream that was sent consecutive ranges.
module _ {V F S : Type 0} (listening : Env V)
    (logs_for : F → BlockRange → Call V (Result ProviderError (List Log)))
    (block_logs : ℕ → List Log) (listener : EventListener F S) (hears : Sends listening ⊥)
    (fetched : (r : BlockRange) (v : V)
      → (logs_for listener.filter r v).0 ≡ ok (logs_in block_logs r))
    (handler : StreamHandler F S) where
  heard_all :
      (rs : List BlockRange) (v : V)
      → ListenerHas
          (handle_streaming listening logs_for handler listener (map from_data rs))
          (concat_logs (logs_in block_logs) rs)
          v
  unfolding handle_streaming
  heard_all rs v =
      let (_, u, v', heard, delivers) =
        (stream_logs-Delivers listening (logs_for listener.filter) (logs_in block_logs) fetched
            hears rs).run
          v in
      rw heard (refl, delivers)

  pub heard_range :
      (size from upto : ℕ) (sent : Trace Item) (v : V)
      → Streamed size from upto sent
      → ListenerHas
          (handle_streaming listening logs_for handler listener (items_of sent))
          (logs_of_blocks block_logs (interval from (upto - from)))
          v
  heard_range size from upto sent v (rs, e, tiles) =
      rw
        (e, items_of-all_delivered rs, sym (concat_logs-TilesUp block_logs size from upto rs tiles))
        (heard_all rs v)

-- While the chain stands up to `top`, at or above both blocks, and nobody leaves, a historic
-- scanner that is started between two blocks that the provider finds, in whichever order they are
-- named, ends its stream, and a listener that gets the stream's items and the provider's logs of
-- each range ends too, with the logs of every block from the lower to the higher one, in the order
-- of the chain and each block once.
pub historic_delivers :
    {W V F S : Type 0} (env : Env W)
    (try_join_blocks : BlockId → BlockId → Call W (Result ProviderError (Block × Block)))
    (try_join_numbers : BlockId → Call W (Result ProviderError (ℕ × ℕ))) (fuel : ℕ)
    (listening : Env V) (logs_for : F → BlockRange → Call V (Result ProviderError (List Log)))
    (chain : ℕ → Block) (top : ℕ) (block_logs : ℕ → List Log) (scanner : EventScanner Historic F S)
    (listener : EventListener F S) (a b : Block) (w w' : W) (v : V)
    → IsCalm env chain top
    → Sends env ⊥
    → Sends listening ⊥
    → ((r : BlockRange) (v' : V) → (logs_for listener.filter r v').0 ≡ ok (logs_in block_logs r))
    → 1 ≤ scanner.block_range_scanner.max_block_range
    → (try_join_blocks scanner.config.from_block scanner.config.to_block w).0 ≡ ok (a, b)
    → a.number ≤ top
    → b.number ≤ top
    → top < block_limit
    → (started : Started W (StreamHandler F S)) × ((start_historic env try_join_blocks
          try_join_numbers
          (suc fuel)
          scanner
          w).0
        ≡ ok started)
      × (let (outcome, sent, _) = started.stream w' in
          (outcome ≡ finished tt)
          × ListenerHas
              (handle_streaming listening logs_for started.handler listener (items_of sent))
              (logs_of_blocks block_logs (blocks_between a.number b.number))
              v)
historic_delivers env try_join_blocks try_join_numbers fuel listening logs_for chain top block_logs
      scanner listener a b w w' v calm sends hears fetched sized found reached₁ reached₂ small =
    let size = scanner.block_range_scanner.max_block_range in
    let (started, ok_started, stream) =
      historic_started env try_join_blocks try_join_numbers (suc fuel) scanner a b w found in
    let (_, t, w'', ran, streamed) =
      (between-Total env chain top fuel size a b calm sends sized reached₁ reached₂ small).run w' in
    (
      started,
      ok_started,
      rw (stream, ran)
          (
            refl,
            heard_range listening logs_for block_logs listener hears fetched started.handler size _
                _ t v streamed,
          ),
    )
