-- ===== src/Modes/LiveDelivery.antt =====
-- From the start of the live mode to what its listener has, while the chain stands.
use event_scanner.Prelude.{
  ℕ, ◌+◌, ◌-◌, ◌^◌, ◌≤◌, ◌<◌, ◌≡◌, refl, List, false, All, add_u64, arith, length,
}
use event_scanner.Types.{Result, ok, ProviderError}
use event_scanner.Env.{Env, Block, BlockId, Call}
use event_scanner.Task.{finished}
use event_scanner.Task.Total.{Sends}
use event_scanner.RangeIterator.{BlockRange}
use event_scanner.RangeIterator.Tiling.{interval}
use event_scanner.RangeIterator.Step.{block_limit}
use event_scanner.ReorgHandler.{default_handler, new}
use event_scanner.Historical.Calm.{IsCalm}
use event_scanner.Live.{Incoming}
use event_scanner.Live.Loop.{stream_live_blocks}
use event_scanner.Live.Calm.{IsFed}
use event_scanner.Live.CalmRun.{frontier, IsHeader}
use event_scanner.Live.CalmStream.{stream_live_blocks_streams}
use event_scanner.Scanner
use event_scanner.BlockRangeHandler.{Log}
use event_scanner.BlockRangeHandler.Delivery.{logs_of_blocks, logs_in}
use event_scanner.EventScanner.{EventScanner, EventListener, Live}
use event_scanner.Modes.{StreamHandler, Started, handle_streaming}
use event_scanner.Modes.Delivery.{items_of, ListenerHas, heard_range}
use event_scanner.Modes.Live.{start as start_live}

-- The blocks that are confirmed by the headers, from the first that was not confirmed before them.
abbrev pub blocks_confirmed : ℕ → ℕ → List Incoming → List ℕ
blocks_confirmed latest confirmations hs =
    let from = latest + 1 - confirmations in interval from (frontier confirmations from hs - from)

live_started :
    {W F S : Type 0} (env : Env W)
    (try_join_blocks : BlockId → BlockId → Call W (Result ProviderError (Block × Block)))
    (try_join_numbers : BlockId → Call W (Result ProviderError (ℕ × ℕ))) (fuel : ℕ)
    (scanner : EventScanner Live F S) (latest : ℕ) (w : W)
    → latest < block_limit
    → (env.get_block_number w).0 ≡ ok latest
    → (env.subscribe_blocks (env.get_block_number w).1).0 ≡ ok tt
    → (started : Started W (StreamHandler F S)) × ((start_live env try_join_blocks try_join_numbers
          fuel scanner w).0
        ≡ ok started)
      × (started.stream
          ≡ stream_live_blocks env
              (default_handler env)
              fuel
              (latest + 1 - scanner.config.block_confirmations)
              scanner.config.block_confirmations
              scanner.block_range_scanner.max_block_range
              false
              (new scanner.block_range_scanner.past_blocks_storage_capacity))
unfolding start_live Scanner.stream_live
live_started env try_join_blocks try_join_numbers fuel scanner latest w small asked subscribed =
    let no_wrap : add_u64 latest 1 ≡ latest + 1 = omega (arith, small) in
    (
      record {
        stream =
            stream_live_blocks env (default_handler env) fuel
              (latest + 1 - scanner.config.block_confirmations) scanner.config.block_confirmations
              scanner.block_range_scanner.max_block_range false
              (new scanner.block_range_scanner.past_blocks_storage_capacity);
        handler = record {
          listeners = scanner.listeners;
          max_concurrent_fetches = scanner.config.max_concurrent_fetches;
          broadcast_channel_capacity = scanner.block_range_scanner.buffer_capacity;
        };
      },
      rw (Scanner.stream_live, asked, subscribed, no_wrap) refl,
      refl,
    )

-- While the chain stands up to `top` and nobody leaves, a live scanner that is started at a latest
-- block streams until its subscription ends, on fuel above the number of headers plus `top`, and a
-- listener that gets the stream's items and the provider's logs of each range ends too, with the
-- logs of exactly the blocks that the headers confirm beyond those confirmed at the start, in the
-- order of the chain and each block once. The subscription succeeds and yields lags and headers of
-- blocks up to `top`.
-- `max_block_range` is at least 1, `top` and the latest block are below the
-- limit of block numbers, and the fuel is at most
-- 2 ^ 63.
pub live_delivers :
    {W V F S : Type 0} (env : Env W)
    (try_join_blocks : BlockId → BlockId → Call W (Result ProviderError (Block × Block)))
    (try_join_numbers : BlockId → Call W (Result ProviderError (ℕ × ℕ))) (fuel : ℕ)
    (listening : Env V) (logs_for : F → BlockRange → Call V (Result ProviderError (List Log)))
    (upcoming : W → List Incoming) (chain : ℕ → Block) (top : ℕ) (block_logs : ℕ → List Log)
    (scanner : EventScanner Live F S) (listener : EventListener F S) (latest : ℕ)
    (hs : List Incoming) (w w' : W) (v : V)
    → IsFed env upcoming
    → IsCalm env chain top
    → Sends listening ⊥
    → ((r : BlockRange) (v' : V) → (logs_for listener.filter r v').0 ≡ ok (logs_in block_logs r))
    → 1 ≤ scanner.block_range_scanner.max_block_range
    → top < block_limit
    → latest < block_limit
    → (env.get_block_number w).0 ≡ ok latest
    → (env.subscribe_blocks (env.get_block_number w).1).0 ≡ ok tt
    → All (IsHeader top) hs
    → upcoming w' ≡ hs
    → length hs + top + 3 ≤ fuel
    → fuel ≤ 2 ^ 63
    → (started : Started W (StreamHandler F S)) × ((start_live env try_join_blocks try_join_numbers
          fuel scanner w).0
        ≡ ok started)
      × (let (outcome, sent, _) = started.stream w' in
          (outcome ≡ finished tt)
          × ListenerHas
              (handle_streaming listening logs_for started.handler listener (items_of sent))
              (logs_of_blocks block_logs
                (blocks_confirmed latest scanner.config.block_confirmations hs))
              v)
live_delivers env try_join_blocks try_join_numbers fuel listening logs_for upcoming chain top
      block_logs scanner listener latest hs w w' v fed calm hears fetched sized small small' asked
      subscribed known awaits enough limited =
    let (started, ok_started, stream) =
      live_started env try_join_blocks try_join_numbers fuel scanner latest w small' asked
        subscribed in
    let (t, w'', ran, streamed) =
      stream_live_blocks_streams env upcoming chain top scanner.block_range_scanner.max_block_range
        (latest + 1 - scanner.config.block_confirmations) scanner.config.block_confirmations fuel hs
        false (new scanner.block_range_scanner.past_blocks_storage_capacity) w' fed calm small sized
        known awaits enough limited in
    (
      started,
      ok_started,
      rw (stream, ran)
          (
            refl,
            heard_range listening logs_for block_logs listener hears fetched started.handler _ _ _ t
                v streamed,
          ),
    )
