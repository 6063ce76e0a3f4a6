-- ===== src/Tests/Lives.antt =====
-- Live streaming to its end: the world is what the subscription will still yield.
use event_scanner.Prelude.{ℕ, ◌≡◌, refl, true, Option, none, some, List, [], ◌∷◌, All, arith, inl}
use event_scanner.Types.{Result, ok, err, ProviderError}
use event_scanner.Env.{Env, Block, BlockNumberOrTag, BlockId, Call}
use event_scanner.Task.{Task, finished}
use event_scanner.Task.Hoare.{Trace}
use event_scanner.RangeIterator.{BlockRange}
use event_scanner.RangeStream.{Item}
use event_scanner.RingBuffer.{limited}
use event_scanner.ReorgHandler.{default_handler, new}
use event_scanner.Historical.Calm.{IsCalm}
use event_scanner.Live.{Incoming}
use event_scanner.Live.Loop.{stream_live_blocks}
use event_scanner.Live.Calm.{IsFed}
use event_scanner.Live.CalmRun.{frontier, IsHeader}
use event_scanner.Live.CalmStream.{LiveSent, stream_live_blocks_streams}
use event_scanner.Sync.{SyncHandler, run}
use event_scanner.Sync.CalmSync.{Subscribes, KnowsTip, SyncSent, run_syncs}
use event_scanner.BlockRangeHandler.{Log}
use event_scanner.BlockRangeHandler.Delivery.{logs_of_blocks, logs_in}
use event_scanner.EventScanner.{EventScanner, Live, SyncFromBlock, SyncFromLatestEvents}
use event_scanner.Modes.{StreamHandler, Started, handle_streaming}
use event_scanner.Modes.Delivery.{items_of, ListenerHas, blocks_between}
use event_scanner.Modes.Live.{start as start_live}
use event_scanner.Modes.LiveDelivery.{blocks_confirmed, live_delivers}
use event_scanner.Modes.FromBlock.{start as start_from_block}
use event_scanner.Modes.SyncHearing.{HearsSync}
use event_scanner.Modes.FromBlockDelivery.{from_block_delivers}
use event_scanner.Modes.FromLatest.{StartedTwice, start as start_from_latest}
use event_scanner.Modes.FromLatestDelivery.{Collects, from_latest_hears}
use event_scanner.Tests.World.{block_at, block_of, block_by_id}
use event_scanner.Tests.Deliveries.{block_logs, block_scanner, listener}

-- A lag comes between the headers, and one block is skipped.
abbrev pub headers : List Incoming
headers =
    ok (block_at 103) ∷ err (ProviderError.lagged 1) ∷ ok (block_at 101) ∷ ok (block_at 105) ∷ []

abbrev pub pop : Call (List Incoming) (Option Incoming)
pop [] = (none, [])
pop (x ∷ xs) = (some x, xs)

abbrev pub fed_world : Env (List Incoming)
fed_world = record {
  get_block_by_number = λ t w. (ok (block_of t), w);
  get_block_by_hash = λ hash w. (ok (block_at 50), w);
  get_block = λ id w. (ok (block_by_id id), w);
  get_block_number_by_id = λ id w. (ok (block_by_id id).number, w);
  get_block_number = λ w. (ok 100, w);
  subscribe_blocks = λ w. (ok tt, headers);
  next_header = pop;
  send_is_ok = λ w. (true, w);
}

fed_world-IsFed : IsFed fed_world (λ w. w)
fed_world-IsFed = record {
  ended = λ w e. rw e (refl, refl);
  arrives = λ w x xs e. rw e (refl, refl);
  asked = λ n w. refl;
  sends = λ w. refl;
  sent = λ w. refl;
}

fed_world-IsCalm : IsCalm fed_world block_at 105
fed_world-IsCalm = record { blocks = λ n reached w. refl; numbers = λ n. refl }

fed_world-Subscribes : Subscribes fed_world (λ w. w) headers
fed_world-Subscribes w = (refl, refl)

fed_world-KnowsTip : KnowsTip fed_world 105
fed_world-KnowsTip w = (100, refl, omega arith)

headers-known : All (IsHeader 105) headers
headers-known = (omega arith, (tt, (omega arith, (omega arith, tt))))

stream_live_blocks_streams_example :
    (t : Trace Item) × (w' : List Incoming) × (stream_live_blocks fed_world
        (default_handler fed_world)
        112
        102
        1
        2
        true
        (new (limited 10))
        headers
      ≡ (finished tt, t, w'))
    × LiveSent true 2 102 (frontier 1 102 headers) t
stream_live_blocks_streams_example =
    stream_live_blocks_streams fed_world (λ w. w) block_at 105 2 102 1 112 headers true
      (new (limited 10)) headers fed_world-IsFed fed_world-IsCalm (omega arith) (omega arith)
      headers-known refl (omega arith) (omega arith)

-- The blocks from 102 to 104 are confirmed.
frontier-headers : frontier 1 102 headers ≡ 105
frontier-headers = refl

abbrev sync_handler : SyncHandler
sync_handler = record {
  max_block_range = 2;
  start_id = BlockId.by_number (BlockNumberOrTag.number 95);
  block_confirmations = 1;
}

abbrev numbers_at : BlockId → Call (List Incoming) (Result ProviderError (ℕ × ℕ))
numbers_at a w = (ok ((block_by_id a).number, 100), w)

abbrev blocks_at : BlockId → BlockId → Call (List Incoming) (Result ProviderError (Block × Block))
blocks_at a b w = (ok (block_by_id a, block_by_id b), w)

run_syncs_example :
    (task : Task Item (List Incoming) (Unit {0})) × ((run fed_world
        (default_handler fed_world)
        numbers_at
        112
        sync_handler
        (new (limited 10))
        []).0
      ≡ ok task)
    × ((w' : List Incoming)
        → w' ≡ headers
        → (t : Trace Item) × (w'' : List Incoming) × (task w' ≡ (finished tt, t, w''))
          × SyncSent fed_world 105 2 95 99 1 headers t)
run_syncs_example =
    run_syncs fed_world numbers_at (λ w. w) block_at 105 112 95 100 sync_handler (new (limited 10))
      headers [] fed_world-IsFed fed_world-IsCalm fed_world-Subscribes fed_world-KnowsTip
      (omega arith) (omega arith) headers-known (omega arith) (omega arith) refl (omega arith)

abbrev live_scanner : EventScanner Live ℕ ℕ
live_scanner = record {
  config = record { block_confirmations = 1; max_concurrent_fetches = 24 };
  block_range_scanner = block_scanner;
  listeners = listener ∷ [];
}

abbrev logs_from : ℕ → BlockRange → Call (List Incoming) (Result ProviderError (List Log))
logs_from filter range w = (ok (logs_in block_logs range), w)

live_delivers_example :
    (started : Started (List Incoming) (StreamHandler ℕ ℕ)) × ((start_live fed_world blocks_at
        numbers_at 112 live_scanner []).0
      ≡ ok started)
    × (let (outcome, sent, _) = started.stream headers in
        (outcome ≡ finished tt)
        × ListenerHas
            (handle_streaming fed_world logs_from started.handler listener (items_of sent))
            (logs_of_blocks block_logs (blocks_confirmed 100 1 headers))
            [])
live_delivers_example =
    live_delivers fed_world blocks_at numbers_at 112 fed_world logs_from (λ w. w) block_at 105
      block_logs live_scanner listener 100 headers [] headers [] fed_world-IsFed fed_world-IsCalm
      (λ w. inl refl) (λ r v'. refl) (omega arith) (omega arith) (omega arith) refl refl
      headers-known refl (omega arith) (omega arith)

abbrev from_block_scanner : EventScanner SyncFromBlock ℕ ℕ
from_block_scanner = record {
  config = record {
    from_block = BlockId.by_number BlockNumberOrTag.finalized;
    block_confirmations = 1;
    max_concurrent_fetches = 24;
  };
  block_range_scanner = block_scanner;
  listeners = listener ∷ [];
}

from_block_delivers_example :
    (started : Started (List Incoming) (StreamHandler ℕ ℕ)) × ((start_from_block fed_world blocks_at
        numbers_at 112 from_block_scanner []).0
      ≡ ok started)
    × HearsSync fed_world 105 fed_world logs_from block_logs listener headers 90 99 1 headers []
        started
from_block_delivers_example =
    from_block_delivers fed_world blocks_at numbers_at 112 fed_world logs_from (λ w. w) block_at 105
      block_logs from_block_scanner listener 90 100 headers [] headers [] fed_world-IsFed
      fed_world-IsCalm fed_world-Subscribes fed_world-KnowsTip (λ w. inl refl) (λ r v'. refl)
      (omega arith) (omega arith) headers-known (omega arith) (omega arith) refl (omega arith) refl

abbrev from_latest_scanner : EventScanner SyncFromLatestEvents ℕ ℕ
from_latest_scanner = record {
  config = record { count = 4; block_confirmations = 1; max_concurrent_fetches = 24 };
  block_range_scanner = block_scanner;
  listeners = listener ∷ [];
}

from_latest_hears_example :
    (twice : StartedTwice (List Incoming) ℕ ℕ) × ((start_from_latest fed_world blocks_at numbers_at
        112 from_latest_scanner []).0
      ≡ ok twice)
    × Collects fed_world logs_from block_logs listener 4
        (blocks_between 100 0)
        []
        []
        twice.collection
    × (started : Started (List Incoming) (StreamHandler ℕ ℕ)) × ((twice.sync []).0 ≡ ok started)
    × HearsSync fed_world 105 fed_world logs_from block_logs listener headers 101 99 1 headers []
        started
from_latest_hears_example =
    from_latest_hears fed_world blocks_at numbers_at 112 fed_world logs_from (λ w. w) block_at 105
      block_logs from_latest_scanner listener 100 0 100 headers [] [] [] headers [] []
      fed_world-IsFed fed_world-IsCalm fed_world-Subscribes fed_world-KnowsTip (λ w. inl refl)
      (λ r v'. refl) (λ k. ((k, refl), tt)) (omega arith) (omega arith) headers-known (omega arith)
      (omega arith) refl refl (omega arith) (omega arith) refl (omega arith) refl
