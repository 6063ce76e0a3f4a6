-- ===== src/Scanner.antt =====
-- src/block_range_scanner/builder.rs and src/block_range_scanner/scanner.rs: the checks of the
-- configuration, and the start of each stream. A stream is the task that is spawned for it.
pub mod Start
pub mod Setters
use event_scanner.Prelude.{ℕ, true, false, ltb, ◌==◌, if◌then◌else◌, add_u64, saturating_sub}
use event_scanner.Types.{Result, ok, err, ProviderError, ScannerError, from_provider_error}
use event_scanner.Env.{Env, Block, BlockId, Call}
use event_scanner.Task.{Task, ◌>>=◌, ◌>>◌, pure}
use event_scanner.RangeStream.{Item}
use event_scanner.RingBuffer.{RingBufferCapacity, limited}
use event_scanner.ReorgHandler
use event_scanner.ReorgHandler.{default_handler}
use event_scanner.Historical.{HistoricalRangeHandler, handle_stream_historical_range}
use event_scanner.Live.Loop.{stream_live_blocks}
use event_scanner.Rewind
use event_scanner.Rewind.{RewindHandler}
use event_scanner.Sync
use event_scanner.Sync.{SyncHandler}

pub record BlockRangeScannerBuilder : Type 0 where
  pub max_block_range : ℕ
  pub past_blocks_storage_capacity : RingBufferCapacity
  pub buffer_capacity : ℕ

-- The scanner's fields, but for the provider.
pub record BlockRangeScanner : Type 0 where
  pub max_block_range : ℕ
  pub past_blocks_storage_capacity : RingBufferCapacity
  pub buffer_capacity : ℕ

-- `BlockRangeScannerBuilder::new`
unfoldable pub new_builder : BlockRangeScannerBuilder
new_builder = record {
  max_block_range = 1000;
  past_blocks_storage_capacity = limited 10;
  buffer_capacity = 50000;
}

abbrev pub StartedStream : Type 0 → Type 0
StartedStream W = Result ScannerError (Task Item W (Unit {0}))

module _ {W : Type 0} where
  -- `connect`. `into_robust_provider` makes the provider of the scanner.
  unfoldable pub connect :
      Call W (Result ProviderError (Unit {0}))
      → BlockRangeScannerBuilder
      → Call W (Result ScannerError BlockRangeScanner)
  connect into_robust_provider b w =
      if b.max_block_range == 0
      then (err ScannerError.invalid_max_block_range, w)
      else if b.buffer_capacity == 0
      then (err ScannerError.invalid_buffer_capacity, w)
      else (let (answer, w') = into_robust_provider w in
          elim answer [
            | err e ↦ (err (from_provider_error e), w')
            | ok provider ↦ (
              ok (record {
                max_block_range = b.max_block_range;
                past_blocks_storage_capacity = b.past_blocks_storage_capacity;
                buffer_capacity = b.buffer_capacity;
              }),
              w',
            )
          ])

-- `try_join_blocks` and `try_join_numbers` are tokio's `try_join!` over two calls of the provider.
module _ {W : Type 0} (env : Env W)
    (try_join_blocks : BlockId → BlockId → Call W (Result ProviderError (Block × Block)))
    (try_join_numbers : BlockId → Call W (Result ProviderError (ℕ × ℕ))) (fuel : ℕ)
    (s : BlockRangeScanner) where
  unfoldable pub stream_live : ℕ → Call W (StartedStream W)
  stream_live block_confirmations w =
      let (answer, w') = env.get_block_number w in
      elim answer [
        | err e ↦ (err (from_provider_error e), w')
        | ok latest ↦
            let start_block = saturating_sub (add_u64 latest 1) block_confirmations in
            let (subscription, w'') = env.subscribe_blocks w' in
            elim subscription [
              | err e ↦ (err (from_provider_error e), w'')
              | ok sub ↦ (
                ok (
                    stream_live_blocks env (default_handler env) fuel start_block
                      block_confirmations s.max_block_range false
                      (ReorgHandler.new s.past_blocks_storage_capacity)),
                w'',
              )
            ]
      ]

  unfoldable pub stream_historical : BlockId → BlockId → Call W (StartedStream W)
  stream_historical start_id end_id w =
      let (answer, w') = try_join_blocks start_id end_id w in
      elim answer [
        | err e ↦ (err (from_provider_error e), w')
        | ok (start_block, end_block) ↦
            let swapped = ltb end_block.number start_block.number in
            let handler : HistoricalRangeHandler = record {
              max_block_range = s.max_block_range;
              start = if swapped then end_block.number else start_block.number;
              end = if swapped then start_block.number else end_block.number;
            } in
            (ok (handle_stream_historical_range env handler fuel >> pure tt), w')
      ]

  unfoldable pub stream_from : BlockId → ℕ → Call W (StartedStream W)
  stream_from start_id block_confirmations w =
      let handler : SyncHandler = record {
        max_block_range = s.max_block_range;
        start_id = start_id;
        block_confirmations = block_confirmations;
      } in
      Sync.run env (default_handler env) try_join_numbers fuel handler
        (ReorgHandler.new s.past_blocks_storage_capacity) w

  unfoldable pub stream_rewind : BlockId → BlockId → Call W (StartedStream W)
  stream_rewind start_id end_id w =
      let handler : RewindHandler = record {
        max_block_range = s.max_block_range;
        start_id = start_id;
        end_id = end_id;
      } in
      Rewind.run env (default_handler env) try_join_blocks handler
        (ReorgHandler.new s.past_blocks_storage_capacity) w
