-- ===== src/Scanner/Start.antt =====
-- What a connected scanner relies on and what its rewind gives.
use event_scanner.Prelude.{
  ℕ, ◌≤◌, ◌<◌, ◌≡◌, ◌⊎◌, refl, min, max, ltb, if◌then◌else◌, arith, inl, inr, Bool-cases,
}
use event_scanner.Types.{Result, ok, ProviderError}
use event_scanner.Env.{Env, Block, BlockId, Call}
use event_scanner.Task.{Task, finished}
use event_scanner.RangeStream.{Item}
use event_scanner.RangeIterator.Step.{block_limit}
use event_scanner.ReorgHandler.{ReorgHandler, default_handler, new}
use event_scanner.Rewind
use event_scanner.Rewind.{RewindHandler, handle_stream_rewind}
use event_scanner.Rewind.Phases.{descending, ended, IsRewound}
use event_scanner.Rewind.Rescan.{IsHonest}
use event_scanner.Rewind.Order.{handle_stream_rewind-IsRewound}
use event_scanner.Scanner.{BlockRangeScannerBuilder, BlockRangeScanner, connect, stream_rewind}

-- A scanner that `connect` returns streams ranges of at least one block.
connect_sized :
    {W : Type 0} (into_robust_provider : Call W (Result ProviderError (Unit {0})))
    (b : BlockRangeScannerBuilder) (s : BlockRangeScanner) (w : W)
    → (connect into_robust_provider b w).0 ≡ ok s
    → 1 ≤ s.max_block_range
unfolding connect
connect_sized into_robust_provider b s w e = ground (arith)

-- The task of a rewind whose blocks were found.
pub run-found :
    {W H : Type 0} (env : Env W) (reorg_handler : ReorgHandler W H)
    (try_join_blocks : BlockId → BlockId → Call W (Result ProviderError (Block × Block)))
    (handler : RewindHandler) (h : H) (start_block end_block : Block) (w : W)
    → (try_join_blocks handler.start_id handler.end_id w).0 ≡ ok (start_block, end_block)
    → (Rewind.run env reorg_handler try_join_blocks handler h w).0
      ≡ ok (
          if ltb end_block.number start_block.number
          then handle_stream_rewind env reorg_handler start_block end_block handler.max_block_range
              h
          else handle_stream_rewind env reorg_handler end_block start_block handler.max_block_range
              h)
unfolding Rewind.run
run-found env reorg_handler try_join_blocks handler h start_block end_block w found =
    rw (found, Rewind.run) refl

-- What the stream of a rewind between two blocks sends.
abbrev pub Rewinds : {W : Type 0} → ℕ → ℕ → ℕ → Task Item W (Unit {0}) → Type 0
Rewinds {W} size high low task =
    (w : W)
    → let (outcome, sent, _) = task w in
      (outcome ≡ finished tt)
      × (IsRewound size high low (descending low) sent ⊎ IsRewound size high low ended sent)

-- On a scanner that `connect` returned, a rewind between two blocks that the provider finds starts a
-- stream that goes from the higher to the lower of them, in whichever order they were named, and
-- ends without a panic: downwards in consecutive ranges, with a rescan up to the higher block after
-- each reorg notification, all of it unless an error was sent or the receiver was gone.
pub stream_rewind-Rewinds :
    {W : Type 0} (env : Env W) (into_robust_provider : Call W (Result ProviderError (Unit {0})))
    (try_join_blocks : BlockId → BlockId → Call W (Result ProviderError (Block × Block)))
    (try_join_numbers : BlockId → Call W (Result ProviderError (ℕ × ℕ))) (fuel : ℕ)
    (b : BlockRangeScannerBuilder) (s : BlockRangeScanner) (start_id end_id : BlockId)
    (start_block end_block : Block) (w w' : W)
    → IsHonest env (default_handler env)
    → (connect into_robust_provider b w).0 ≡ ok s
    → (try_join_blocks start_id end_id w').0 ≡ ok (start_block, end_block)
    → start_block.number < block_limit
    → end_block.number < block_limit
    → (task : Task Item W (Unit {0})) × ((stream_rewind env try_join_blocks try_join_numbers fuel s
          start_id end_id w').0
        ≡ ok task)
      × Rewinds s.max_block_range
          (max start_block.number end_block.number)
          (min start_block.number end_block.number)
          task
unfolding stream_rewind
stream_rewind-Rewinds env into_robust_provider try_join_blocks try_join_numbers fuel b s start_id
      end_id start_block end_block w w' honest connected found small₁ small₂ =
    let sized = connect_sized into_robust_provider b s w connected in
    let rewinds = handle_stream_rewind-IsRewound env (default_handler env) in
    let handler : RewindHandler = record {
      max_block_range = s.max_block_range;
      start_id = start_id;
      end_id = end_id;
    } in
    let h = new s.past_blocks_storage_capacity in
    let ran =
      run-found env (default_handler env) try_join_blocks handler h start_block end_block w'
        found in
    elim (Bool-cases (ltb end_block.number start_block.number)) [
      | inl above ↦
          let high : max start_block.number end_block.number ≡ start_block.number =
            ground (arith, above) in
          let low : min start_block.number end_block.number ≡ end_block.number =
            ground (arith, above) in
          (
            handle_stream_rewind env (default_handler env) start_block end_block s.max_block_range
                h,
            rw above at ran,
            λ w''.
                rw (high, low)
                  (rewinds start_block end_block s.max_block_range h w'' honest sized
                    (ground (arith, above)) small₁),
          )
      | inr below ↦
          let high : max start_block.number end_block.number ≡ end_block.number =
            ground (arith, below) in
          let low : min start_block.number end_block.number ≡ start_block.number =
            ground (arith, below) in
          (
            handle_stream_rewind env (default_handler env) end_block start_block s.max_block_range
                h,
            rw below at ran,
            λ w''.
                rw (high, low)
                  (rewinds end_block start_block s.max_block_range h w'' honest sized
                    (ground (arith, below)) small₂),
          )
    ]
