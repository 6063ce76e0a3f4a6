-- ===== src/Modes/RewindDelivery.antt =====
-- What a rewind over a standing chain sends, and what the listener of the latest events makes of it.
use event_scanner.Prelude.{
  ℕ, ◌+◌, ◌-◌, ◌≤◌, ◌<◌, ◌≡◌, inl, inr, refl, sym, ap, ◌∙◌, subst, min, max, List, [], ◌∷◌, ltb,
  if◌then◌else◌, Bool-cases, arith, All, All-append,
}
use event_scanner.Types.{Result, ok, ProviderError}
use event_scanner.Env.{Env, Block, BlockId, Call}
use event_scanner.Task.{Task, finished}
use event_scanner.Task.Hoare.{Trace}
use event_scanner.Task.Total.{Total, weaken-Total, Sends}
use event_scanner.RangeIterator.{BlockRange}
use event_scanner.RangeIterator.Tiling.{interval}
use event_scanner.RangeIterator.Step.{block_limit}
use event_scanner.RangeStream.{Item}
use event_scanner.ReorgHandler.{default_handler, new}
use event_scanner.Historical.Calm.{IsCalm}
use event_scanner.Rewind.{RewindHandler, handle_stream_rewind}
use event_scanner.Rewind.Calm.{default_handler-IsQuiet, RewoundOnce, handle_stream_rewind-Total}
use event_scanner.Scanner
use event_scanner.Scanner.{BlockRangeScanner}
use event_scanner.Scanner.Start.{run-found}
use event_scanner.BlockRangeHandler.{Log}
use event_scanner.BlockRangeHandler.Latest.{
  HasBlock, SentOnce, summary, last_of, stream_latest_sends_last,
}
use event_scanner.BlockRangeHandler.Delivery.{logs_of_blocks, logs_in, chronological-TilesDown}
use event_scanner.EventScanner.{EventListener}
use event_scanner.Modes.{LatestEventsHandler, handle_latest}
use event_scanner.Modes.Delivery.{items_of, items_of-all_delivered, blocks_between}

higher_first :
    {T : Type 0} (chain : ℕ → Block) (numbers : (n : ℕ) → (chain n).number ≡ n) (m n : ℕ)
    (f : Block → Block → T)
    → (if ltb (chain n).number (chain m).number
        then f (chain m) (chain n)
        else f (chain n) (chain m))
      ≡ f (chain (max m n)) (chain (min m n))
higher_first chain numbers m n f =
    let at_m = numbers m in
    let at_n = numbers n in
    elim (Bool-cases (ltb (chain n).number (chain m).number)) [
      | inl above ↦
          let high : max m n ≡ m = ground (arith, above, at_m, at_n) in
          let low : min m n ≡ n = ground (arith, above, at_m, at_n) in rw (above, high, low) refl
      | inr below ↦
          let high : max m n ≡ n = ground (arith, below, at_m, at_n) in
          let low : min m n ≡ m = ground (arith, below, at_m, at_n) in rw (below, high, low) refl
    ]

module _ {W : Type 0} (env : Env W) (chain : ℕ → Block) (top : ℕ) (calm : IsCalm env chain top)
    (s : BlockRangeScanner) (m n : ℕ) where
  open s use {max_block_range as size}

  -- The task of a rewind between two blocks.
  abbrev pub rewind_between : Task Item W (Unit {0})
  rewind_between =
      handle_stream_rewind env (default_handler env) (chain (max m n)) (chain (min m n)) size
        (new s.past_blocks_storage_capacity)

  pub stream_rewind-between :
      (try_join_blocks : BlockId → BlockId → Call W (Result ProviderError (Block × Block)))
      (try_join_numbers : BlockId → Call W (Result ProviderError (ℕ × ℕ))) (fuel : ℕ)
      (start_id end_id : BlockId) (w : W)
      → (try_join_blocks start_id end_id w).0 ≡ ok (chain m, chain n)
      → (Scanner.stream_rewind env try_join_blocks try_join_numbers fuel s start_id end_id w).0
        ≡ ok rewind_between
  unfolding Scanner.stream_rewind
  stream_rewind-between try_join_blocks try_join_numbers fuel start_id end_id w found =
      let handler : RewindHandler = record {
        max_block_range = size;
        start_id = start_id;
        end_id = end_id;
      } in
      let h = new s.past_blocks_storage_capacity in
      run-found env (default_handler env) try_join_blocks handler h (chain m) (chain n) w found
      ∙ ap (λ (task : Task Item W (Unit {0})). ok task)
          (higher_first chain calm.numbers m n
            (λ high low. handle_stream_rewind env (default_handler env) high low size h))

  pub rewind_between-Total :
      Sends env ⊥
      → 1 ≤ size
      → m ≤ top
      → n ≤ top
      → top < block_limit
      → Total rewind_between (RewoundOnce ⊥ size (max m n + 1) (min m n))
  rewind_between-Total sends sized reached₁ reached₂ small =
      let high = calm.numbers (max m n) in
      let low = calm.numbers (min m n) in
      let total =
        handle_stream_rewind-Total env (default_handler env) ⊥ sends (chain (max m n))
          (default_handler-IsQuiet env chain top (max m n) calm (omega (arith, reached₁, reached₂)))
          (chain (min m n)) size (new s.past_blocks_storage_capacity) sized
          (omega (arith, high, low)) (omega (arith, high, reached₁, reached₂, small)) in
      weaken-Total total (λ done t once.
        let from_high =
          subst (λ (k : ℕ). RewoundOnce ⊥ size (k + 1) (chain (min m n)).number done t) high once in
        subst (λ (k : ℕ). RewoundOnce ⊥ size (max m n + 1) k done t) low from_high)

logs_in-HasBlock :
    (block_logs : ℕ → List Log)
    → ((n : ℕ) → All HasBlock (block_logs n))
    → (r : BlockRange) → All HasBlock (logs_in block_logs r)
logs_in-HasBlock block_logs numbered r = each (interval r.start (r.end + 1 - r.start))
  where
    each : (ns : List ℕ) → All HasBlock (logs_of_blocks block_logs ns)
    each [] = tt
    each (n ∷ ns) =
        All-append HasBlock (block_logs n) (logs_of_blocks block_logs ns) (numbered n) (each ns)

-- The listener of a stream that was sent consecutive ranges downwards.
pub told_last :
    {V F S : Type 0} (listening : Env V)
    (logs_for : F → BlockRange → Call V (Result ProviderError (List Log)))
    (block_logs : ℕ → List Log) (listener : EventListener F S) (handler : LatestEventsHandler F S)
    (size upto to : ℕ) (sent : Trace Item) (v : V)
    → ((r : BlockRange) (v' : V) → (logs_for listener.filter r v').0 ≡ ok (logs_in block_logs r))
    → ((n : ℕ) → All HasBlock (block_logs n))
    → RewoundOnce ⊥ size upto to tt sent
    → SentOnce
        (summary (last_of handler.count (logs_of_blocks block_logs (interval to (upto - to)))))
        (handle_latest listening logs_for handler listener (items_of sent) v).1
unfolding handle_latest
told_last listening logs_for block_logs listener handler size upto to sent v fetched numbered
      (inl (rs, e, tiles)) =
    rw
      (e, items_of-all_delivered rs, sym (chronological-TilesDown block_logs size upto to rs tiles))
      (stream_latest_sends_last listening (logs_for listener.filter) handler.count
        (logs_in block_logs) rs v fetched (logs_in-HasBlock block_logs numbered))
told_last listening logs_for block_logs listener handler size upto to sent v fetched numbered
      (inr gone) =
    absurd gone

-- The stream of a rewind ends, and its listener is sent the last logs of its blocks.
pub collected :
    {W V F S : Type 0} (env : Env W) (listening : Env V)
    (logs_for : F → BlockRange → Call V (Result ProviderError (List Log))) (chain : ℕ → Block)
    (top : ℕ) (calm : IsCalm env chain top) (block_logs : ℕ → List Log) (s : BlockRangeScanner)
    (handler : LatestEventsHandler F S) (listener : EventListener F S) (m n : ℕ) (w : W) (v : V)
    → Sends env ⊥
    → ((r : BlockRange) (v' : V) → (logs_for listener.filter r v').0 ≡ ok (logs_in block_logs r))
    → ((k : ℕ) → All HasBlock (block_logs k))
    → 1 ≤ s.max_block_range
    → m ≤ top
    → n ≤ top
    → top < block_limit
    → let (outcome, sent, _) = rewind_between env chain top calm s m n w in
      (outcome ≡ finished tt)
      × SentOnce
          (summary (last_of handler.count (logs_of_blocks block_logs (blocks_between m n))))
          (handle_latest listening logs_for handler listener (items_of sent) v).1
collected env listening logs_for chain top calm block_logs s handler listener m n w v sends fetched
      numbered sized reached₁ reached₂ small =
    let (_, t, w', ran, once) =
      (rewind_between-Total env chain top calm s m n sends sized reached₁ reached₂ small).run w in
    rw ran (
      refl,
      told_last listening logs_for block_logs listener handler _ _ _ t v fetched numbered once,
    )
