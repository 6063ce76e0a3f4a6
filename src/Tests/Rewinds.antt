-- ===== src/Tests/Rewinds.antt =====
-- Rewinds over the small chain.
use event_scanner.Prelude.{ℕ, ◌≡◌, ◌⊎◌, refl, none, some, [], ◌∷◌, arith, ◌+◌, ltb, if◌then◌else◌}
use event_scanner.Types.{ok, Notification, from_data, from_notification}
use event_scanner.Task.{delivered, finished, ◌>>=◌, pure, call, or_panic, try_stream}
use event_scanner.RangeIterator.{BlockRange, forward, reverse, collect_forward, collect_reverse}
use event_scanner.RangeStream.{stream_ranges}
use event_scanner.ReorgHandler.{ReorgHandler}
use event_scanner.Rewind.{handle_stream_rewind, rewind_ranges, handle_reorg_rescan}
use event_scanner.Rewind.Phases.{descending, ended, IsRewound}
use event_scanner.Rewind.Rescan.{IsHonest}
use event_scanner.Rewind.Order.{handle_stream_rewind-IsRewound}
use event_scanner.Tests.World.{block_at, chain_world}

-- A handler that finds a reorg above block 97 at the first check, and none later.
abbrev one_reorg : ReorgHandler ℕ ℕ
one_reorg = record {
  check = λ n block w. if ltb n 1 then ((ok (some (block_at 97)), n + 1), w) else ((ok none, n), w);
}

one_reorg-IsHonest : IsHonest chain_world one_reorg
one_reorg-IsHonest = record {
  numbered = λ n w block e. ground arith;
  ancestors = λ h block w ancestor e. ground arith;
}

abbrev range : ℕ → ℕ → BlockRange
range a b = record { start = a; end = b }

rewind_run :
    (handle_stream_rewind chain_world one_reorg (block_at 100) (block_at 85) 10 0 0).1
    ≡ delivered (from_data (range 91 100))
      ∷ delivered (from_notification (Notification.reorg_detected 97))
      ∷ delivered (from_data (range 98 100))
      ∷ delivered (from_data (range 85 90))
      ∷ []
unfolding handle_stream_rewind rewind_ranges handle_reorg_rescan stream_ranges forward reverse
    collect_forward collect_reverse ◌>>=◌ pure call or_panic try_stream
rewind_run = refl

handle_stream_rewind-IsRewound_example :
    let (outcome, sent, _) =
      handle_stream_rewind chain_world one_reorg (block_at 100) (block_at 85) 10 0 0 in
    (outcome ≡ finished tt)
    × (IsRewound 10 100 85 (descending 85) sent ⊎ IsRewound 10 100 85 ended sent)
handle_stream_rewind-IsRewound_example =
    handle_stream_rewind-IsRewound chain_world one_reorg (block_at 100) (block_at 85) 10 0 0
      one_reorg-IsHonest (omega arith) (omega arith) (omega arith)
