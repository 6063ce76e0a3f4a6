-- ===== src/RangeStream.antt =====
-- The loop that the handlers of src/block_range_scanner share: `for range in iter { if
-- sender.try_stream(range).await.is_closed() { return … } }`.
use event_scanner.Prelude.{List, [], ◌∷◌}
use event_scanner.Types.{ScannerResult, ChannelState, open_channel, closed_channel, from_data}
use event_scanner.Env.{Env}
use event_scanner.Task.{Task, pure, ◌>>=◌, try_stream}
use event_scanner.RangeIterator.{BlockRange}

-- `BlockScannerResult`
abbrev pub Item : Type 0
Item = ScannerResult BlockRange

module _ {W : Type 0} (env : Env W) where
  unfoldable pub stream_ranges : List BlockRange → Task Item W ChannelState
  stream_ranges [] = pure open_channel
  stream_ranges (range ∷ ranges) = do
    state ← try_stream env (from_data range)
    elim state [ closed_channel ↦ pure closed_channel | open_channel ↦ stream_ranges ranges ]
