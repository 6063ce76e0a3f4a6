-- ===== src/Modes.antt =====
-- src/event_scanner/modes: what the modes share, the check of a block that the configuration names
-- and the handlers that a started mode runs.
pub mod Blame
pub mod Validation
pub mod Connect
pub mod ConnectSync
pub mod Delivery
pub mod LiveDelivery
pub mod SyncHearing
pub mod FromBlockDelivery
pub mod FromLatestDelivery
pub mod RewindDelivery
pub mod LatestDelivery
pub mod SyncDelivery
pub mod Handle
pub mod Historic
pub mod Latest
pub mod Live
pub mod FromBlock
pub mod FromLatest
use Prim.Native.String.{String}
use event_scanner.Prelude.{ℕ, ltb, Bool, true, false, List, if◌then◌else◌, add_u64}
use event_scanner.Types.{Result, ProviderError, ScannerError}
use event_scanner.Env.{Env, Block, BlockNumberOrTag, BlockId, Call}
use event_scanner.Task.{Task}
use event_scanner.RangeIterator.{BlockRange}
use event_scanner.RangeStream.{Item}
use event_scanner.Fallible.{Fallible, return, raise, ask, ◌>>=◌}
use event_scanner.EventScanner.{EventListener}
use event_scanner.BlockRangeHandler.{Log, LogItem, stream_logs, stream_latest}

-- `BlockNumberOrTag::as_number().unwrap_or(0)`
abbrev pub as_number_or_zero : BlockNumberOrTag → ℕ
as_number_or_zero (BlockNumberOrTag.number n) = n
as_number_or_zero BlockNumberOrTag.latest = 0
as_number_or_zero BlockNumberOrTag.finalized = 0
as_number_or_zero BlockNumberOrTag.safe = 0
as_number_or_zero BlockNumberOrTag.earliest = 0
as_number_or_zero BlockNumberOrTag.pending = 0

abbrev pub is_pending : BlockNumberOrTag → Bool
is_pending (BlockNumberOrTag.number n) = false
is_pending BlockNumberOrTag.latest = false
is_pending BlockNumberOrTag.finalized = false
is_pending BlockNumberOrTag.safe = false
is_pending BlockNumberOrTag.earliest = false
is_pending BlockNumberOrTag.pending = true

-- The number of a block that the configuration names.
abbrev pub block_num : {W : Type 0} → Env W → String → ℕ → BlockId → Fallible W ℕ
block_num env name latest_block (BlockId.by_number tag) =
    if is_pending tag
    then raise (ScannerError.block_exceeds_latest name (add_u64 latest_block 1) latest_block)
    else return (as_number_or_zero tag)
block_num env name latest_block (BlockId.by_hash hash) = do
  block ← ask (env.get_block_by_hash hash)
  return block.number

-- `from_block` and `to_block` go through the same check.
unfoldable pub check_block : {W : Type 0} → Env W → String → ℕ → BlockId → Fallible W (Unit {0})
check_block env name latest_block id = do
  num ← block_num env name latest_block id
  if ltb latest_block num
      then raise (ScannerError.block_exceeds_latest name num latest_block)
      else return tt

-- `StreamHandler` and `LatestEventsHandler`, but for the provider.
pub record StreamHandler (F S : Type 0) : Type 0 where
  pub listeners : List (EventListener F S)
  pub max_concurrent_fetches : ℕ
  pub broadcast_channel_capacity : ℕ

pub record LatestEventsHandler (F S : Type 0) : Type 0 where
  pub listeners : List (EventListener F S)
  pub max_concurrent_fetches : ℕ
  pub count : ℕ
  pub broadcast_channel_capacity : ℕ

-- What a `start` leaves running: the task that fills the stream, and the handler of what comes out
-- of it. The `StartProof` that it returns carries nothing.
pub record Started (W H : Type 0) : Type 0 where
  pub stream : Task Item W (Unit {0})
  pub handler : H

-- What a handler makes of the items that one of its listeners receives. `logs_for` is the provider's
-- answer to a listener's filter over a range; the world's channel is the listener's.
module _ {W F S : Type 0} (env : Env W)
    (logs_for : F → BlockRange → Call W (Result ProviderError (List Log))) where
  unfoldable pub handle_streaming :
      StreamHandler F S → EventListener F S → List Item → Task LogItem W (Unit {0})
  unfolding stream_logs
  handle_streaming handler listener items = stream_logs env (logs_for listener.filter) items

  unfoldable pub handle_latest :
      LatestEventsHandler F S → EventListener F S → List Item → Task LogItem W (Unit {0})
  unfolding stream_latest
  handle_latest handler listener items =
      stream_latest env (logs_for listener.filter) handler.count items
