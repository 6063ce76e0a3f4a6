-- ===== src/Lib.antt =====
-- event_scanner: a model of the block range scanner of this repository, in cubical type theory.
--
-- The crate turns a chain of blocks into ranges of block numbers, of bounded size and in order, that
-- it sends to a receiver, and repairs the sequence when the chain is reorganised. The parts:
-- - Env: what the crate calls and does not contain, the RPC provider, the subscription to new
--   blocks and the channel to the receiver. It is a parameter of every definition that uses it.
--   Each call answers from a world and leaves another, so a theorem for every `Env` holds for every
--   answer and every interleaving with other tasks, the chain and the network.
-- - Types: the messages, notifications, errors and channel states of src/types.rs and src/error.rs.
-- - Task: an asynchronous function as a computation that tries to send items and finishes, runs out
--   of fuel or panics (`assert!`, `expect`); `try_stream` of src/types.rs. Task/Hoare has triples
--   over what was sent so far and a rule for each operation, Task/Total the same for tasks that
--   finish from every world, Task/Runs for tasks that finish from the worlds of a precondition.
-- - RangeIterator: src/block_range_scanner/range_iterator.rs, both directions, with the wrap-around
--   of u64 written out (`% 2 ^ 64`, as in a release build) and the iterator's own saturations.
-- - RingBuffer: src/block_range_scanner/ring_buffer.rs; its VecDeque is a list, oldest first.
-- - ReorgHandler: src/block_range_scanner/reorg_handler.rs; the trait is a record, which the live
--   stream takes as a parameter, and the default implementation an instance of it.
-- - RangeStream: the loop that sends the ranges of an iterator, which several handlers have.
-- - Historical: src/block_range_scanner/historical_range_handler.rs.
-- - Live: the functions of src/block_range_scanner/common.rs; Live/Loop has the phases of the stream.
-- - Rewind: src/block_range_scanner/rewind_handler.rs.
-- - Sync: src/block_range_scanner/sync_handler.rs.
-- - Scanner: src/block_range_scanner/builder.rs and src/block_range_scanner/scanner.rs, which check
--   the configuration and start the streams.
-- - BlockRangeHandler: src/event_scanner/block_range_handler.rs, what the task of one listener makes
--   of the ranges that are broadcast to it. BlockRangeHandler/Pipeline has its two tasks, which
--   forward and process the ranges, and the channel between them, in any order of turns.
--   BlockRangeHandler/Broadcast and Modes/Handle have the broadcast and all listeners of a handler.
-- - Filtering: src/event_scanner/filter.rs. alloy's sets of topics are a parameter with their laws.
-- - Fallible: functions that only ask the provider and return a result, with `?` as their bind;
--   Fallible/Rules has a rule for each step.
-- - EventScanner: src/event_scanner/builder.rs, src/event_scanner/scanner.rs and
--   src/event_scanner/listener.rs, the configuration of the modes and the listeners.
-- - Messages: src/types.rs, src/error.rs and src/event_scanner/message.rs, the comparisons of items.
-- - Modes: src/event_scanner/modes, `connect` and `start` of each of the five modes.
--   Modes/Delivery, Modes/RewindDelivery with Modes/LatestDelivery, Modes/LiveDelivery,
--   Modes/SyncHearing with Modes/FromBlockDelivery and Modes/FromLatestDelivery, and
--   Modes/SyncDelivery follow a started mode to what its stream sends and its listener has.
-- - Historical/Calm, Rewind/Calm, Sync/Ends, Live/Calm with Live/CalmRun, Live/CalmStart and
--   Live/CalmStream, and Sync/CalmSync: the handlers while the chain stands. A subscription is there
--   the list of what it will still yield, read off the world. Sync/Meeting: the catch-up and the live
--   streaming together.
-- - Receiver: what a receiver knows of the ranges since the last reorg notification, the view that
--   the theorems on the handlers share.
-- - Tests: runs on a small chain, and each theorem applied to one.
--
-- A hash is a number that is only compared. A loop over a buffer or an iterator is recursion on its
-- length; a loop that the outside keeps going (a subscription, repeated reorgs) is recursion on
-- fuel, and where the fuel ends the outcome is `running`, with what was sent so far, so that a
-- safety theorem for every fuel is one about every finite prefix of an endless run. Block numbers
-- are below 2 ^ 63 - 1 where a theorem needs that the additions do not wrap.
--
-- Not modelled: the message texts and the logging, the concurrent fetches inside `buffered`, how
-- tokio's channels lag and `join_all` waits (parameters of the definitions that use them), and the
-- tools, examples, benchmarks and tests.
pub mod Prelude
pub mod Types
pub mod Env
pub mod Task
pub mod RangeIterator
pub mod RingBuffer
pub mod ReorgHandler
pub mod RangeStream
pub mod Historical
pub mod Rewind
pub mod Live
pub mod Sync
pub mod Scanner
pub mod Filtering
pub mod Fallible
pub mod EventScanner
pub mod Modes
pub mod BlockRangeHandler
pub mod Receiver
mod Tests
pub mod Messages
