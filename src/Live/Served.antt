-- ===== src/Live/Served.antt =====
-- What live streaming relies on, and where the streaming of a range leaves the receiver.
use event_scanner.Prelude.{ℕ, ◌+◌, ◌<◌, ◌≡◌, Option, none, some}
use event_scanner.Types.{ok}
use event_scanner.Env.{Env, Block, BlockNumberOrTag}
use event_scanner.Task.Hoare.{Trace}
use event_scanner.RangeIterator.Step.{block_limit}
use event_scanner.RangeStream.{Item}
use event_scanner.ReorgHandler.{ReorgHandler}
use event_scanner.Receiver.Rules.{ServedTo, Gapless}

-- What the code relies on: the provider returns the block that was asked for, and block numbers
-- stay below 2^63 - 1.
pub record IsLawful {W H : Type 0} (env : Env W) (reorg_handler : ReorgHandler W H) : Type 0 where
  pub numbered :
      (n : ℕ) (w : W) (block : Block)
      → (env.get_block_by_number (BlockNumberOrTag.number n) w).0 ≡ ok block
      → block.number ≡ n
  pub headers :
      (w : W) (block : Block) → (env.next_header w).0 ≡ some (ok block) → block.number < block_limit
  pub ancestors :
      (h : H) (block : Block) (w : W) (ancestor : Block)
      → (reorg_handler.check h block w).0.0 ≡ ok (some ancestor)
      → ancestor.number < block_limit

module _ (stream_start size : ℕ) where
  -- Where the streaming of a range to `end` leaves the receiver.
  unfoldable pub AtEnd : ℕ → {H : Type 0} → Option Block × H → Trace Item → Type 0
  AtEnd end (none, h) t = Gapless stream_start size t
  AtEnd end (some block, h) t =
      ServedTo stream_start size (block.number + 1) t
      × ServedTo stream_start size (end + 1) t
      × (block.number < block_limit)
