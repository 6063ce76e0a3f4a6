-- ===== src/Env.antt =====
-- What is not under src/: the RPC provider (`robust_provider`, over alloy's types), the block
-- subscription and the channel to the receiver (tokio). Each call answers from a state of the
-- world and leaves another; what other tasks, the chain and the network do in between is part of
-- that step, so that a theorem about every `Env` is about every interleaving.
use event_scanner.Prelude.{ℕ, Bool, Option}
use event_scanner.Types.{Result, ProviderError}

-- The header of a block, of which the crate reads the number and the hash. A hash is only compared.
pub record Block : Type 0 where
  pub number : ℕ
  pub hash : ℕ

-- alloy's `BlockNumberOrTag`
pub data BlockNumberOrTag : Type 0 where
  latest finalized safe earliest pending : BlockNumberOrTag
  number : ℕ → BlockNumberOrTag

-- alloy's `BlockId`
pub data BlockId : Type 0 where
  by_number : BlockNumberOrTag → BlockId
  by_hash : ℕ → BlockId

-- A call of the outside, on a world `W`.
abbrev pub Call : Type 0 → Type 0 → Type 0
Call W A = W → A × W

pub record Env (W : Type 0) : Type 0 where
  pub get_block_by_number : BlockNumberOrTag → Call W (Result ProviderError Block)
  pub get_block_by_hash : ℕ → Call W (Result ProviderError Block)
  pub get_block : BlockId → Call W (Result ProviderError Block)
  pub get_block_number_by_id : BlockId → Call W (Result ProviderError ℕ)
  pub get_block_number : Call W (Result ProviderError ℕ)
  -- the subscription itself is part of the world, and is read by `next_header`
  pub subscribe_blocks : Call W (Result ProviderError (Unit {0}))
  pub next_header : Call W (Option (Result ProviderError Block))
  -- whether `mpsc::Sender::send` hands its message over; it does not once the receiver is dropped
  pub send_is_ok : Call W Bool
