-- ===== src/Types.antt =====
-- The messages, notifications and errors of src/types.rs and src/error.rs.
use event_scanner.Prelude.{ℕ, Bool, true, false}
use Prim.Native.String.{String}

-- Rust's `Result<A, E>`.
pub data Result (E A : Type 0) : Type 0 where
  ok : A → Result E A
  err : E → Result E A

-- `robust_provider::Error`, the constructors that the crate matches on. The transport's error is
-- only carried along, so a number stands for it.
pub data ProviderError : Type 0 where
  timeout block_not_found closed : ProviderError
  rpc_error lagged : ℕ → ProviderError

pub data ScannerError : Type 0 where
  rpc_error : ℕ → ScannerError
  block_not_found timeout : ScannerError
  block_exceeds_latest : String → ℕ → ℕ → ScannerError
  invalid_event_count invalid_max_block_range invalid_buffer_capacity : ScannerError
  invalid_max_concurrent_fetches subscription_closed : ScannerError
  lagged : ℕ → ScannerError

-- `From<RobustProviderError> for ScannerError`
unfoldable pub from_provider_error : ProviderError → ScannerError
from_provider_error ProviderError.timeout = ScannerError.timeout
from_provider_error (ProviderError.rpc_error e) = ScannerError.rpc_error e
from_provider_error ProviderError.block_not_found = ScannerError.block_not_found
from_provider_error (ProviderError.lagged n) = ScannerError.lagged n
from_provider_error ProviderError.closed = ScannerError.subscription_closed

pub data Notification : Type 0 where
  switching_to_live no_past_logs_found : Notification
  -- the field is `common_ancestor`
  reorg_detected : ℕ → Notification

-- `ScannerMessage<T>`; `data_of` is its `Data`.
pub data ScannerMessage (T : Type 0) : Type 0 where
  data_of : T → ScannerMessage T
  notification : Notification → ScannerMessage T

abbrev pub ScannerResult : Type 0 → Type 0
ScannerResult T = Result ScannerError (ScannerMessage T)

-- What a call of `try_stream` is given: data, a notification or an error, by the implementations of
-- `into_scanner_message_result`.
module _ {T : Type 0} where
  abbrev pub from_data : T → ScannerResult T
  from_data x = ok (data_of x)

  abbrev pub from_notification : Notification → ScannerResult T
  from_notification n = ok (notification n)

  abbrev pub from_error : ScannerError → ScannerResult T
  from_error e = err e

pub data ChannelState : Type 0 where
  open_channel closed_channel : ChannelState

abbrev pub is_closed : ChannelState → Bool
is_closed open_channel = false
is_closed closed_channel = true
