-- ===== src/Task.antt =====
-- An asynchronous function that streams items into a channel: what it attempts to send, in order,
-- and how it ends. The `sender` of the source and `TryStream` of src/types.rs.
pub mod Hoare
pub mod Total
pub mod Runs
use event_scanner.Prelude.{Bool, true, false, ℕ, Option, none, some, List, [], ◌∷◌, ◌++◌}
use event_scanner.Env.{Env, Call}
use event_scanner.Types.{ScannerResult, ChannelState, open_channel, closed_channel}

-- One call of `try_stream`: the receiver got the item, or it had been dropped.
pub data Attempt (I : Type 0) : Type 0 where
  delivered refused : I → Attempt I

-- `running`: the fuel of a loop ended, and what was sent so far stands.
pub data Progress (A : Type 0) : Type 0 where
  finished : A → Progress A
  running panicked : Progress A

abbrev pub Task : Type 0 → Type 0 → Type 0 → Type 0
Task I W A = W → Progress A × List (Attempt I) × W

module _ {I W A : Type 0} where
  unfoldable pub pure : A → Task I W A
  pure a w = (finished a, [], w)

  -- fuel ends
  unfoldable pub still_running : Task I W A
  still_running w = (running, [], w)

  unfoldable pub call : Call W A → Task I W A
  call c w = let (a, w') = c w in (finished a, [], w')

  -- `assert!` and `expect`: `none` is a panic
  unfoldable pub or_panic : Option A → Task I W A
  or_panic none w = (panicked, [], w)
  or_panic (some a) w = (finished a, [], w)

abbrev continue_with :
    {I W B : Type 0}
    → List (Attempt I)
    → Progress B × List (Attempt I) × W
    → Progress B × List (Attempt I) × W
continue_with t (o, t', w) = (o, t ++ t', w)

abbrev continue :
    {I W A B : Type 0}
    → Progress A
    → List (Attempt I)
    → (A → Task I W B)
    → W
    → Progress B × List (Attempt I) × W
continue (finished a) t f w = continue_with t (f a w)
continue running t f w = (running, t, w)
continue panicked t f w = (panicked, t, w)

infixl 5 ◌>>=◌ ◌>>◌
unfoldable pub ◌>>=◌ : {I W A B : Type 0} → Task I W A → (A → Task I W B) → Task I W B
◌>>=◌ m f w = let (o, t, w') = m w in continue o t f w'

abbrev pub ◌>>◌ : {I W A B : Type 0} → Task I W A → Task I W B → Task I W B
m >> k = m >>= λ _. k

abbrev sent : {I : Type 0} → I → Bool → List (Attempt I)
sent item true = delivered item ∷ []
sent item false = refused item ∷ []

abbrev state_of : Bool → ChannelState
state_of true = open_channel
state_of false = closed_channel

-- `TryStream::try_stream`
unfoldable pub try_stream :
    {W T : Type 0} → Env W → ScannerResult T → Task (ScannerResult T) W ChannelState
try_stream env item w =
    let (is_ok, w') = env.send_is_ok w in (finished (state_of is_ok), sent item is_ok, w')
