-- ===== src/Fallible.antt =====
-- Asynchronous functions that return a `Result` and send nothing: `?` on the calls of the provider.
pub mod Rules
use event_scanner.Types.{Result, ok, err, ProviderError, ScannerError, from_provider_error}
use event_scanner.Env.{Call}

abbrev pub Fallible : Type 0 → Type 0 → Type 0
Fallible W A = Call W (Result ScannerError A)

abbrev pub return : {W A : Type 0} → A → Fallible W A
return a w = (ok a, w)

abbrev pub raise : {W A : Type 0} → ScannerError → Fallible W A
raise e w = (err e, w)

abbrev pub next_on :
    {W A B : Type 0} → Result ScannerError A → (A → Fallible W B) → W → Result ScannerError B × W
next_on (ok a) f w = f a w
next_on (err e) f w = (err e, w)

infixl 5 ◌>>=◌
abbrev pub ◌>>=◌ : {W A B : Type 0} → Fallible W A → (A → Fallible W B) → Fallible W B
m >>= f = λ w. next_on (m w).0 f (m w).1

abbrev pub converted : {A : Type 0} → Result ProviderError A → Result ScannerError A
converted (ok a) = ok a
converted (err e) = err (from_provider_error e)

-- `provider.call().await?`
abbrev pub ask : {W A : Type 0} → Call W (Result ProviderError A) → Fallible W A
ask c w = (converted (c w).0, (c w).1)
