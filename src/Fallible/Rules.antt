-- ===== src/Fallible/Rules.antt =====
-- What holds of a result, whatever the provider answers.
use event_scanner.Types.{Result, ok, err, ScannerError, ProviderError, from_provider_error}
use event_scanner.Env.{Call}
use event_scanner.Prelude.{◌≡◌, refl}
use event_scanner.Fallible.{Fallible, ◌>>=◌, next_on, ask, converted}

-- `good` holds of a value, `bad` of an error.
abbrev pub Outcome :
    {A : Type 0} → (A → Type 0) → (ScannerError → Type 0) → Result ScannerError A → Type 0
Outcome good bad (ok a) = good a
Outcome good bad (err e) = bad e

-- A family, so that a rule determines its arguments.
pub record Yields {W A : Type 0} (m : Fallible W A) (good : A → Type 0)
    (bad : ScannerError → Type 0) : Type 0 where
  pub yields : (w : W) → Outcome good bad (m w).0

module _ {W A B : Type 0} {m : Fallible W A} {f : A → Fallible W B} {good : B → Type 0}
    {bad : ScannerError → Type 0} where
  pub bind-Yields :
      (mid : A → Type 0)
      → Yields m mid bad
      → ((a : A) → mid a → Yields (f a) good bad)
      → Yields (m >>= f) good bad
  bind-Yields mid hm hf = record { yields = λ w. go (m w).0 (m w).1 (hm.yields w) }
    where
      go :
          (r : Result ScannerError A) (w : W)
          → Outcome mid bad r
          → Outcome good bad (next_on r f w).0
      go (ok a) w h = (hf a h).yields w
      go (err e) w h = h

module _ {W A : Type 0} {m : Fallible W A} {good good' : A → Type 0}
    {bad : ScannerError → Type 0} where
  pub weaken-Yields : Yields m good bad → ((a : A) → good a → good' a) → Yields m good' bad
  weaken-Yields h k = record { yields = λ w. go (m w).0 (h.yields w) }
    where
      go : (r : Result ScannerError A) → Outcome good bad r → Outcome good' bad r
      go (ok a) q = k a q
      go (err e) q = q

module _ {W A : Type 0} {m : Fallible W A} {good : A → Type 0}
    {bad bad' : ScannerError → Type 0} where
  pub blame-Yields : Yields m good bad → ((e : ScannerError) → bad e → bad' e) → Yields m good bad'
  blame-Yields h k = record { yields = λ w. go (m w).0 (h.yields w) }
    where
      go : (r : Result ScannerError A) → Outcome good bad r → Outcome good bad' r
      go (ok a) q = q
      go (err e) q = k e q

module _ {W A : Type 0} {good : A → Type 0} {bad : ScannerError → Type 0} where
  -- A call of the provider: its value as it was answered, or its error.
  pub ask-Yields :
      (c : Call W (Result ProviderError A))
      → ((w : W) (a : A) → (c w).0 ≡ ok a → good a)
      → ((w : W) (p : ProviderError) → (c w).0 ≡ err p → bad (from_provider_error p))
      → Yields (ask c) good bad
  ask-Yields c h k = record { yields = λ w. go w (c w).0 refl }
    where
      go : (w : W) (r : Result ProviderError A) → (c w).0 ≡ r → Outcome good bad (converted r)
      go w (ok a) e = h w a e
      go w (err p) e = k w p e
