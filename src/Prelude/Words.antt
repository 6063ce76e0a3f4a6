-- ===== src/Prelude/Words.antt =====
-- `u64` arithmetic as a release build does it: `+` wraps, the `saturating_` operations stop at the
-- ends of the range.
use Prim.Native.Nat.{ℕ, ◌+◌, ◌-◌, ◌%◌, ◌^◌, ◌<◌, min}
use mathlib.Core.Path.{◌≡◌}
use native.Mathlib.Omega.{arith}

abbrev pub u64_max : ℕ
u64_max = 2 ^ 64 - 1

abbrev pub add_u64 : ℕ → ℕ → ℕ
add_u64 a b = (a + b) % 2 ^ 64

-- `a - b` of the source, written where `b <= a` has been tested.
abbrev pub saturating_sub : ℕ → ℕ → ℕ
saturating_sub a b = a - b

abbrev pub saturating_add : ℕ → ℕ → ℕ
saturating_add a b = min (a + b) u64_max

-- What a `u64` holds.
abbrev pub IsU64 : ℕ → Type 0
IsU64 n = n < 2 ^ 64

pub add_u64-eq : (a b : ℕ) → IsU64 (a + b) → add_u64 a b ≡ a + b
add_u64-eq a b h = omega arith
