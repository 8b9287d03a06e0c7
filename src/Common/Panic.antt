-- ===== src/Common/Panic.antt =====
-- Code that may panic and has no other failure: `none` is a panic.
use Prim.Native.Nat.{ℕ, ◌+◌, ◌/◌, ◌%◌}
use mathlib.Core.Option.{Option, none, some}
use mayastor.Common.Tests.{◌==◌, if◌then◌else◌}

infixl 5 ◌>>=◌
abbrev pub ◌>>=◌ {ℓ κ} : {A : Type ℓ} {B : Type κ} → Option A → (A → Option B) → Option B
none >>= f = none
some a >>= f = f a

-- `/` and `div_ceil` panic on a zero divisor.
abbrev pub div : ℕ → ℕ → Option ℕ
div a b = if b == 0 then none else some (a / b)

abbrev pub div_ceil : ℕ → ℕ → Option ℕ
div_ceil a b = if b == 0 then none else some (if a % b == 0 then a / b else a / b + 1)
