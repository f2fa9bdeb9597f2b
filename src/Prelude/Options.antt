-- ===== src/Prelude/Options.antt =====
-- Chains of calls that may fail: the bind of `Option`, which `do` blocks use.
use mathlib.Core.Option.{Option, none, some}

infixl 5 ◌>>=◌
abbrev pub ◌>>=◌ {ℓ κ} : {A : Type ℓ} {B : Type κ} → Option A → (A → Option B) → Option B
none >>= f = none
some a >>= f = f a
