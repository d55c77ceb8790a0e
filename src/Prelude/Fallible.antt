-- ===== src/Prelude/Fallible.antt =====
-- Chains of steps that can fail, over `Option`.
use mathlib.Core.Option.{Option, none, some}
use mathlib.Core.Path.{◌≡◌, ap, ◌∙◌}

infixl 5 ◌>>=◌
abbrev pub ◌>>=◌ {ℓ κ} : {A : Type ℓ} {B : Type κ} → Option A → (A → Option B) → Option B
none >>= f = none
some a >>= f = f a

pub bind_some {ℓ κ} :
    {A : Type ℓ} {B : Type κ} {o : Option A} {a : A} {b : B} (f : A → Option B)
    → o ≡ some a
    → f a ≡ some b
    → (o >>= f) ≡ some b
bind_some f e h = ap (λ x. x >>= f) e ∙ h
