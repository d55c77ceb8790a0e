-- ===== src/Prelude/Indices.antt =====
-- Facts about quantified bounds.
use Prim.Native.Nat.{ℕ}
use mathlib.Core.Path.{◌≡◌}
use mathlib.Core.Logic.{◌⊎◌, inl, inr, ◌≢◌}
use native.Mathlib.Decide.{ℕ_discrete}

-- To split on whether two indices are the same.
pub eq_or_ne : (i j : ℕ) → (i ≡ j) ⊎ (i ≢ j)
eq_or_ne i j = elim (ℕ_discrete i j) [ yes e ↦ inl e | no n ↦ inr n ]
