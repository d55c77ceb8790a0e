-- ===== src/Prelude/Modular.antt =====
-- Indices that go round at m.
use Prim.Native.Nat.{ℕ, ◌+◌, ◌-◌, ◌%◌, ◌≤◌, ◌<◌}
use mathlib.Core.Path.{◌≡◌, sym, ap, ◌∙◌}
use mathlib.Core.Logic.{◌≢◌}
use native.Mathlib.Nat.{mod-eq_of_lt, mod-eq-sub-mod, mod-add-mod, mod-lt, add-mod_right}
use native.Mathlib.Decide.{dec_lt, ℕ_discrete}
use native.Mathlib.Omega.{arith}

-- Fewer than m steps round do not come back to the start.
add-mod-ne : (r k m : ℕ) → r < m → 0 < k → k < m → (r + k) % m ≢ r
add-mod-ne r k m hr hk hm = elim (dec_lt (r + k) m) [
  | yes p ↦ omega (arith, mod-eq_of_lt p)
  | no p ↦ omega (
    arith,
    mod-eq-sub-mod {n = r + k} {m = m} (omega arith),
    mod-eq_of_lt {n = r + k - m} {m = m} (omega arith),
  )
]

-- Counters less than m apart that stand at the same index are equal.
pub eq_of_mod-eq : (a b m : ℕ) → b ≤ a → a < b + m → a % m ≡ b % m → a ≡ b
eq_of_mod-eq a b m h lt e = elim (ℕ_discrete a b) [
  | yes s ↦ s
  | no ne ↦ absurd (
      add-mod-ne (b % m) (a - b) m (mod-lt b (omega arith)) (omega arith) (omega arith)
        (mod-add-mod b m (a - b) ∙ (ap (λ k. k % m) (omega arith) ∙ e)))
]

-- One step round.
pub suc-mod_top : (w m : ℕ) → 0 < m → m ≤ w % m + 1 → (w + 1) % m ≡ 0
suc-mod_top w m h full =
    let top : w % m + 1 ≡ m = omega (arith, mod-lt w h) in
    sym (mod-add-mod w m 1)
    ∙ ap (λ k. k % m) top
    ∙ mod-eq-sub-mod {n = m} {m = m} (omega arith)
    ∙ ap (λ k. k % m) (omega arith)
    ∙ mod-eq_of_lt h

pub suc-mod_below : (w m : ℕ) → w % m + 1 < m → (w + 1) % m ≡ w % m + 1
suc-mod_below w m h = sym (mod-add-mod w m 1) ∙ mod-eq_of_lt h

-- The writer's next index meets an index behind it exactly when it is a whole round ahead.
pub meets_of_round : (w b m : ℕ) → w + 1 ≡ b + m → (w + 1) % m ≡ b % m
meets_of_round w b m e = ap (λ k. k % m) e ∙ add-mod_right b m

pub round_of_meets : (w b m : ℕ) → b ≤ w → w < b + m → (w + 1) % m ≡ b % m → w + 1 ≡ b + m
round_of_meets w b m h lt e = elim (ℕ_discrete (w + 1) (b + m)) [
  | yes s ↦ s
  | no ne ↦
      let same : w + 1 ≡ b = eq_of_mod-eq (w + 1) b m (omega arith) (omega arith) e in
      absurd (omega (arith, same))
]
