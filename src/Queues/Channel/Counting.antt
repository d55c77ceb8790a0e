-- ===== src/Queues/Channel/Counting.antt =====
-- How often a slot is in some lists.
use af_stream.Prelude.{
  ℕ, zero, suc, ◌+◌, ◌<◌, ◌≡◌, ◌≢◌, refl, sym, ap₂, subst, inl, inr, List, [], ◌∷◌, ◌++◌, ◌==◌,
  ==_self, if◌then◌else◌, eq_or_ne, Bool-cases, arith,
}

abbrev pub count : ℕ → List ℕ → ℕ
count a [] = 0
count a (x ∷ xs) = (if x == a then 1 else 0) + count a xs

-- The list without one a.
abbrev pub without : ℕ → List ℕ → List ℕ
without a [] = []
without a (x ∷ xs) = let rest = without a xs in if x == a then xs else x ∷ rest

abbrev pub sum : (ℕ → ℕ) → ℕ → ℕ
sum g zero = 0
sum g (suc n) = sum g n + g n

-- the a's in the rings below n of a queue, and in the queues below m
abbrev pub total : ℕ → ℕ → (ℕ → List ℕ) → ℕ
total a n f = sum (λ i. count a (f i)) n

abbrev pub grand : ℕ → ℕ → ℕ → (ℕ → ℕ → List ℕ) → ℕ
grand a m n fs = sum (λ j. total a n (fs j)) m

pub count-without :
    (a b : ℕ) (xs : List ℕ)
    → 0 < count a xs
    → count b (without a xs) + (if a == b then 1 else 0) ≡ count b xs
count-without a b [] h = absurd (omega arith)
count-without a b (x ∷ xs) h = elim (Bool-cases (x == a)) [
  | inl e ↦ let same : x ≡ a = ground arith in rw (same, ==_self a) (omega arith)
  | inr e ↦ let ih = count-without a b xs (ground (arith, h, e)) in rw e (omega (arith, ih))
]

pub count-append_one :
    (a b : ℕ) (xs : List ℕ) → count b (xs ++ (a ∷ [])) ≡ count b xs + (if a == b then 1 else 0)
count-append_one a b [] = omega arith
count-append_one a b (x ∷ xs) = omega (arith, count-append_one a b xs)

sum_same : (g g' : ℕ → ℕ) (n : ℕ) → ((i : ℕ) → i < n → g' i ≡ g i) → sum g' n ≡ sum g n
sum_same g g' zero h = refl
sum_same g g' (suc n) h = ap₂ ◌+◌ (sum_same g g' n (λ i k. h i (omega arith))) (h n (omega arith))

-- A sum that changes in one place.
pub sum_change :
    (g g' : ℕ → ℕ) (n j : ℕ)
    → j < n
    → ((i : ℕ) → j ≢ i → g' i ≡ g i)
    → sum g' n + g j ≡ sum g n + g' j
sum_change g g' zero j h k = absurd (omega arith)
sum_change g g' (suc n) j h k = elim (eq_or_ne j n) [
  | inl e ↦
      let below : sum g' n ≡ sum g n =
        sum_same g g' n (λ i l. k i (λ q. absurd (omega (arith, q, e, l)))) in
      subst (λ i. sum g' n + g' n + g i ≡ sum g n + g n + g' i) (sym e) (omega (arith, below))
  | inr ne ↦ let ih = sum_change g g' n j (omega arith) k in omega (arith, ih, k n ne)
]
