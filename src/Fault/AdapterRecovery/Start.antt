-- ===== src/Fault/AdapterRecovery/Start.antt =====
-- Where the replay starts.
use af_stream.Prelude.{
  ℕ, zero, suc, ◌+◌, ◌-◌, ◌%◌, ◌^◌, ◌≤◌, ◌<◌, ◌≡◌, refl, ◌⊎◌, inl, inr, List, [], ◌∷◌, ◌==◌, length,
  get_or, Bool-cases, arith,
}
use af_stream.Fault.AdapterRecovery.{find_start, start_of}

-- the number b comes right after a
abbrev pub Follows : ℕ → ℕ → Type 0
Follows a b = (b + 2 ^ 64 - a) % 2 ^ 64 ≡ 1

abbrev nth : List ℕ → ℕ → ℕ
nth xs i = get_or xs i 0

abbrev Found : List ℕ → ℕ → ℕ → ℕ → ℕ → Type 0
Found ss i last start k =
    ((k ≡ start) × ((j : ℕ) → j < length ss → Follows (nth (last ∷ ss) j) (nth ss j)))
    ⊎ ((m : ℕ) × (m < length ss)
        × (k ≡ i + m)
        × (¬ Follows (nth (last ∷ ss) m) (nth ss m))
        × ((j : ℕ) → m < j → j < length ss → Follows (nth (last ∷ ss) j) (nth ss j)))

find_start-Found :
    (ss : List ℕ) (i last start : ℕ) → Found ss i last start (find_start ss i last start)
unfolding find_start
find_start-Found [] i last start = inl (refl, λ j h. absurd (omega arith))
find_start-Found (s ∷ ss) i last start = elim (Bool-cases ((s + 2 ^ 64 - last) % 2 ^ 64 == 1)) [
  | inl e ↦ rw e (elim (find_start-Found ss (i + 1) s start) [
    | inl (k, all) ↦ inl (
      k,
      λ j. elim j as (λ j. j < suc (length ss) → Follows (nth (last ∷ s ∷ ss) j) (nth (s ∷ ss) j)) [
        | zero ↦ λ h. ground (arith, e)
        | suc j ↦ λ h. all j (omega arith)
      ],
    )
    | inr (m, lt, k, gap, all) ↦ inr (
      suc m,
      omega arith,
      omega (arith, k),
      gap,
      λ j.
          elim j
            as (λ j.
              suc m < j → j < suc (length ss) → Follows (nth (last ∷ s ∷ ss) j) (nth (s ∷ ss) j)) [
                | zero ↦ λ g h. absurd (omega arith)
                | suc j ↦ λ g h. all j (omega arith) (omega arith)
              ],
    )
  ])
  | inr e ↦ rw e (elim (find_start-Found ss (i + 1) s i) [
    | inl (k, all) ↦ inr (
      zero,
      omega arith,
      omega (arith, k),
      ground (arith, e),
      λ j.
          elim j
            as (λ j.
              zero < j → j < suc (length ss) → Follows (nth (last ∷ s ∷ ss) j) (nth (s ∷ ss) j)) [
                | zero ↦ λ g h. absurd (omega arith)
                | suc j ↦ λ g h. all j (omega arith)
              ],
    )
    | inr (m, lt, k, gap, all) ↦ inr (
      suc m,
      omega arith,
      omega (arith, k),
      gap,
      λ j.
          elim j
            as (λ j.
              suc m < j → j < suc (length ss) → Follows (nth (last ∷ s ∷ ss) j) (nth (s ∷ ss) j)) [
                | zero ↦ λ g h. absurd (omega arith)
                | suc j ↦ λ g h. all j (omega arith) (omega arith)
              ],
    )
  ])
]

-- From the start that is found on each sequence number comes right after the one before it; and the
-- start is the first number, or it does not come right after the one before it. So the replay covers
-- the longest unbroken run at the end.
pub start_of_lem :
    (x : ℕ) (ss : List ℕ)
    → let seqs = x ∷ ss in
      (start_of seqs < length seqs)
      × ((j : ℕ)
          → start_of seqs ≤ j
          → j + 1 < length seqs
          → Follows (get_or seqs j 0) (get_or ss j 0))
      × ((start_of seqs ≡ 0)
          ⊎ ((m : ℕ) × (start_of seqs ≡ m + 1) × (¬ Follows (get_or seqs m 0) (get_or ss m 0))))
unfolding start_of
start_of_lem x ss = elim (find_start-Found ss 1 x 0) [
  | inl (k, all) ↦ (omega (arith, k), λ j g h. all j (omega arith), inl k)
  | inr (m, lt, k, gap, all) ↦ (
    omega (arith, k, lt),
    λ j g h. all j (omega (arith, k)) (omega arith),
    inr (m, omega (arith, k), gap),
  )
]
