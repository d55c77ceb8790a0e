-- ===== src/Operators/SumArray/Backup.antt =====
-- What a backup of the L1 and L2 arrays gains: `SerializeState` takes the counter that is farthest
-- from its backup.
use af_stream.Prelude.{
  ℕ, zero, suc, ◌+◌, ◌%◌, ◌^◌, ◌<◌, ◌≤◌, ◌≡◌, refl, ◌∙◌, List, [], ◌∷◌, length, length-set, arith,
  inl, inr, if◌then◌else◌, Bool-cases, subst, eq_or_ne, sym,
}
use af_stream.Prelude.Int.{ℤ, pos, ◌+ℤ◌, ◌-ℤ◌, ◌≤ℤ◌, ltb_ℤ, int_laws, +ℤ_mono}
use af_stream.Fault.Item.{BackupData}
use af_stream.Operators.MaxArray.{at}
use af_stream.Operators.SumArray.{
  SumArray, diff_at, max_diff_from, serialize_state, distance, IsExact,
}
use af_stream.Operators.SumArray.Distance.{distance-set_backup}

-- n times an integer
abbrev pub times : ℕ → ℤ → ℤ
times zero m = pos 0
times (suc n) m = m +ℤ times n m

module _ (diff : ℤ → ℤ) where
  next_index : (i : ℕ) → suc i < 2 ^ 32 → (i + 1) % 2 ^ 32 ≡ suc i
  next_index i h = omega arith

  max_diff_from_best :
      (a : SumArray) (n i best : ℕ)
      → i + n < 2 ^ 32
      → (diff_at diff a best ≤ℤ diff_at diff a (max_diff_from diff a n i best))
        × ((j : ℕ)
            → i ≤ j
            → j < i + n
            → diff_at diff a j ≤ℤ diff_at diff a (max_diff_from diff a n i best))
  unfolding max_diff_from
  max_diff_from_best a zero i best small = (omega arith, λ j h k. absurd (omega arith))
  max_diff_from_best a (suc n) i best small =
      elim (Bool-cases (ltb_ℤ (diff_at diff a best) (diff_at diff a i))) [
        | inl e ↦
            let ih = max_diff_from_best a n (suc i) i (omega arith) in
            rw (e, next_index i (omega arith))
              (
                ground (arith, ih.0, e),
                λ j h k. from_head (max_diff_from diff a n (suc i) i) i n j h k ih.0 ih.1,
              )
        | inr e ↦
            let ih = max_diff_from_best a n (suc i) best (omega arith) in
            rw (e, next_index i (omega arith))
              (
                ih.0,
                λ j h k.
                    from_head (max_diff_from diff a n (suc i) best) i n j h k
                      (ground (arith, ih.0, e)) ih.1,
              )
      ]
    where
      from_head :
          (r i n j : ℕ)
          → i ≤ j
          → j < i + suc n
          → diff_at diff a i ≤ℤ diff_at diff a r
          → ((k : ℕ) → suc i ≤ k → k < suc i + n → diff_at diff a k ≤ℤ diff_at diff a r)
          → diff_at diff a j ≤ℤ diff_at diff a r
      from_head r i n j h k p q = elim (eq_or_ne i j) [
        | inl e ↦ subst (λ t. diff_at diff a t ≤ℤ diff_at diff a r) e p
        | inr ne ↦ q j (omega (arith, ne)) (omega arith)
      ]

  max_diff_from_in :
      (a : SumArray) (n i best m : ℕ)
      → best < m
      → i + n ≤ m
      → m < 2 ^ 32
      → max_diff_from diff a n i best < m
  unfolding max_diff_from
  max_diff_from_in a zero i best m h k small = h
  max_diff_from_in a (suc n) i best m h k small =
      max_diff_from_in a n ((i + 1) % 2 ^ 32)
        (if ltb_ℤ (diff_at diff a best) (diff_at diff a i) then i else best) m (ground arith)
        (omega arith) small

  -- A distance is at most the length times a bound of its parts.
  distance_bound :
      (xs bs : List ℤ) (m : ℤ)
      → length xs ≡ length bs
      → ((j : ℕ) → j < length xs → diff (at xs j -ℤ at bs j) ≤ℤ m)
      → distance diff xs bs ≤ℤ times (length xs) m
  distance_bound [] bs m e h = omega arith
  distance_bound (x ∷ xs) [] m e h = absurd (omega arith)
  distance_bound (x ∷ xs) (b ∷ bs) m e h =
      +ℤ_mono (diff (x -ℤ b)) m (distance diff xs bs) (times (length xs) m) (h 0 (omega arith))
        (distance_bound xs bs m (omega arith) (λ j l. h (suc j) (omega arith)))

  -- `SerializeState` of a nonempty array with fewer than 2 ^ 32 counters keeps `tot_diff` the distance between the counters and
  -- their backups, and takes away at least the `length`-th part of it.
  pub serialize_state-IsExact :
      (a : SumArray) (b : BackupData)
      → diff (pos 0) ≡ pos 0
      → 0 < a.size
      → a.size < 2 ^ 32
      → IsExact diff a
      → let a' = (serialize_state diff a b).0 in
        IsExact diff a'
        × (a.tot_diff ≤ℤ times a.size (a.tot_diff -ℤ a'.tot_diff))
        × (a'.array ≡ a.array)
  unfolding serialize_state
  serialize_state-IsExact a b z h small w = (
    record {
      array_len = w.array_len;
      backup_len = length-set a.backup_array r (at a.array r) ∙ w.backup_len;
      total =
          rw
            (
              distance-set_backup diff a.array a.backup_array r z
                  (omega (arith, w.array_len, w.backup_len)) (omega (arith, w.array_len, r_in)),
              w.total,
            )
            refl;
    },
    share,
    refl,
  )
    where
      r : ℕ
      r = max_diff_from diff a a.size 0 0

      r_in : r < a.size
      r_in = max_diff_from_in a a.size 0 0 a.size h (omega arith) small

      taken : diff_at diff a r ≡ a.tot_diff -ℤ (a.tot_diff -ℤ diff_at diff a r)
      taken = omega int_laws

      share : a.tot_diff ≤ℤ times a.size (a.tot_diff -ℤ (a.tot_diff -ℤ diff_at diff a r))
      share =
          subst (λ m. a.tot_diff ≤ℤ times a.size m) taken
            (subst (λ t. t ≤ℤ times a.size (diff_at diff a r)) (sym w.total)
              (subst (λ n. distance diff a.array a.backup_array ≤ℤ times n (diff_at diff a r))
                w.array_len
                (distance_bound a.array a.backup_array (diff_at diff a r)
                  (omega (arith, w.array_len, w.backup_len))
                  (λ j l.
                    (max_diff_from_best a a.size 0 0 (omega (arith, small))).1 j (omega arith)
                      (omega (arith, w.array_len, l))))))
