-- ===== src/Operators/MaxArray/Tracking.antt =====
-- How far a counter of `NumericArray_MAX` can be ahead of its backup.
use af_stream.Prelude.{
  ℕ, ◌<◌, ◌≡◌, refl, ◌∙◌, ◌≢◌, inl, inr, ◌⊎◌, true, arith, length, set, length-set, get_or-set_self,
  get_or-set_ne, eq_or_ne, Bool-cases, if◌then◌else◌, get_or-replicate, length-replicate, subst,
}
use af_stream.Prelude.Int.{ℤ, pos, ◌-ℤ◌, ◌≤ℤ◌, ltb_ℤ, -ℤ_parts}
use af_stream.Fault.Item.{BackupData}
use af_stream.Operators.MaxArray.{
  NumericArrayMax, IsValid, at, create, update_value, serialize_state,
}

-- No counter is ahead of its backup by more than the threshold, and neither is the one tracked.
pub record IsBounded (a : NumericArrayMax) : Type 0 where
  pub tracked : a.max_diff ≤ℤ a.theta
  pub drift : (j : ℕ) → at a.array j -ℤ at a.backup_array j ≤ℤ a.theta
  pub nonneg : pos 0 ≤ℤ a.theta

module _ (a : NumericArrayMax) (i : ℕ) (v : ℤ) where
  pub update_value-IsValid : IsValid a → i < a.size → IsValid (update_value a i v)
  unfolding update_value
  update_value-IsValid w h = ground (arith, length-set a.array i v)

  pub update_value_fixed :
      ((update_value a i v).array ≡ set a.array i v)
      × ((update_value a i v).backup_array ≡ a.backup_array)
      × ((update_value a i v).size ≡ a.size)
      × ((update_value a i v).theta ≡ a.theta)
  unfolding update_value
  update_value_fixed = ground arith

  -- The counter written is ahead by at most `max_diff`, and a rise of `max_diff` is its own.
  pub update_value_tracks :
      IsValid a
      → i < a.size
      → let a' = update_value a i v in
        (at a'.array i -ℤ at a'.backup_array i ≤ℤ a'.max_diff)
        × (a.max_diff ≤ℤ a'.max_diff)
        × ((a'.max_diff ≡ a.max_diff) ⊎ (a'.max_diff_index ≡ i))
  unfolding update_value
  update_value_tracks w h =
      let len : i < length a.array = omega arith in
      ground (arith, get_or-set_self a.array i v (pos 0) len)

module _ (a : NumericArrayMax) (b : BackupData) where
  pub serialize_state-IsValid : IsValid a → IsValid (serialize_state a b).0
  unfolding serialize_state
  serialize_state-IsValid w =
      ground (arith, length-set a.backup_array a.max_diff_index (at a.array a.max_diff_index))

  -- The counter that is tracked is in step with its backup, and the others are as before.
  pub serialize_state_drift :
      IsValid a
      → (j : ℕ)
      → let a' = (serialize_state a b).0 in
        ((a.max_diff_index ≡ j) × (at a'.backup_array j ≡ at a.array j))
        ⊎ ((a.max_diff_index ≢ j) × (at a'.backup_array j ≡ at a.backup_array j))
  unfolding serialize_state
  serialize_state_drift w j = elim (eq_or_ne a.max_diff_index j) [
    | inl e ↦ inl (e, subst in_step e (get_or-set_self a.backup_array i (at a.array i) (pos 0) len))
    | inr ne ↦ inr (ne, get_or-set_ne a.backup_array i j (at a.array i) (pos 0) ne)
  ]
    where
      i : ℕ
      i = a.max_diff_index

      len : i < length a.backup_array
      len = omega (arith, w.index_in, w.backup_len)

      in_step : ℕ → Type 0
      in_step k = at (set a.backup_array i (at a.array i)) k ≡ at a.array k

  -- Apart from the backup the array is unchanged, and nothing is tracked.
  pub serialize_state_fixed :
      let a' = (serialize_state a b).0 in
      (a'.array ≡ a.array) × (a'.size ≡ a.size) × (a'.theta ≡ a.theta) × (a'.max_diff ≡ pos 0)
  unfolding serialize_state
  serialize_state_fixed = (refl, refl, refl, refl)

pub create-IsValid : (l : ℕ) (d : ℤ) → 0 < l → IsValid (create l d)
unfolding create
create-IsValid l d h = record {
  array_len = length-replicate l (pos 0);
  backup_len = length-replicate l (pos 0);
  index_in = h;
}

pub create-IsBounded : (l : ℕ) (d : ℤ) → pos 0 ≤ℤ d → IsBounded (create l d)
unfolding create
create-IsBounded l d h = record {
  tracked = h;
  drift = λ j. rw (get_or-replicate l j (pos 0)) (omega (arith, -ℤ_parts (pos 0) (pos 0)));
  nonneg = h;
}

-- the operator after `UpdateValue` and the divergence check of its compute thread
abbrev pub checked : NumericArrayMax → BackupData → NumericArrayMax
checked a b = if ltb_ℤ a.theta a.max_diff then (serialize_state a b).0 else a

-- One update followed by one check: no counter is left ahead of its backup by more than the
-- threshold.
pub checked-IsBounded :
    (a : NumericArrayMax) (i : ℕ) (v : ℤ) (b : BackupData)
    → IsValid a
    → IsBounded a
    → i < a.size
    → IsBounded (checked (update_value a i v) b)
checked-IsBounded a i v b w h lt = elim (Bool-cases (ltb_ℤ u.theta u.max_diff)) [
  | inl over ↦ rw over (record {
    tracked = ground (arith, serialize_state_fixed u b, u_fixed, h.nonneg);
    drift = λ j. after_backup over j;
    nonneg = ground (arith, serialize_state_fixed u b, u_fixed, h.nonneg);
  })
  | inr within ↦ rw within (record {
    tracked = ground (arith, within);
    drift = λ j. elim (eq_or_ne i j) [
      | inl e ↦
          subst (λ k. at u.array k -ℤ at u.backup_array k ≤ℤ u.theta) e
            (ground (arith, within, tracks))
      | inr ne ↦ unmoved j ne
    ];
    nonneg = ground (arith, u_fixed, h.nonneg);
  })
]
  where
    u : NumericArrayMax
    u = update_value a i v

    u_fixed :
        (u.array ≡ set a.array i v)
        × (u.backup_array ≡ a.backup_array)
        × (u.size ≡ a.size)
        × (u.theta ≡ a.theta)
    u_fixed = update_value_fixed a i v

    tracks :
        (at u.array i -ℤ at u.backup_array i ≤ℤ u.max_diff)
        × (a.max_diff ≤ℤ u.max_diff)
        × ((u.max_diff ≡ a.max_diff) ⊎ (u.max_diff_index ≡ i))
    tracks = update_value_tracks a i v w lt

    unmoved : (j : ℕ) → i ≢ j → at u.array j -ℤ at u.backup_array j ≤ℤ u.theta
    unmoved j ne =
        rw (u_fixed.0, u_fixed.1, u_fixed.3, get_or-set_ne a.array i j v (pos 0) ne) (h.drift j)

    own_index : ltb_ℤ u.theta u.max_diff ≡ true → u.max_diff_index ≡ i
    own_index over = ground (arith, tracks, over, u_fixed, h.tracked)

    after_backup :
        ltb_ℤ u.theta u.max_diff ≡ true
        → (j : ℕ)
        → let a' = (serialize_state u b).0 in at a'.array j -ℤ at a'.backup_array j ≤ℤ a'.theta
    after_backup over j = elim (serialize_state_drift u b (update_value-IsValid a i v w lt) j) [
      | inl (_, e) ↦
          rw (e, (serialize_state_fixed u b).0, (serialize_state_fixed u b).2, u_fixed.3)
            (omega (arith, -ℤ_parts (at u.array j) (at u.array j), h.nonneg))
      | inr (ne, e) ↦
          rw (e, (serialize_state_fixed u b).0, (serialize_state_fixed u b).2)
            (unmoved j (λ s. ne (own_index over ∙ s)))
    ]
