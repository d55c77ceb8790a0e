-- ===== src/Tolerance/Run.antt =====
-- Every update keeps the invariant, and none makes the compute thread fail.
use af_stream.Prelude.{
  ℕ, ◌+◌, ◌-◌, ◌^◌, ◌≤◌, ◌<◌, ◌≡◌, refl, sym, ap, ◌∙◌, inl, inr, true, false, some, [], ◌∷◌, ◌==◌,
  if◌then◌else◌, arith, length, set, get_or-set_self, get_or-set_ne, eq_or_ne, subst, ==_self,
  ==_ne, Bool-cases,
}
use af_stream.Prelude.Int.{ℤ, pos, ltb_ℤ, ◌≤ℤ◌}
use af_stream.Memory.Copy.{read_at-read_at}
use af_stream.Memory.Double.{to_double, ltb_ℤ-to_double}
use af_stream.Memory.Integers.{InI64, i64_of_bytes}
use af_stream.Fault.Item.{BackupData, BackupItem, max_backup_item_data_len}
use af_stream.Fault.Content.{save_backup}
use af_stream.Fault.Content.Slots.{IsSized, key_of}
use af_stream.Fault.Content.Stored.{
  Stored, stored, carried, save-IsValid, stored-save_backup, used-save_backup,
}
use af_stream.Operators.MaxArray.{
  NumericArrayMax, IsValid, at, max_array_ops, update_value, serialize_state, calculate_divergence,
}
use af_stream.Operators.MaxArray.Tracking.{
  IsBounded, checked, checked-IsBounded, update_value-IsValid, update_value_fixed,
  serialize_state-IsValid, serialize_state_fixed, serialize_state_drift,
}
use af_stream.Threads.Check.{check_operator, backup_request, answered}
use af_stream.Tolerance.{Tracked, Update, process, save_all, deliver}
use af_stream.Tolerance.Sync.{
  restored, restored_or_zero, serialize_state-meta, serialize_state-len, serialize_state-value,
  IsSynced,
}

-- A threshold of 53 bits, with which the rounding of a divergence makes no difference
abbrev pub IsThreshold : ℤ → Type 0
IsThreshold theta = (pos 0 ≤ℤ theta) × (theta ≤ℤ pos (2 ^ 53 - 1))

module _ (worker_id thread_id op_index seq : ℕ) (a : NumericArrayMax) (cmd : BackupItem)
    (t : IsThreshold a.theta) where
  compared : ltb_ℤ a.theta (to_double a.max_diff) ≡ ltb_ℤ a.theta a.max_diff
  compared = ltb_ℤ-to_double a.theta a.max_diff t.0 t.1

  check_within :
      ltb_ℤ a.theta a.max_diff ≡ false
      → check_operator max_array_ops worker_id thread_id op_index (some seq) a cmd
        ≡ some (a, cmd, [])
  unfolding check_operator calculate_divergence
  check_within h = rw (compared, h)

  abbrev sent : BackupItem
  sent =
      backup_request max_array_ops worker_id thread_id op_index seq
        (serialize_state a cmd.payload).1

  check_over :
      ltb_ℤ a.theta a.max_diff ≡ true
      → check_operator max_array_ops worker_id thread_id op_index (some seq) a cmd
        ≡ some (
          (serialize_state a cmd.payload).0,
          answered max_array_ops worker_id thread_id sent,
          sent ∷ [],
        )
  unfolding check_operator calculate_divergence
  check_over h = rw (compared, h, (serialize_state-meta a cmd.payload).0)

module _ (fill : ℕ → BackupItem) (worker_id thread_id op_index : ℕ) (s : Tracked) (u : Update) where
  abbrev updated : NumericArrayMax
  updated = update_value s.op u.index u.value

  abbrev request : BackupItem
  request =
      backup_request max_array_ops worker_id thread_id op_index u.seq
        (serialize_state updated s.cmd.payload).1

  abbrev backed_up : Tracked
  backed_up = record {
    op = (serialize_state updated s.cmd.payload).0;
    cmd = answered max_array_ops worker_id thread_id request;
    content = save_backup fill s.content request;
  }

  process_within :
      IsThreshold updated.theta
      → ltb_ℤ updated.theta updated.max_diff ≡ false
      → process fill worker_id thread_id op_index s u ≡ some (record s { op = updated })
  unfolding process save_all
  process_within t h =
      ap (deliver fill s.content)
        (check_within worker_id thread_id op_index u.seq updated s.cmd t h)

  process_over :
      IsThreshold updated.theta
      → ltb_ℤ updated.theta updated.max_diff ≡ true
      → process fill worker_id thread_id op_index s u ≡ some backed_up
  unfolding process save_all
  process_over t h =
      ap (deliver fill s.content) (check_over worker_id thread_id op_index u.seq updated s.cmd t h)

module _ (fill : ℕ → BackupItem) (fill-IsSized : (i : ℕ) → IsSized (fill i))
    (worker_id thread_id op_index size : ℕ) (theta : ℤ) (s : Tracked) (u : Update)
    (v : IsSynced size theta s) (lt : u.index < size) (value_in : InI64 u.value)
    (space : s.content.used_slots < 2 ^ 31) (t : IsThreshold theta) where
  a : NumericArrayMax
  a = update_value s.op u.index u.value

  b : BackupData
  b = s.cmd.payload

  req : BackupItem
  unfolding a
  req = request fill worker_id thread_id op_index s u

  fixed :
      (a.array ≡ set s.op.array u.index u.value)
      × (a.backup_array ≡ s.op.backup_array)
      × (a.size ≡ s.op.size)
      × (a.theta ≡ s.op.theta)
  unfolding a
  fixed = update_value_fixed s.op u.index u.value

  a-IsValid : IsValid a
  unfolding a
  a-IsValid = update_value-IsValid s.op u.index u.value v.valid (omega (arith, v.size_eq))

  a-values : (j : ℕ) → InI64 (at a.array j)
  a-values j = rw fixed.0 (elim (eq_or_ne u.index j) [
    | inl e ↦
        subst (λ k. InI64 (at (set s.op.array u.index u.value) k)) e
          (rw (get_or-set_self s.op.array u.index u.value (pos 0) within) value_in)
    | inr ne ↦ rw (get_or-set_ne s.op.array u.index j u.value (pos 0) ne) (v.values j)
  ])
    where
      within : u.index < length s.op.array
      within = omega (arith, v.valid.array_len, v.size_eq)

  a-IsBounded : IsBounded (checked a b)
  unfolding a
  a-IsBounded =
      checked-IsBounded s.op u.index u.value b v.valid v.bounded (omega (arith, v.size_eq))

  within-IsSynced : ltb_ℤ a.theta a.max_diff ≡ false → IsSynced size theta (record s { op = a })
  within-IsSynced h = record {
    valid = a-IsValid;
    bounded = subst (λ t. IsBounded (if t then (serialize_state a b).0 else a)) h a-IsBounded;
    size_eq = fixed.2 ∙ v.size_eq;
    theta_eq = fixed.3 ∙ v.theta_eq;
    values = a-values;
    sized = v.sized;
    content = v.content;
    same = λ j. v.same j ∙ ap (λ l. at l j) (sym fixed.1);
    shaped = v.shaped;
  }

  req-meta : (req.payload.meta.len ≡ 12) × (key_of req ≡ a.max_diff_index)
  unfolding a b req backup_request
  req-meta = serialize_state-meta a b

  req-fits : req.payload.meta.len ≤ max_backup_item_data_len
  req-fits = omega (arith, req-meta)

  -- What is sent restores the counter that was tracked.
  req-restored : restored (carried req) ≡ at a.array a.max_diff_index
  unfolding a b req backup_request
  req-restored = rw req-meta.0 (
      ap i64_of_bytes (read_at-read_at (serialize_state a b).1.bytes 12 4 8 (omega arith))
      ∙ serialize_state-value a b v.sized (a-values a.max_diff_index))

  req-stored :
      (j : ℕ)
      → stored (save_backup fill s.content req) j
        ≡ (if a.max_diff_index == j then some (carried req) else stored s.content j)
  req-stored j =
      stored-save_backup fill fill-IsSized s.content req v.content space req-fits j
      ∙ ap (λ k. if k == j then some (carried req) else stored s.content j) req-meta.1

  req-stored_here :
      (j : ℕ)
      → a.max_diff_index ≡ j
      → stored (save_backup fill s.content req) j ≡ some (carried req)
  req-stored_here j e = req-stored j ∙ rw (e, ==_self j) refl

  over-same :
      (j : ℕ)
      → restored_or_zero (stored (save_backup fill s.content req) j)
        ≡ at (serialize_state a b).0.backup_array j
  over-same j = elim (serialize_state_drift a b a-IsValid j) [
    | inl (e, here) ↦
        ap restored_or_zero (req-stored_here j e) ∙ req-restored ∙ ap (at a.array) e ∙ sym here
    | inr (ne, there) ↦
        ap restored_or_zero (req-stored j ∙ rw (==_ne a.max_diff_index j ne) refl)
        ∙ v.same j
        ∙ sym (there ∙ ap (λ l. at l j) fixed.1)
  ]

  over-shaped :
      (k : ℕ) (x : Stored)
      → stored (save_backup fill s.content req) k ≡ some x
      → (x.meta.len ≡ 12) × (x.meta.key ≡ k) × (k < size)
  over-shaped k x e = elim (eq_or_ne a.max_diff_index k) [
    | inl i ↦
        ground (arith, req-stored_here k i, e, i, req-meta, a-IsValid.index_in, fixed, v.size_eq)
    | inr ne ↦ v.shaped k x (sym (req-stored k ∙ rw (==_ne a.max_diff_index k ne) refl) ∙ e)
  ]

  over-IsSynced :
      ltb_ℤ a.theta a.max_diff ≡ true
      → IsSynced size theta (backed_up fill worker_id thread_id op_index s u)
  unfolding a b req answered backup_request
  over-IsSynced h = record {
    valid = serialize_state-IsValid a b a-IsValid;
    bounded = subst (λ t. IsBounded (if t then (serialize_state a b).0 else a)) h a-IsBounded;
    size_eq = (serialize_state_fixed a b).1 ∙ fixed.2 ∙ v.size_eq;
    theta_eq = (serialize_state_fixed a b).2 ∙ fixed.3 ∙ v.theta_eq;
    values = λ j. subst (λ l. InI64 (at l j)) (sym (serialize_state_fixed a b).0) (a-values j);
    sized = serialize_state-len a b ∙ v.sized;
    content =
        save-IsValid fill fill-IsSized s.content req v.content space (omega (arith, req-fits));
    same = over-same;
    shaped = over-shaped;
  }

  a-IsThreshold : IsThreshold a.theta
  a-IsThreshold = subst IsThreshold (sym (fixed.3 ∙ v.theta_eq)) t

  -- The round succeeds, keeps the invariant, and takes at most one more slot at the server.
  pub process-IsSynced :
      (s' : Tracked) × (process fill worker_id thread_id op_index s u ≡ some s')
      × IsSynced size theta s'
      × (s'.content.used_slots ≤ s.content.used_slots + 1)
  unfolding a b req
  process-IsSynced = elim (Bool-cases (ltb_ℤ a.theta a.max_diff)) [
    | inl over ↦ (
      backed_up fill worker_id thread_id op_index s u,
      process_over fill worker_id thread_id op_index s u a-IsThreshold over,
      over-IsSynced over,
      used-save_backup fill fill-IsSized s.content req v.content space,
    )
    | inr within ↦ (
      record s { op = a },
      process_within fill worker_id thread_id op_index s u a-IsThreshold within,
      within-IsSynced within,
      omega arith,
    )
  ]
