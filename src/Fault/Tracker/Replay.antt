-- ===== src/Fault/Tracker/Replay.antt =====
-- What recovery leaves at each operator of a worker.
use af_stream.Prelude.{
  ℕ, ◌≡◌, refl, sym, ap, ◌∙◌, inl, inr, some, List, [], ◌∷◌, ◌==◌, ◌&&◌, if◌then◌else◌, ◌>>=◌, set,
  get_elem?, get_elem?-set_self, get_elem?-set_ne, eq_or_ne, Option-cases, ==_self, ==_ne, subst,
  arith,
}
use af_stream.Fault.Item.{BackupItem}
use af_stream.Operators.Interface.{FtInterface}
use af_stream.Fault.Tracker.{
  OperatorTracker, op_of, find_op, with_op, put_op, restored_op, recover_op, recover_list, is_for,
  replayed,
}

row :
    {S : Type 0} (xs : List S) (b d : ℕ) (s s' r : S)
    → get_elem? xs b ≡ some s
    → get_elem? xs d ≡ some r
    → get_elem? (set xs b s') d ≡ some (if b == d then s' else r)
row xs b d s s' r h k = elim (eq_or_ne b d) [
  | inl e ↦
      subst (λ n. get_elem? (set xs b s') n ≡ some (if b == n then s' else r)) e
        (rw (==_self b) (get_elem?-set_self xs b s' s h))
  | inr ne ↦ rw (==_ne b d ne) (get_elem?-set_ne xs b d s' ne ∙ k)
]

module _ {S : Type 0} (t : OperatorTracker S) (a b : ℕ) (s s' : S) where
  -- A change of one operator leaves the others.
  put_op_find :
      (c d : ℕ) (r : S)
      → find_op t a b ≡ some s
      → find_op t c d ≡ some r
      → find_op (put_op t a b s') c d ≡ some (if (a == c) && (b == d) then s' else r)
  unfolding find_op put_op
  put_op_find c d r h k = elim (Option-cases (get_elem? t.operators a)) [
    | inl e ↦ absurd (cc (h, ap (λ o. op_of o b) e))
    | inr (xs, e) ↦ ap (λ o. find_op (with_op t a b s' o) c d) e ∙ elim (eq_or_ne a c) [
      | inl q ↦ thread xs e c q k
      | inr ne ↦
          rw (==_ne a c ne)
            (ap (λ o. op_of o d) (get_elem?-set_ne t.operators a c (set xs b s') ne) ∙ k)
    ]
  ]
    where
      thread :
          (xs : List S)
          → get_elem? t.operators a ≡ some xs
          → (c : ℕ) → a ≡ c
          → find_op t c d ≡ some r
          → op_of (get_elem? (set t.operators a (set xs b s')) c) d
            ≡ some (if (a == c) && (b == d) then s' else r)
      thread xs e c q =
          subst
            (λ n.
              find_op t n d ≡ some r
              → op_of (get_elem? (set t.operators a (set xs b s')) n) d
                ≡ some (if (a == n) && (b == d) then s' else r))
            q
            (λ m. rw (==_self a) (
              ap (λ o. op_of o d) (get_elem?-set_self t.operators a (set xs b s') xs e)
              ∙ row xs b d s s' r (sym (ap (λ o. op_of o b) e) ∙ h)
                  (sym (ap (λ o. op_of o d) e) ∙ m)))

  put_op_worker : (put_op t a b s').worker_id ≡ t.worker_id
  unfolding put_op
  put_op_worker = elim (Option-cases (get_elem? t.operators a)) [
    | inl e ↦ ap (λ o. (with_op t a b s' o).worker_id) e
    | inr (xs, e) ↦ ap (λ o. (with_op t a b s' o).worker_id) e
  ]

-- Every item is from this worker, and for an operator that it has.
abbrev pub AreHeld : {S : Type 0} → OperatorTracker S → List BackupItem → Type 0
AreHeld t [] = Unit {0}
AreHeld t (item ∷ items) =
    (item.info.worker_id ≡ t.worker_id)
    × ((s : _) × (find_op t item.info.thread_id item.info.op_index ≡ some s))
    × AreHeld t items

AreHeld-kept :
    {S : Type 0} (t t' : OperatorTracker S) (items : List BackupItem)
    → t'.worker_id ≡ t.worker_id
    → ((c d : ℕ) (r : S) → find_op t c d ≡ some r → (r' : S) × (find_op t' c d ≡ some r'))
    → AreHeld t items
    → AreHeld t' items
AreHeld-kept t t' [] e h held = held
AreHeld-kept t t' (item ∷ items) e h (w, (s, f), held) =
    (w ∙ sym e, h item.info.thread_id item.info.op_index s f, AreHeld-kept t t' items e h held)

module _ {S : Type 0} (ops : FtInterface S) where
  recover_op-held :
      (t : OperatorTracker S) (item : BackupItem) (s : S)
      → item.info.worker_id ≡ t.worker_id
      → find_op t item.info.thread_id item.info.op_index ≡ some s
      → recover_op ops t item
        ≡ some (put_op t item.info.thread_id item.info.op_index (ops.recovery_state s item.payload))
  unfolding recover_op
  recover_op-held t item s w f = rw (w, ==_self t.worker_id) (ap (restored_op ops t item) f)

  own :
      (t : OperatorTracker S) (a b c d : ℕ) (s r : S) (item : BackupItem)
      → find_op t a b ≡ some s
      → find_op t c d ≡ some r
      → (if (a == c) && (b == d) then ops.recovery_state s item.payload else r)
        ≡ (if (a == c) && (b == d) then ops.recovery_state r item.payload else r)
  own t a b c d s r item f g = elim (eq_or_ne a c) [
    | inr ne ↦ rw (==_ne a c ne) refl
    | inl p ↦ elim (eq_or_ne b d) [
      | inr ne ↦ ground (arith, ne)
      | inl q ↦
          let e : s ≡ r = cc (f, g, p, q) in
          ap (λ v. if (a == c) && (b == d) then ops.recovery_state v item.payload else r) e
    ]
  ]

  -- Recovery from items that are all of this worker, and of operators that it has, succeeds, and
  -- each operator is what `RecoveryState` makes of the items for its thread and index, in their
  -- order, and of no others.
  pub recover_list-find :
      (items : List BackupItem) (t : OperatorTracker S)
      → AreHeld t items
      → (t' : OperatorTracker S) × (recover_list ops t items ≡ some t')
        × ((c d : ℕ) (r : S)
            → find_op t c d ≡ some r
            → find_op t' c d ≡ some (replayed ops c d r items))
  unfolding recover_list
  recover_list-find [] t held = (t, refl, λ c d r f. f)
  recover_list-find (item ∷ items) t (w, (s, f), held) =
      let a = item.info.thread_id in
      let b = item.info.op_index in
      let s' = ops.recovery_state s item.payload in
      let u = put_op t a b s' in
      let moved = put_op_find t a b s s' in
      let (t', e, after) = recover_list-find items u (
        AreHeld-kept t u items (put_op_worker t a b s s')
          (λ c d r g. (if (a == c) && (b == d) then s' else r, moved c d r f g)) held) in
      (
        t',
        ap (λ o. o >>= λ v. recover_list ops v items) (recover_op-held t item s w f) ∙ e,
        λ c d r g.
            after c d (if is_for ops c d item then ops.recovery_state r item.payload else r)
              (moved c d r f g ∙ ap some (own t a b c d s r item f g)),
      )
