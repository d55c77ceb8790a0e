-- ===== src/Threads/Loop/Steps.antt =====
-- The steps of a round of the main loop: the feedback, the tuple, and the divergence check.
use af_stream.Prelude.{
  ℕ, ◌+◌, ◌<◌, ◌≡◌, refl, ap, ◌∙◌, ◌⊎◌, inl, inr, some, List, [], ◌∷◌, ◌++◌, ◌==◌, ltb, ◌>>=◌,
  bind_some, Bool-cases, arith,
}
use af_stream.Prelude.Int.{ltb_ℤ}
use af_stream.Fault.Item.{BackupItem, BackupData}
use af_stream.Operators.Interface.{FtInterface}
use af_stream.Threads.Check.{backup_request, answered, check_operator, check_operators}
use af_stream.Threads.Item.{
  ItemType, item_normal, item_finish, item_timeout, item_reverse, item_ack, WrapItem,
}
use af_stream.Threads.Loop.{
  Thread, feedback_case, on_feedback, drain, on_finish, tuple_case, on_tuple, forward_step,
  with_checked, check_step,
}
use af_stream.Threads.Loop.Moved.{
  finish_count, IsSound, Moved, Moved-twice, Moved-none, full_down, full_up, on_finish_moves,
  finish_tuple, user_moves,
}

-- The types that the two switches have a case for.
abbrev pub IsFeedback : ItemType → Type 0
IsFeedback ty = (ty ≡ item_finish) ⊎ (ty ≡ item_reverse)

abbrev pub IsTuple : ItemType → Type 0
IsTuple ty = (ty ≡ item_finish) ⊎ ((ty ≡ item_timeout) ⊎ (ty ≡ item_normal))

abbrev pub AreFeedback : {R : Type 0} → List (WrapItem R) → Type 0
AreFeedback [] = Unit {0}
AreFeedback (w ∷ ws) = IsFeedback w.item_type × AreFeedback ws

abbrev pub finishes_in : {R : Type 0} → List (WrapItem R) → ℕ
finishes_in [] = 0
finishes_in (w ∷ ws) = finish_count w.item_type + finishes_in ws

module _ {U Op R : Type 0} (process_feedback : ℕ → ℕ → R → Thread U Op → U × List Op) where
  feedback_moves :
      (t : Thread U Op) (w : WrapItem R) (ty : ItemType)
      → IsSound t
      → t.down_stop < t.num_downstream
      → IsFeedback ty
      → (t' : Thread U Op) × (feedback_case process_feedback t w ty ≡ some t')
        × Moved t t' 0 (finish_count ty)
  feedback_moves t w item_finish v h k = (
    record t { down_stop = t.down_stop + 1 },
    refl,
    record {
      sound = record {
        some_upstream = v.some_upstream;
        up_le = v.up_le;
        down_le = omega arith;
        announced = v.announced;
        pointed = v.pointed;
      };
      same_up = refl;
      same_down = refl;
      same_writer = refl;
      same_reverse = refl;
      up = inr (omega arith);
      down = inr refl;
    },
  )
  feedback_moves t w item_reverse v h k =
      let u = record t { r_event = t.r_event + 1 } in
      let (x, os) = process_feedback w.worker_source w.thr_source w.payload u in
      let t' = record u { user = x; operators = os } in
      (t', refl, user_moves t t' v refl refl refl refl refl refl refl refl)
  feedback_moves t w item_normal v h k = absurd (ground (arith, k))
  feedback_moves t w item_timeout v h k = absurd (ground (arith, k))
  feedback_moves t w item_ack v h k = absurd (ground (arith, k))

  pub drain_moves :
      (ws : List (WrapItem R)) (t : Thread U Op)
      → IsSound t
      → AreFeedback ws
      → (t' : Thread U Op) × (drain process_feedback t ws ≡ some t') × Moved t t' 0 (finishes_in ws)
  unfolding drain on_feedback
  drain_moves [] t v k = (t, refl, Moved-none t v)
  drain_moves (w ∷ ws) t v k = elim (Bool-cases (ltb t.down_stop t.num_downstream)) [
    | inr e ↦ (t, rw e refl, full_down t (finishes_in (w ∷ ws)) v (ground (arith, e, v.down_le)))
    | inl e ↦
        let (t', s, m) = feedback_moves t w w.item_type v (ground (arith, e)) k.0 in
        let (t'', s', m') = drain_moves ws t' m.sound k.1 in
        (
          t'',
          rw e (bind_some (λ x. drain process_feedback x ws) s s'),
          Moved-twice t t' t'' 0 0 (finish_count w.item_type) (finishes_in ws) m m',
        )
  ]

-- with the pointer at a tuple
pointed_moves :
    {U Op : Type 0} (t : Thread U Op) (q : ℕ) → IsSound t → IsSound (record t { tuple = some q })
pointed_moves t q v = record {
  some_upstream = v.some_upstream;
  up_le = v.up_le;
  down_le = v.down_le;
  announced = v.announced;
  pointed = λ e. (q, refl);
}

module _ {U Op A : Type 0} (process_data : ℕ → ℕ → ℕ → A → Thread U Op → U × List Op)
    (process_punc : Thread U Op → U × List Op) where
  tuple_moves :
      (t : Thread U Op) (w : WrapItem A) (ty : ItemType) (q : ℕ)
      → IsSound t
      → t.up_stop < t.num_upstream
      → t.tuple ≡ some q
      → IsTuple ty
      → (t' : Thread U Op) × (tuple_case process_data process_punc t w ty ≡ some t')
        × (t'.tuple ≡ some q)
        × Moved t t' (finish_count ty) 0
  tuple_moves t w item_finish q v h p k =
      (on_finish t, refl, finish_tuple t ∙ p, on_finish_moves t v h q p)
  tuple_moves t w item_timeout q v h p k =
      let (x, os) = process_punc t in
      let t' = record t { user = x; operators = os } in
      (t', refl, p, user_moves t t' v refl refl refl refl refl refl refl refl)
  tuple_moves t w item_normal q v h p k =
      let u = record t { event = t.event + 1 } in
      let (x, os) = process_data w.worker_source w.thr_source w.seq w.payload u in
      let t' = record u { user = x; operators = os } in
      (t', refl, p, user_moves t t' v refl refl refl refl refl refl refl refl)
  tuple_moves t w item_reverse q v h p k = absurd (ground (arith, k))
  tuple_moves t w item_ack q v h p k = absurd (ground (arith, k))

  -- With a tuple in the queue the pointer is not NULL after the step.
  pub forward_moves :
      (t : Thread U Op) (w : WrapItem A)
      → IsSound t
      → IsTuple w.item_type
      → (t' : Thread U Op) × (forward_step process_data process_punc t (some w) ≡ some t')
        × ((q : ℕ) × (t'.tuple ≡ some q))
        × Moved t t' (finish_count w.item_type) 0
  unfolding forward_step on_tuple
  forward_moves t w v k = elim (Bool-cases (t.up_stop == t.num_upstream)) [
    | inl e ↦
        let full : t.up_stop ≡ t.num_upstream = ground (arith, e) in
        (t, rw e refl, v.pointed full, full_up t (finish_count w.item_type) v full)
    | inr e ↦
        let u = record t { tuple = some w.seq } in
        let (t', s, p, m) =
          tuple_moves u w w.item_type w.seq (pointed_moves t w.seq v) (ground (arith, e, v.up_le))
            refl k in
        (
          t',
          rw e s,
          (w.seq, p),
          record {
            sound = m.sound;
            same_up = m.same_up;
            same_down = m.same_down;
            same_writer = m.same_writer;
            same_reverse = m.same_reverse;
            up = m.up;
            down = m.down;
          },
        )
  ]

module _ {Op : Type 0} (ops : FtInterface Op) (worker_id thread_id : ℕ) where
  -- With a tuple the check reads no NULL.
  check_operator-some :
      (o : Op) (i q : ℕ) (cmd : BackupItem)
      → (c : Op × BackupItem × List BackupItem) × (check_operator ops worker_id thread_id i
            (some q)
            o
            cmd
          ≡ some c)
  unfolding check_operator
  check_operator-some o i q cmd =
      elim (Bool-cases (ltb_ℤ (ops.get_divergence_thresh o) (ops.calculate_divergence o))) [
        | inr e ↦ (((o, cmd, [])), rw e refl)
        | inl e ↦ elim (Bool-cases ((ops.serialize_state o cmd.payload).1.meta.len == 0)) [
          | inl z ↦ ((filled.0, record cmd { payload = filled.1 }, []), rw (e, z) refl)
          | inr z ↦ (
            (filled.0, answered ops worker_id thread_id (request filled.1), request filled.1 ∷ []),
            rw (e, z) refl,
          )
        ]
      ]
    where
      filled : Op × BackupData
      filled = ops.serialize_state o cmd.payload

      request : BackupData → BackupItem
      request = backup_request ops worker_id thread_id i q

  check_operators-some :
      (os : List Op) (i q : ℕ) (cmd : BackupItem)
      → (c : List Op × BackupItem × List BackupItem) × (check_operators ops worker_id thread_id i
            (some q)
            os
            cmd
          ≡ some c)
  unfolding check_operators
  check_operators-some [] i q cmd = ((([], cmd, [])), refl)
  check_operators-some (o ∷ os) i q cmd =
      let (c, e) = check_operator-some o i q cmd in
      let (d, e') = check_operators-some os (i + 1) q c.1 in
      (
        (c.0 ∷ d.0, d.1, c.2 ++ d.2),
        bind_some
            (λ x. check_operators ops worker_id thread_id (i + 1) (some q) os x.1 >>= λ y.
              some (x.0 ∷ y.0, y.1, x.2 ++ y.2))
            e (bind_some (λ y. some (c.0 ∷ y.0, y.1, c.2 ++ y.2)) e' refl),
      )

module _ {U Op : Type 0} (ops : FtInterface Op) (worker_id thread_id : ℕ) where
  pub check_moves :
      (t : Thread U Op) (q : ℕ)
      → IsSound t
      → t.tuple ≡ some q
      → (t' : Thread U Op) × (check_step ops worker_id thread_id t ≡ some t') × Moved t t' 0 0
  unfolding check_step
  check_moves t q v p =
      let (c, e) = check_operators-some ops worker_id thread_id t.operators 0 q t.cmd in
      (
        with_checked t c,
        bind_some (λ x. some (with_checked t x))
            (ap (λ o. check_operators ops worker_id thread_id 0 o t.operators t.cmd) p ∙ e) refl,
        user_moves t (with_checked t c) v refl refl refl refl refl refl refl refl,
      )
