-- ===== src/Threads/Loop/Finish.antt =====
-- How the main loop of a compute thread ends: it counts the FINISH items of both sides.
use af_stream.Prelude.{
  ℕ, ◌+◌, ◌≤◌, ◌≡◌, refl, ap, ◌∙◌, inl, inr, Option, none, some, false, List, [], ◌∷◌, ◌==◌, ltb,
  if◌then◌else◌, ◌>>=◌, bind_some, Bool-cases, ==_self, arith,
}
use af_stream.Fault.Item.{BackupItem}
use af_stream.Operators.Interface.{FtInterface}
use af_stream.Threads.Item.{WrapItem}
use af_stream.Threads.Loop.{
  Thread, Round, destinations, create, forward_step, check_step, round, running, loop,
  emit_reverse_finish,
}
use af_stream.Threads.Loop.Moved.{
  finish_count, IsSound, Moved, create-IsSound, Moved-twice, Moved-as, Moved-none,
}
use af_stream.Threads.Loop.Steps.{
  IsTuple, AreFeedback, finishes_in, drain_moves, forward_moves, check_moves,
}

-- what a round needs: items of types that the switches know, and a tuple to read
abbrev pub IsReady : {A R : Type 0} → Round A R → Type 0
IsReady r = AreFeedback r.feedback × ((w : _) × (r.forward ≡ some w) × IsTuple w.item_type)

abbrev pub AreReady : {A R : Type 0} → List (Round A R) → Type 0
AreReady [] = Unit {0}
AreReady (r ∷ rs) = IsReady r × AreReady rs

abbrev pub finish_of : {A : Type 0} → Option (WrapItem A) → ℕ
finish_of none = 0
finish_of (some w) = finish_count w.item_type

-- the FINISH items on the forward queue, and those on the reverse queue
abbrev pub up_finishes : {A R : Type 0} → List (Round A R) → ℕ
up_finishes [] = 0
up_finishes (r ∷ rs) = finish_of r.forward + up_finishes rs

abbrev pub down_finishes : {A R : Type 0} → List (Round A R) → ℕ
down_finishes [] = 0
down_finishes (r ∷ rs) = finishes_in r.feedback + down_finishes rs

module _ {U Op A R : Type 0} (ops : FtInterface Op) (worker_id thread_id : ℕ)
    (process_data : ℕ → ℕ → ℕ → A → Thread U Op → U × List Op)
    (process_punc : Thread U Op → U × List Op)
    (process_feedback : ℕ → ℕ → R → Thread U Op → U × List Op) where
  abbrev a_round : Thread U Op → Round A R → Option (Thread U Op)
  a_round = round ops worker_id thread_id process_data process_punc process_feedback

  abbrev a_loop : Thread U Op → List (Round A R) → Option (Thread U Op)
  a_loop = loop ops worker_id thread_id process_data process_punc process_feedback

  round_moves :
      (t : Thread U Op) (r : Round A R)
      → IsSound t
      → IsReady r
      → (t' : Thread U Op) × (a_round t r ≡ some t')
        × Moved t t' (finish_of r.forward) (finishes_in r.feedback)
  unfolding round
  round_moves t r v (fb, (w, e, k)) =
      let (t1, e1, m1) = drain_moves process_feedback r.feedback t v fb in
      let (t2, e2, (q, p), m2) = forward_moves process_data process_punc t1 w m1.sound k in
      let (t3, e3, m3) = check_moves ops worker_id thread_id t2 q m2.sound p in
      let forward_eq : forward_step process_data process_punc t1 r.forward ≡ some t2 =
        ap (forward_step process_data process_punc t1) e ∙ e2 in
      (
        t3,
        bind_some
            (λ x.
              forward_step process_data process_punc x r.forward
              >>= check_step ops worker_id thread_id)
            e1 (bind_some (check_step ops worker_id thread_id) forward_eq e3),
        Moved-as t t3 (0 + (finish_count w.item_type + 0)) (finish_of r.forward)
            (finishes_in r.feedback + (0 + 0)) (finishes_in r.feedback) (rw e (omega arith))
            (omega arith)
            (Moved-twice t t1 t3 0 (finish_count w.item_type + 0) (finishes_in r.feedback) (0 + 0)
              m1 (Moved-twice t1 t2 t3 (finish_count w.item_type) 0 0 0 m2 m3)),
      )

  loop_moves :
      (rs : List (Round A R)) (t : Thread U Op)
      → IsSound t
      → AreReady rs
      → (t' : Thread U Op) × (a_loop t rs ≡ some t')
        × Moved t t' (up_finishes rs) (down_finishes rs)
  unfolding loop
  loop_moves [] t v k = (t, refl, Moved-none t v)
  loop_moves (r ∷ rs) t v k = elim (Bool-cases (running t)) [
    | inr e ↦ (
      t,
      rw e refl,
      record {
        sound = v;
        same_up = refl;
        same_down = refl;
        same_writer = refl;
        same_reverse = refl;
        up = inl (ground (arith, e, v.up_le));
        down = inl (ground (arith, e, v.down_le));
      },
    )
    | inl e ↦
        let (t', s, m) = round_moves t r v k.0 in
        let (t'', s', m') = loop_moves rs t' m.sound k.1 in
        (
          t'',
          rw e (bind_some (λ x. a_loop x rs) s s'),
          Moved-twice t t' t'' (finish_of r.forward) (up_finishes rs) (finishes_in r.feedback)
              (down_finishes rs) m m',
        )
  ]

  at_end :
      (m n : ℕ) (x : U) (os : List Op) (cmd : BackupItem) (t : Thread U Op) (u d : ℕ)
      → Moved (create m n x os cmd) t u d
      → (if m == 0 then 1 else m) ≤ u
      → n ≤ d
      → (running t ≡ false)
        × (t.finishes ≡ destinations n)
        × ((emit_reverse_finish t).r_finishes ≡ (if ltb 0 m then destinations m else []))
  unfolding create emit_reverse_finish
  at_end m n x os cmd t u d v hu hd =
      let up : t.up_stop ≡ t.num_upstream = ground (arith, v.up, v.same_up, v.sound.up_le, hu) in
      let down : t.down_stop ≡ n = ground (arith, v.down, v.same_down, v.sound.down_le, hd) in
      (
        ground (arith, up, down, v.same_down),
        v.sound.announced ∙ (rw (up, ==_self t.num_upstream) (ap destinations v.same_down)),
        ground (arith, v.same_writer, v.same_reverse, v.same_up),
      )

  -- A compute thread with m upstream and n downstream neighbours whose rounds each bring a tuple,
  -- only items of the types that the loop knows, and at least as many FINISH items as neighbours on
  -- either side (one, if there is no upstream), leaves its loop without a failure. Every downstream
  -- neighbour has then been sent exactly one FINISH item, and after the loop every upstream one,
  -- if there are any.
  pub neighbours_finished :
      (m n : ℕ) (x : U) (os : List Op) (cmd : BackupItem) (rs : List (Round A R))
      → AreReady rs
      → (if m == 0 then 1 else m) ≤ up_finishes rs
      → n ≤ down_finishes rs
      → (t : Thread U Op) × (a_loop (create m n x os cmd) rs ≡ some t)
        × (running t ≡ false)
        × (t.finishes ≡ destinations n)
        × ((emit_reverse_finish t).r_finishes ≡ (if ltb 0 m then destinations m else []))
  neighbours_finished m n x os cmd rs k hu hd =
      let (t, e, v) = loop_moves rs (create m n x os cmd) (create-IsSound m n x os cmd) k in
      let (stopped, down, reverse) =
        at_end m n x os cmd t (up_finishes rs) (down_finishes rs) v hu hd in
      (t, e, stopped, down, reverse)
