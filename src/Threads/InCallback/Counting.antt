-- ===== src/Threads/InCallback/Counting.antt =====
-- A source is counted once, and the compute threads get one FINISH item for each source.
use af_stream.Prelude.{
  ℕ, suc, ◌+◌, ◌<◌, ◌≡◌, refl, sym, ap, ◌∙◌, subst, ◌⊎◌, inl, inr, Option, some, Bool, true, false,
  List, [], ◌∷◌, ◌==◌, if◌then◌else◌, ◌>>=◌, bind_some, get_elem?, set, length, length-set,
  get_elem?-set_self, get_elem?-set_ne, eq_or_ne, Bool-cases, arith,
}
use Prim.{⊥}
use af_stream.Threads.Item.{
  ItemType, item_normal, item_finish, item_timeout, item_reverse, item_ack, WrapItem,
}
use af_stream.Threads.Loop.Moved.{finish_count}
use af_stream.Threads.OutQueue.{OutQueue, insert}
use af_stream.Threads.InCallback.{
  InCallback, destination, sent_to, finish_case, data_case, type_case, push_record, push_records,
}
use af_stream.Threads.InCallback.Finished.{
  count_true, AllHave, IsCounting, AllHave-sent_to, AllHave-set, count_true-set, count_true_all,
  get_elem?_in,
}

module _ {A : Type 0} where
  -- Whether w is the FINISH item of source i.
  abbrev EndsSource : ℕ → WrapItem A → Type 0
  EndsSource i w = (w.item_type ≡ item_finish) × (w.worker_source ≡ i)

  -- What one call does: the invariant, the entries of `stopped_` that it sets, and its result.
  pub record Pushed (c : InCallback A) (w : WrapItem A) (r : InCallback A × Bool) : Type 0 where
    pub counting : IsCounting r.0
    pub same_in : r.0.num_in ≡ c.num_in
    pub kept : (i : ℕ) → get_elem? c.stopped i ≡ some true → get_elem? r.0.stopped i ≡ some true
    pub marked : EndsSource w.worker_source w → get_elem? r.0.stopped w.worker_source ≡ some true
    pub result : (r.1 ≡ true) ⊎ (c.num_stop < c.num_in → r.0.num_stop < c.num_in)

  first_finish :
      (c : InCallback A) (w : WrapItem A)
      → IsCounting c
      → w.item_type ≡ item_finish
      → get_elem? c.stopped w.worker_source ≡ some false
      → Pushed c w (finish_case c w false)
  first_finish c w v e g = record {
    counting = record {
      some_queue = omega (arith, v.some_queue, length-map c.queues);
      all_sources = length-set c.stopped w.worker_source true ∙ v.all_sources;
      counted = omega (arith, v.counted, count_true-set c.stopped w.worker_source g);
      queued = AllHave-sent_to c.num_stop w c.queues e v.queued;
    };
    same_in = refl;
    kept = λ i h. elim (eq_or_ne w.worker_source i) [
      | inl q ↦
          subst (λ j. get_elem? (set c.stopped w.worker_source true) j ≡ some true) q marked_now
      | inr ne ↦ get_elem?-set_ne c.stopped w.worker_source i true ne ∙ h
    ];
    marked = λ h. marked_now;
    result = elim (Bool-cases (c.num_stop + 1 == c.num_in)) [
      | inl q ↦ inl q
      | inr q ↦ inr (λ h. ground arith)
    ];
  }
    where
      marked_now : get_elem? (set c.stopped w.worker_source true) w.worker_source ≡ some true
      marked_now = get_elem?-set_self c.stopped w.worker_source true false g

      length-map : (qs : List (OutQueue (WrapItem A))) → length (sent_to w qs) ≡ length qs
      length-map [] = refl
      length-map (q ∷ qs) = ap suc (length-map qs)

  later_finish :
      (c : InCallback A) (w : WrapItem A)
      → IsCounting c
      → get_elem? c.stopped w.worker_source ≡ some true
      → Pushed c w (finish_case c w true)
  later_finish c w v g = record {
    counting = v;
    same_in = refl;
    kept = λ i h. h;
    marked = λ h. g;
    result = inr (λ h. h);
  }

  data-Pushed :
      (c : InCallback A) (w : WrapItem A) (q : OutQueue (WrapItem A))
      → IsCounting c
      → finish_count w.item_type ≡ 0
      → get_elem? c.queues destination ≡ some q
      → Pushed c w (data_case c w q)
  data-Pushed c w q v e g = record {
    counting = record {
      some_queue = omega (arith, v.some_queue, length-set c.queues destination (insert w q));
      all_sources = v.all_sources;
      counted = v.counted;
      queued = AllHave-set c.num_stop destination w q c.queues e g v.queued;
    };
    same_in = refl;
    kept = λ i h. h;
    marked = λ h. absurd (omega (arith, e, ap finish_count h.0));
    result = inr (λ h. h);
  }

  abbrev Did : InCallback A → WrapItem A → Option (InCallback A × Bool) → Type 0
  Did c w o = (r : InCallback A × Bool) × (o ≡ some r) × Pushed c w r

  data-Did :
      (c : InCallback A) (w : WrapItem A)
      → IsCounting c
      → finish_count w.item_type ≡ 0
      → Did c w (get_elem? c.queues destination >>= λ q. some (data_case c w q))
  data-Did c w v e =
      let (q, g) = get_elem?_in c.queues destination v.some_queue in
      (data_case c w q, rw g refl, data-Pushed c w q v e g)

  finish-Did :
      (c : InCallback A) (w : WrapItem A) (b : Bool)
      → IsCounting c
      → w.item_type ≡ item_finish
      → get_elem? c.stopped w.worker_source ≡ some b
      → Pushed c w (finish_case c w b)
  finish-Did c w true v e g = later_finish c w v g
  finish-Did c w false v e g = first_finish c w v e g

  type-Did :
      (c : InCallback A) (w : WrapItem A) (ty : ItemType)
      → IsCounting c
      → w.worker_source < c.num_in
      → w.item_type ≡ ty
      → Did c w (type_case c w ty)
  type-Did c w item_finish v h e =
      let (b, g) = get_elem?_in c.stopped w.worker_source (omega (arith, h, v.all_sources)) in
      (finish_case c w b, rw g refl, finish-Did c w b v e g)
  type-Did c w item_normal v h e = data-Did c w v (ap finish_count e)
  type-Did c w item_timeout v h e = data-Did c w v (ap finish_count e)
  type-Did c w item_reverse v h e = data-Did c w v (ap finish_count e)
  type-Did c w item_ack v h e = data-Did c w v (ap finish_count e)

  push_record-Pushed :
      (c : InCallback A) (w : WrapItem A)
      → IsCounting c
      → w.worker_source < c.num_in
      → Did c w (push_record c w)
  unfolding push_record
  push_record-Pushed c w v h = type-Did c w w.item_type v h refl

  abbrev SourcesBelow : ℕ → List (WrapItem A) → Type 0
  SourcesBelow n [] = Unit {0}
  SourcesBelow n (w ∷ ws) = (w.worker_source < n) × SourcesBelow n ws

  -- The FINISH item of source i is among the records.
  abbrev pub HasEnd : ℕ → List (WrapItem A) → Type 0
  HasEnd i [] = ⊥
  HasEnd i (w ∷ ws) = EndsSource i w ⊎ HasEnd i ws

  record Run (c : InCallback A) (ws : List (WrapItem A)) (r : InCallback A × Bool) : Type 0 where
    counting : IsCounting r.0
    same_in : r.0.num_in ≡ c.num_in
    marked :
        (i : ℕ)
        → (get_elem? c.stopped i ≡ some true) ⊎ HasEnd i ws
        → get_elem? r.0.stopped i ≡ some true
    result : (r.1 ≡ true) ⊎ (c.num_stop < c.num_in → r.0.num_stop < c.num_in)

  push_records-Run :
      (c : InCallback A) (ws : List (WrapItem A))
      → IsCounting c
      → SourcesBelow c.num_in ws
      → (r : InCallback A × Bool) × (push_records c ws ≡ some r) × Run c ws r
  unfolding push_records
  push_records-Run c [] v h = (
    (c, false),
    refl,
    record {
      counting = v;
      same_in = refl;
      marked = λ i g. elim g [ inl k ↦ k | inr k ↦ absurd k ];
      result = inr (λ k. k);
    },
  )
  push_records-Run c (w ∷ ws) v (h, hs) =
      let (r, e, p) = push_record-Pushed c w v h in
      let (r', e', p') =
        push_records-Run r.0 ws p.counting (subst (λ n. SourcesBelow n ws) (sym p.same_in) hs) in
      (
        (r'.0, if r.1 then true else r'.1),
        bind_some (λ r. push_records r.0 ws >>= λ r'. some (r'.0, if r.1 then true else r'.1)) e
            (bind_some (λ r'. some (r'.0, if r.1 then true else r'.1)) e' refl),
        record {
          counting = p'.counting;
          same_in = p'.same_in ∙ p.same_in;
          marked = λ i g. p'.marked i (elim g [
            | inl k ↦ inl (p.kept i k)
            | inr k ↦ elim k [
              | inl (a, b) ↦
                  inl (subst (λ j. get_elem? r.0.stopped j ≡ some true) b (p.marked (a, refl)))
              | inr k' ↦ inr k'
            ]
          ]);
          result =
              both r.1 r'.1 c.num_stop r.0.num_stop r'.0.num_stop c.num_in r.0.num_in p.same_in
                p.result p'.result;
        },
      )
    where
      both :
          (x y : Bool) (a b d n n' : ℕ)
          → n' ≡ n
          → (x ≡ true) ⊎ (a < n → b < n)
          → (y ≡ true) ⊎ (b < n' → d < n')
          → ((if x then true else y) ≡ true) ⊎ (a < n → d < n)
      both true y a b d n n' e p q = inl refl
      both false true a b d n n' e p q = inl refl
      both false false a b d n n' e (inl p) q = absurd (cc)
      both false false a b d n n' e (inr p) (inl q) = absurd (cc)
      both false false a b d n n' e (inr p) (inr q) =
          inr (λ h. subst (λ k. d < k) e (q (subst (λ k. b < k) (sym e) (p h))))

  -- A callback that counts soundly, with as many compute threads as sources, since `stopped_` has an
  -- entry for each queue, and with a source that has not finished:
  -- when the records, from sources in range, have a FINISH item of each source, however often, one of
  -- the calls returns 1, and then every compute thread has one FINISH item for each source.
  pub all_sources_finish :
      (c : InCallback A) (ws : List (WrapItem A))
      → IsCounting c
      → c.num_stop < c.num_in
      → SourcesBelow c.num_in ws
      → ((i : ℕ) → i < c.num_in → HasEnd i ws)
      → (c' : InCallback A) × (push_records c ws ≡ some (c', true))
        × IsCounting c'
        × AllHave c.num_in c'.queues
  all_sources_finish c ws v l h g =
      let (r, e, p) = push_records-Run c ws v h in
      let all : count_true r.0.stopped ≡ length r.0.stopped =
        count_true_all r.0.stopped
          (λ i k. p.marked i (inr (g i (omega (arith, k, p.counting.all_sources, p.same_in))))) in
      let full : r.0.num_stop ≡ c.num_in =
        p.counting.counted ∙ all ∙ p.counting.all_sources ∙ p.same_in in
      let done : r.1 ≡ true = elim p.result [
        | inl k ↦ k
        | inr k ↦ absurd (omega (arith, k l, full))
      ] in
      (
        r.0,
        e ∙ ap (λ b. some (r.0, b)) done,
        p.counting,
        subst (λ n. AllHave n r.0.queues) full p.counting.queued,
      )
