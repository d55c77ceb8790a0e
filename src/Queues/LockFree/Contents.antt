-- ===== src/Queues/LockFree/Contents.antt =====
-- What waits in the rings of a `LockFreeQueue`, and what `push`, `pop` and `flush` do to it.
use af_stream.Prelude.{
  ℕ, zero, suc, ◌+◌, ◌≤◌, ◌<◌, ◌≡◌, refl, sym, ap, ap₂, ◌∙◌, subst, inl, inr, Option, none, some,
  List, [], ◌∷◌, ◌++◌, ◌>>=◌, if◌then◌else◌, ◌==◌, ==_self, ==_ne, length, length-set,
  length-append, get_or, set, map, get_or-set_self, get_or-set_ne, eq_or_ne, Option-cases, arith,
}
use mathlib.Core.List.{append_assoc}
use af_stream.Queues.Ring.{Ring, insert, extract, ack, flush, rb_size, rb_batch}
use af_stream.Queues.Ring.Represents.{History, Represents, create-Represents}
use af_stream.Queues.Ring.Fifo.{insert_cases}
use af_stream.Queues.Ring.Reading.{extract_cases, ack-Represents, flush-Represents}
use af_stream.Queues.LockFree.{LockFreeQueue, new_ring, ring_at, push, pop, flush_all}
use af_stream.Queues.LockFree.Popping.{pop_lem, pop_from-kept}

module _ {A : Type 0} (blank : A) (indeterminate : ℕ) where
  -- The items xs have been inserted into the ring and not been taken out, in this order.
  pub record Waits (r : Ring A) (xs : List A) : Type 0 where
    pub size : ℕ
    pub history : History A
    pub valid : Represents blank size r history
    pub front : List A
    pub split : history.written ≡ front ++ xs
    pub passed : length front ≡ history.consumed

  new_ring-Waits : Waits (new_ring blank indeterminate) []
  new_ring-Waits = record {
    size = rb_size;
    history = _;
    valid = create-Represents blank rb_size rb_batch indeterminate (omega arith);
    front = [];
    split = refl;
    passed = refl;
  }

  insert-Waits :
      (r r' : Ring A) (xs : List A) (x : A)
      → Waits r xs
      → insert r x ≡ some r'
      → Waits r' (xs ++ (x ∷ []))
  insert-Waits r r' xs x v e = elim (insert_cases blank v.size r v.history v.valid x) [
    | inl (_, f) ↦ absurd (cc)
    | inr (_, q, g, f, w, put, _, consumed, _) ↦
        let same : q ≡ r' = cc in
        record {
          size = v.size;
          history = g;
          valid = subst (λ z. Represents blank v.size z g) same w;
          front = v.front;
          split = put ∙ ap (λ l. l ++ (x ∷ [])) v.split ∙ append_assoc v.front xs (x ∷ []);
          passed = v.passed ∙ sym consumed;
        }
  ]

  next_waiting :
      (front xs : List A)
      → length front < length (front ++ xs)
      → (ys : List A) × (xs ≡ get_or (front ++ xs) (length front) blank ∷ ys)
        × (front ++ xs ≡ (front ++ (get_or (front ++ xs) (length front) blank ∷ [])) ++ ys)
  next_waiting [] [] h = absurd (omega arith)
  next_waiting [] (x ∷ xs) h = (xs, refl, refl)
  next_waiting (f ∷ fs) xs h =
      let (ys, e, g) = next_waiting fs xs (omega arith) in (ys, e, ap (◌∷◌ f) g)

  extract-Waits :
      (r : Ring A) (xs : List A) (x : A)
      → Waits r xs
      → (extract blank r).0 ≡ some x
      → (ys : List A) × (xs ≡ x ∷ ys) × Waits (ack (extract blank r).1) ys
  extract-Waits r xs x v e = elim (extract_cases blank v.size r v.history v.valid) [
    | inl (_, f) ↦ absurd (cc (e, f))
    | inr (r', p, more, le, f, w) ↦
        let (released, _, acked) = ack-Represents blank v.size r' _ w more in
        let after : History A = record v.history {
          seen_published = p;
          consumed = v.history.consumed + 1;
          released = released;
        } in
        let whole : length (v.front ++ xs) ≡ length v.history.written = ap length (sym v.split) in
        let (ys, g, h) =
          next_waiting v.front xs
            (omega (arith, v.passed, whole, v.valid.published_le, more, le)) in
        let item : get_or (v.front ++ xs) (length v.front) blank ≡ x =
          ap₂ (λ l k. get_or l k blank) (sym v.split) v.passed ∙ taken x r' f e in
        (
          ys,
          g ∙ ap (λ y. y ∷ ys) item,
          record {
            size = v.size;
            history = after;
            valid =
                subst (λ z. Represents blank v.size (ack z) after) (sym (ap (λ o. o.1) f)) acked;
            front = v.front ++ (x ∷ []);
            split = v.split ∙ h ∙ ap (λ y. (v.front ++ (y ∷ [])) ++ ys) item;
            passed = length-append v.front (x ∷ []) ∙ ap (λ k. k + 1) v.passed;
          },
        )
  ]
    where
      taken :
          {B C : Type 0} {o : Option B × C} {y : B} (x : B) (c : C)
          → o ≡ (some y, c)
          → o.0 ≡ some x
          → y ≡ x
      taken x c f e = cc (ap (λ z. z.0) f, e)

  flush-Waits : (r : Ring A) (xs : List A) → Waits r xs → Waits (flush r) xs
  flush-Waits r xs v = record {
    size = v.size;
    history = _;
    valid = flush-Represents blank v.size r v.history v.valid;
    front = v.front;
    split = v.split;
    passed = v.passed;
  }

  abbrev pub put_list : ℕ → List A → (ℕ → List A) → ℕ → List A
  put_list i xs f j = if i == j then xs else f j

  -- Ring i of the queue has the items f i.
  pub record Contains (s : LockFreeQueue A) (n : ℕ) (f : ℕ → List A) : Type 0 where
    pub rings : length s.q ≡ n
    pub num : s.num_queue ≡ n
    pub cur_le : s.cur ≤ n
    pub waiting : (i : ℕ) → i < n → Waits (ring_at blank indeterminate s i) (f i)

  -- A change of one ring.
  set-Waits :
      (s : LockFreeQueue A) (n i : ℕ) (f : ℕ → List A) (r : Ring A) (xs : List A)
      → Contains s n f
      → i < n
      → Waits r xs
      → (j : ℕ) → j < n
      → Waits (get_or (set s.q i r) j (new_ring blank indeterminate)) (put_list i xs f j)
  set-Waits s n i f r xs v h w j hj = elim (eq_or_ne i j) [
    | inl e ↦
        subst
          (λ k. Waits (get_or (set s.q i r) k (new_ring blank indeterminate)) (put_list i xs f k)) e
          (subst (λ q. Waits q (put_list i xs f i))
            (sym
              (get_or-set_self s.q i r (new_ring blank indeterminate) (omega (arith, h, v.rings))))
            (rw (==_self i) w))
    | inr ne ↦
        subst (λ q. Waits q (put_list i xs f j))
          (sym (get_or-set_ne s.q i j r (new_ring blank indeterminate) ne))
          (rw (==_ne i j ne) (v.waiting j hj))
  ]

  pub push-Contains :
      (s s' : LockFreeQueue A) (n i : ℕ) (f : ℕ → List A) (x : A)
      → Contains s n f
      → i < n
      → push blank indeterminate s i x ≡ some s'
      → Contains s' n (put_list i (f i ++ (x ∷ [])) f)
  unfolding push
  push-Contains s s' n i f x v h e =
      elim (Option-cases (insert (ring_at blank indeterminate s i) x)) [
        | inl g ↦ absurd (cc (e, g))
        | inr (r, g) ↦
            let t : LockFreeQueue A = record s { q = set s.q i r } in
            let same : t ≡ s' = made t e g in
            subst (λ z. Contains z n (put_list i (f i ++ (x ∷ [])) f)) same
              (record {
                rings = length-set s.q i r ∙ v.rings;
                num = v.num;
                cur_le = v.cur_le;
                waiting =
                    set-Waits s n i f r (f i ++ (x ∷ [])) v h
                      (insert-Waits (ring_at blank indeterminate s i) r (f i) x (v.waiting i h) g);
              })
      ]
    where
      made :
          (t : LockFreeQueue A) {o : Option (Ring A)} {r : Ring A}
          → (o >>= λ r. some (record s { q = set s.q i r })) ≡ some s'
          → o ≡ some r
          → record s { q = set s.q i r } ≡ s'
      made t {o} {r} e g =
          let e' : some (record s { q = set s.q i r }) ≡ some s' =
            sym (ap (λ o. o >>= λ r. some (record s { q = set s.q i r })) g) ∙ e in
          cc

  -- `pop` takes the first item of one ring, or leaves everything.
  pub pop-Contains :
      (s : LockFreeQueue A) (n : ℕ) (f : ℕ → List A) (x : A)
      → 0 < n
      → Contains s n f
      → (pop blank indeterminate s).0 ≡ some x
      → (i : ℕ) × (i < n)
        × (ys : List A) × (f i ≡ x ∷ ys)
        × Contains (pop blank indeterminate s).1 n (put_list i ys f)
  pop-Contains s n f x h v e =
      elim (pop_lem blank indeterminate s (omega (arith, v.num)) (omega (arith, v.num, v.cur_le))) [
        | inl (g, _) ↦ absurd (cc)
        | inr (y, i, (lt, g, p)) ↦
            let same : y ≡ x = cc (ap (λ o. o.0) p, e) in
            let below : i < n = omega (arith, lt, v.num) in
            let (ys, k, w) =
              extract-Waits (ring_at blank indeterminate s i) (f i) y (v.waiting i below) g in
            (
              i,
              below,
              ys,
              k ∙ ap (λ z. z ∷ ys) same,
              subst (λ o. Contains o n (put_list i ys f)) (sym (ap (λ o. o.1) p))
                  (record {
                    rings =
                        length-set s.q i (ack (extract blank (ring_at blank indeterminate s i)).1)
                        ∙ v.rings;
                    num = v.num;
                    cur_le = omega (arith, below);
                    waiting =
                        set-Waits s n i f (ack (extract blank (ring_at blank indeterminate s i)).1)
                          ys v below w;
                  }),
            )
      ]

  get_or-map-flush :
      (q : List (Ring A)) (i : ℕ)
      → i < length q
      → get_or (map flush q) i (new_ring blank indeterminate)
        ≡ flush (get_or q i (new_ring blank indeterminate))
  get_or-map-flush [] i h = absurd (omega arith)
  get_or-map-flush (r ∷ rs) zero h = refl
  get_or-map-flush (r ∷ rs) (suc i) h = get_or-map-flush rs i (omega arith)

  length-map-flush : (q : List (Ring A)) → length (map flush q) ≡ length q
  length-map-flush [] = refl
  length-map-flush (r ∷ rs) = ap suc (length-map-flush rs)

  pub flush_all-Contains :
      (s : LockFreeQueue A) (n : ℕ) (f : ℕ → List A) → Contains s n f → Contains (flush_all s) n f
  unfolding flush_all
  flush_all-Contains s n f v = record {
    rings = length-map-flush s.q ∙ v.rings;
    num = v.num;
    cur_le = v.cur_le;
    waiting = λ i h.
        subst (λ r. Waits r (f i)) (sym (get_or-map-flush s.q i (omega (arith, h, v.rings))))
          (flush-Waits (ring_at blank indeterminate s i) (f i) (v.waiting i h));
  }

  -- A `pop` that gives nothing
  pub pop-Contains-none :
      (s : LockFreeQueue A) (n : ℕ) (f : ℕ → List A)
      → 0 < n
      → Contains s n f
      → (pop blank indeterminate s).0 ≡ none
      → Contains (pop blank indeterminate s).1 n f
  unfolding pop
  pop-Contains-none s n f h v e =
      let (q, num, cur) =
        pop_from-kept blank indeterminate s.num_queue s (omega (arith, h, v.num))
          (omega (arith, v.cur_le, v.num)) e in
      record {
        rings = ap length q ∙ v.rings;
        num = num ∙ v.num;
        cur_le = omega (arith, cur, v.num);
        waiting = λ i g.
            subst (λ r. Waits (get_or r i (new_ring blank indeterminate)) (f i)) (sym q)
              (v.waiting i g);
      }
