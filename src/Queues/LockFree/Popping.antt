-- ===== src/Queues/LockFree/Popping.antt =====
-- `pop` misses no ring that has something to read.
use native.Mathlib.Nat.{mod-lt, mod-add-mod, mod-eq_of_lt, mod_self, add-mod_right}
use af_stream.Prelude.{
  ℕ, zero, suc, ◌+◌, ◌-◌, ◌%◌, ◌≤◌, ◌<◌, ◌≡◌, refl, sym, ap, ◌∙◌, ◌⊎◌, inl, inr, Option, none, some,
  List, [], ◌∷◌, leb, if◌then◌else◌, ◌==◌, get_or, set, Bool-cases, Option-cases, arith, subst,
}
use af_stream.Queues.Ring.{Ring, extract, ack}
use af_stream.Queues.LockFree.{LockFreeQueue, ring_at, pop_case, pop_from, pop, new_ring}

set-get_or {ℓ} : {A : Type ℓ} (xs : List A) (i : ℕ) (d : A) → set xs i (get_or xs i d) ≡ xs
set-get_or [] i d = refl
set-get_or (x ∷ xs) zero d = refl
set-get_or (x ∷ xs) (suc i) d = ap (◌∷◌ x) (set-get_or xs i d)

extract-none :
    {A : Type 0} (blank : A) (r : Ring A) → (extract blank r).0 ≡ none → (extract blank r).1 ≡ r
unfolding extract
extract-none blank r e = elim (Bool-cases (r.next_read_index == r.local_write_index)) [
  | inr f ↦ rw f refl
  | inl f ↦ elim (Bool-cases (r.next_read_index == r.write_index)) [
    | inl g ↦ rw (f, g) refl
    | inr g ↦ absurd (ground (arith, e, f, g))
  ]
]

-- the ring that a round visits
visited : (cur num : ℕ) → 0 < num → cur ≤ num → (if leb num cur then 0 else cur) ≡ cur % num
visited cur num h le = elim (Bool-cases (leb num cur)) [
  | inl e ↦
      let top : cur ≡ num = ground (arith, e, le) in
      rw e (sym (ap (λ k. k % num) top ∙ mod_self num))
  | inr e ↦ rw e (sym (mod-eq_of_lt {n = cur} {m = num} (ground (arith, e))))
]

next_visited : (cur num k : ℕ) → (cur % num + 1 + k) % num ≡ (cur + suc k) % num
next_visited cur num k = ap (λ t. t % num) (omega arith) ∙ mod-add-mod cur num (suc k)

module _ {A : Type 0} (blank : A) (indeterminate : ℕ) where
  -- Ring i has nothing for the reader.
  abbrev pub IsIdle : LockFreeQueue A → ℕ → Type 0
  IsIdle s i = (extract blank (ring_at blank indeterminate s i)).0 ≡ none

  -- x was the next item of ring i, which is released; the other rings are as they were.
  abbrev pub IsTaken : LockFreeQueue A → A → ℕ → Option A × LockFreeQueue A → Type 0
  IsTaken s x i p =
      let r = extract blank (ring_at blank indeterminate s i) in
      (i < s.num_queue)
      × (r.0 ≡ some x)
      × (p ≡ (some x, record s { q = set s.q i (ack r.1); cur = i + 1 }))

  abbrev Outcome : ℕ → LockFreeQueue A → Type 0
  Outcome n s =
      (((pop_from blank indeterminate n s).0 ≡ none)
        × ((k : ℕ) → k < n → IsIdle s ((s.cur + k) % s.num_queue)))
      ⊎ ((x : A) × (i : ℕ) × IsTaken s x i (pop_from blank indeterminate n s))

  pop_case-none :
      (s : LockFreeQueue A) (c : ℕ) (e : Option A × Ring A) (rest : Option A × LockFreeQueue A)
      → e.0 ≡ none
      → pop_case blank indeterminate s c e rest ≡ rest
  pop_case-none s c (none, r) rest h = refl
  pop_case-none s c (some x, r) rest h = absurd (cc (h))

  pop_case-some :
      (s : LockFreeQueue A) (c : ℕ) (e : Option A × Ring A) (rest : Option A × LockFreeQueue A)
      (x : A)
      → e.0 ≡ some x
      → pop_case blank indeterminate s c e rest
        ≡ (some x, record s { q = set s.q c (ack e.1); cur = c + 1 })
  pop_case-some s c (none, r) rest x h = absurd (cc (h))
  pop_case-some s c (some y, r) rest x h =
      ap (λ o. (o, record s { q = set s.q c (ack r); cur = c + 1 })) h

  -- After an idle ring the next one is visited, in the same queue.
  pop_from-idle :
      (n : ℕ) (s : LockFreeQueue A) (c : ℕ)
      → (if leb s.num_queue s.cur then 0 else s.cur) ≡ c
      → IsIdle s c
      → pop_from blank indeterminate (suc n) s
        ≡ pop_from blank indeterminate n (record s { cur = c + 1 })
  unfolding pop_from
  pop_from-idle n s c v e =
      let r = ring_at blank indeterminate s c in
      let x = extract blank r in
      rw v (
        pop_case-none s c x
          (pop_from blank indeterminate n (record s { q = set s.q c x.1; cur = c + 1 })) e
        ∙ ap
            (λ (k : List (Ring A)).
              pop_from blank indeterminate n (record s { q = k; cur = c + 1 }))
            (ap (set s.q c) (extract-none blank r e)
              ∙ set-get_or s.q c (new_ring blank indeterminate)))

  pop_from-taken :
      (n : ℕ) (s : LockFreeQueue A) (c : ℕ) (x : A)
      → (if leb s.num_queue s.cur then 0 else s.cur) ≡ c
      → (extract blank (ring_at blank indeterminate s c)).0 ≡ some x
      → pop_from blank indeterminate (suc n) s ≡ (
        some x,
        record s {
          q = set s.q c (ack (extract blank (ring_at blank indeterminate s c)).1);
          cur = c + 1;
        },
      )
  unfolding pop_from
  pop_from-taken n s c x v e =
      let p = extract blank (ring_at blank indeterminate s c) in
      rw v (
        pop_case-some s c p
          (pop_from blank indeterminate n (record s { q = set s.q c p.1; cur = c + 1 })) x e)

  all-IsIdle :
      (n : ℕ) (s : LockFreeQueue A)
      → IsIdle s (s.cur % s.num_queue)
      → ((k : ℕ) → k < n → IsIdle s ((s.cur % s.num_queue + 1 + k) % s.num_queue))
      → (k : ℕ) → k < suc n
      → IsIdle s ((s.cur + k) % s.num_queue)
  all-IsIdle n s e idle zero lt = subst (λ i. IsIdle s (i % s.num_queue)) (omega arith) e
  all-IsIdle n s e idle (suc k) lt =
      subst (IsIdle s) (next_visited s.cur s.num_queue k) (idle k (omega arith))

  pop_from-Outcome :
      (n : ℕ) (s : LockFreeQueue A) → 0 < s.num_queue → s.cur ≤ s.num_queue → Outcome n s
  unfolding pop_from
  pop_from-Outcome zero s h le = inl (refl, λ k lt. absurd (omega arith))
  pop_from-Outcome (suc n) s h le =
      let c = s.cur % s.num_queue in
      let v : (if leb s.num_queue s.cur then 0 else s.cur) ≡ c = visited s.cur s.num_queue h le in
      let below : c < s.num_queue = mod-lt s.cur h in
      elim (Option-cases (extract blank (ring_at blank indeterminate s c)).0) [
        | inr (x, e) ↦ inr (x, c, (below, e, pop_from-taken n s c x v e))
        | inl e ↦
            let s' = record s { cur = c + 1 } in
            let p = pop_from-idle n s c v e in
            elim (pop_from-Outcome n s' h (omega arith)) [
              | inl (z, idle) ↦ inl (ap (λ r. r.0) p ∙ z, all-IsIdle n s e idle)
              | inr (x, i, (lt, f, r)) ↦ inr (x, i, (lt, f, p ∙ r))
            ]
      ]

  -- With at least one ring, `pop` either gives nothing, and then no ring has anything to read; or it
  -- gives the next item of one ring and releases it there, and the other rings are as they were.
  pub pop_lem :
      (s : LockFreeQueue A)
      → 0 < s.num_queue
      → s.cur ≤ s.num_queue
      → (((pop blank indeterminate s).0 ≡ none) × ((i : ℕ) → i < s.num_queue → IsIdle s i))
        ⊎ ((x : A) × (i : ℕ) × IsTaken s x i (pop blank indeterminate s))
  unfolding pop
  pop_lem s h le = elim (pop_from-Outcome s.num_queue s h le) [
    | inr t ↦ inr t
    | inl (z, idle) ↦ inl (
      z,
      λ i lt. elim (Bool-cases (leb s.cur i)) [
        | inl e ↦
            subst (IsIdle s) (ap (λ k. k % s.num_queue) (ground (arith, e)) ∙ mod-eq_of_lt lt)
              (idle (i - s.cur) (ground (arith, e)))
        | inr e ↦
            let back : s.cur + (i + s.num_queue - s.cur) ≡ i + s.num_queue =
              ground (arith, e, le) in
            subst (IsIdle s)
              (ap (λ k. k % s.num_queue) back ∙ (add-mod_right i s.num_queue ∙ mod-eq_of_lt lt))
              (idle (i + s.num_queue - s.cur) (ground (arith, e, le)))
      ],
    )
  ]

  -- A `pop` that gives nothing leaves the rings as they were.
  pub pop_from-kept :
      (n : ℕ) (s : LockFreeQueue A)
      → 0 < s.num_queue
      → s.cur ≤ s.num_queue
      → (pop_from blank indeterminate n s).0 ≡ none
      → ((pop_from blank indeterminate n s).1.q ≡ s.q)
        × ((pop_from blank indeterminate n s).1.num_queue ≡ s.num_queue)
        × ((pop_from blank indeterminate n s).1.cur ≤ s.num_queue)
  unfolding pop_from
  pop_from-kept zero s h le z = (refl, refl, le)
  pop_from-kept (suc n) s h le z =
      let c = s.cur % s.num_queue in
      let v : (if leb s.num_queue s.cur then 0 else s.cur) ≡ c = visited s.cur s.num_queue h le in
      let below : c < s.num_queue = mod-lt s.cur h in
      elim (Option-cases (extract blank (ring_at blank indeterminate s c)).0) [
        | inr (x, e) ↦ absurd (cc (z, ap (λ p. p.0) (pop_from-taken n s c x v e)))
        | inl e ↦
            let s' = record s { cur = c + 1 } in
            let p = pop_from-idle n s c v e in
            let (a, b, d) = pop_from-kept n s' h (omega arith) (sym (ap (λ r. r.0) p) ∙ z) in
            (
              ap (λ r. r.1.q) p ∙ a,
              ap (λ r. r.1.num_queue) p ∙ b,
              subst (λ k. k ≤ s.num_queue) (sym (ap (λ r. r.1.cur) p)) d,
            )
      ]
