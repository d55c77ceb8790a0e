-- ===== src/Threads/UpTrace/Dealing.antt =====
-- The records of an adapter are dealt out in turn.
use af_stream.Prelude.{
  ℕ, zero, suc, ◌+◌, ◌%◌, ◌<◌, ◌≡◌, ◌≢◌, refl, sym, ap, ◌∙◌, subst, inl, inr, Option, none, some,
  true, false, List, [], ◌∷◌, ◌++◌, ◌==◌, ==_ne, if◌then◌else◌, ◌>>=◌, bind_some, get_elem?, set,
  map, length, length-set, get_elem?-set_self, get_elem?-set_ne, eq_or_ne, arith,
}
use mathlib.Core.List.{append_assoc, append-nil}
use native.Mathlib.Nat.{mod-lt, mod-add-mod}
use af_stream.Prelude.Int.{pos, pos_part, ◌+ℤ◌}
use af_stream.Threads.Item.{item_finish, WrapItem}
use af_stream.Threads.OutQueue.{OutQueue, insert, flush}
use af_stream.Threads.UpTrace.{get_destination, UpThreadTrace, filled, emit, emit_all, main_handler}

-- an adapter that gives these records and then NULL
abbrev pub Gives : {A S : Type 0} → (S → Option A × S) → S → List A → Type 0
Gives read a [] = (read a).0 ≡ none
Gives read a (x ∷ xs) = ((read a).0 ≡ some x) × Gives read (read a).1 xs

-- the records, from number k on, whose number is i modulo n
abbrev pub dealt : {A : Type 0} → ℕ → ℕ → ℕ → List A → List A
dealt n i k [] = []
dealt n i k (x ∷ xs) = if k % n == i then x ∷ dealt n i (suc k) xs else dealt n i (suc k) xs

next_pos : (m : ℕ) → pos_part (pos m +ℤ pos 1) ≡ m + 1
unfolding ◌+ℤ◌
next_pos m = ground arith

plus_one : (m : ℕ) → m + 1 ≡ suc m
plus_one m = omega arith

module _ {R A S : Type 0} (read_record : S → Option R × S) (assign : A → R → A)
    (slots : ℕ → WrapItem A) (n : ℕ) where
  -- n queues, and the router is at record k.
  pub record IsAt (k : ℕ) (t : UpThreadTrace A) : Type 0 where
    pub some_queue : 0 < n
    pub max_is : t.router.max ≡ n
    pub all_queues : length t.queues ≡ n
    pub turn : pos_part (t.router.cur +ℤ pos 1) % n ≡ k % n

  -- what is put into the slots for the records from number e on
  abbrev pub items : ℕ → List R → List (WrapItem A)
  items e [] = []
  items e (x ∷ xs) = filled assign (slots e) x ∷ items (suc e) xs

  found : {B : Type 0} (xs : List B) (i : ℕ) → i < length xs → (x : B) × (get_elem? xs i ≡ some x)
  found [] i h = absurd (omega arith)
  found (x ∷ xs) zero h = (x, refl)
  found (x ∷ xs) (suc i) h = found xs i (omega arith)

  -- What `Emit` does to the queues, where the router is at record k.
  pub record Emitted (k : ℕ) (slot : WrapItem A) (x : R) (t t' : UpThreadTrace A) : Type 0 where
    pub at : IsAt (suc k) t'
    pub same_event : t'.event ≡ t.event
    pub here :
        (q : OutQueue (WrapItem A))
        → get_elem? t.queues (k % n) ≡ some q
        → get_elem? t'.queues (k % n) ≡ some (insert (filled assign slot x) q)
    pub elsewhere : (i : ℕ) → k % n ≢ i → get_elem? t'.queues i ≡ get_elem? t.queues i

  emit_eq :
      (slot : WrapItem A) (x : R) (t : UpThreadTrace A) (d : ℕ) (q : OutQueue (WrapItem A))
      → (t.router.max == 0) ≡ false
      → pos_part (t.router.cur +ℤ pos 1) % t.router.max ≡ d
      → get_elem? t.queues d ≡ some q
      → emit assign slot x t
        ≡ some (record t {
          router = record t.router { cur = pos d };
          queues = set t.queues d (insert (filled assign slot x) q);
        })
  unfolding emit get_destination
  emit_eq slot x t d q not_zero here g = rw (not_zero, here, g) refl

  emit_lem :
      (k : ℕ) (slot : WrapItem A) (x : R) (t : UpThreadTrace A)
      → IsAt k t
      → (t' : UpThreadTrace A) × (emit assign slot x t ≡ some t') × Emitted k slot x t t'
  emit_lem k slot x t v =
      let d = pos_part (t.router.cur +ℤ pos 1) % t.router.max in
      let here : d ≡ k % n = ap (λ m. pos_part (t.router.cur +ℤ pos 1) % m) v.max_is ∙ v.turn in
      let below : k % n < n = mod-lt k v.some_queue in
      let (q, g) = found t.queues (k % n) (omega (arith, below, v.all_queues)) in
      let not_zero : (t.router.max == 0) ≡ false =
        ==_ne t.router.max 0 (λ z. omega (arith, z, v.max_is, v.some_queue)) in
      let t' : UpThreadTrace A = record t {
        router = record t.router { cur = pos (k % n) };
        queues = set t.queues (k % n) (insert (filled assign slot x) q);
      } in
      (
        t',
        emit_eq slot x t (k % n) q not_zero here g,
        record {
          at = record {
            some_queue = v.some_queue;
            max_is = v.max_is;
            all_queues =
                length-set t.queues (k % n) (insert (filled assign slot x) q) ∙ v.all_queues;
            turn =
                ap (λ m. m % n) (next_pos (k % n))
                ∙ mod-add-mod k n 1
                ∙ ap (λ m. m % n) (plus_one k);
          };
          same_event = refl;
          here = λ p e.
              get_elem?-set_self t.queues (k % n) (insert (filled assign slot x) q) q g
              ∙ ap (λ o. o >>= λ z. some (insert (filled assign slot x) z)) (sym g ∙ e);
          elsewhere =
              λ i ne. get_elem?-set_ne t.queues (k % n) i (insert (filled assign slot x) q) ne;
        },
      )

  -- Each queue after the loop: what it had, and then its records.
  pub record Dealt (k : ℕ) (xs : List R) (t t' : UpThreadTrace A) : Type 0 where
    pub all_queues : length t'.queues ≡ n
    pub events : t'.event ≡ t.event + length xs
    pub queued :
        (i : ℕ) (q : OutQueue (WrapItem A))
        → i < n
        → get_elem? t.queues i ≡ some q
        → get_elem? t'.queues i
          ≡ some (record q { inserted = q.inserted ++ dealt n i k (items t.event xs) })

  dealt_one :
      (k i : ℕ) (y : WrapItem A) (ys ws : List (WrapItem A))
      → k % n ≡ i
      → ws ++ (y ∷ []) ++ dealt n i (suc k) ys ≡ ws ++ dealt n i k (y ∷ ys)
  dealt_one k i y ys ws e =
      let f : (k % n == i) ≡ true = ground arith in
      rw f (append_assoc ws (y ∷ []) (dealt n i (suc k) ys))

  emit_all_lem :
      (xs : List R) (fuel k : ℕ) (t : UpThreadTrace A) (a : S)
      → IsAt k t
      → Gives read_record a xs
      → length xs < fuel
      → (t' : UpThreadTrace A) × (emit_all read_record assign slots fuel t a ≡ some t')
        × Dealt k xs t t'
  unfolding emit_all insert
  emit_all_lem xs zero k t a v g h = absurd (omega arith)
  emit_all_lem [] (suc m) k t a v g h = (
    t,
    rw g refl,
    record {
      all_queues = v.all_queues;
      events = omega arith;
      queued =
          λ i q b e. e ∙ ap (λ ws. some (record q { inserted = ws })) (sym (append-nil q.inserted));
    },
  )
  emit_all_lem (x ∷ xs) (suc m) k t a v (g, gs) h =
      let v' : IsAt k (record t { event = t.event + 1 }) = record {
        some_queue = v.some_queue;
        max_is = v.max_is;
        all_queues = v.all_queues;
        turn = v.turn;
      } in
      let (t', e, w) = emit_lem k (slots t.event) x (record t { event = t.event + 1 }) v' in
      let (t'', e', w') = emit_all_lem xs m (suc k) t' (read_record a).1 w.at gs (omega arith) in
      let y = filled assign (slots t.event) x in
      let ys = items (suc t.event) xs in
      let queued' : (i : ℕ) (q : OutQueue (WrapItem A))
          → i < n
          → get_elem? t'.queues i ≡ some q
          → get_elem? t''.queues i
            ≡ some (record q { inserted = q.inserted ++ dealt n i (suc k) ys }) =
        λ i q b f.
          w'.queued i q b f
          ∙ ap (λ e. some (record q { inserted = q.inserted ++ dealt n i (suc k) (items e xs) }))
              (w.same_event ∙ plus_one t.event) in
      (
        t'',
        rw g (bind_some (λ s. emit_all read_record assign slots m s (read_record a).1) e e'),
        record {
          all_queues = w'.all_queues;
          events = omega (arith, w'.events, w.same_event);
          queued = λ i q b f. elim (eq_or_ne (k % n) i) [
            | inl s ↦
                queued' i (insert y q) b (
                  subst (λ j. get_elem? t'.queues j ≡ some (insert y q)) s
                    (w.here q (subst (λ j. get_elem? t.queues j ≡ some q) (sym s) f)))
                ∙ ap (λ ws. some (record q { inserted = ws })) (dealt_one k i y ys q.inserted s)
            | inr ne ↦
                let other : (k % n == i) ≡ false = ==_ne (k % n) i ne in
                queued' i q b (w.elsewhere i ne ∙ f)
                ∙ ap
                    (λ c. some (record q {
                      inserted =
                          q.inserted
                          ++ (if c then y ∷ dealt n i (suc k) ys else dealt n i (suc k) ys);
                    }))
                    (sym other)
          ];
        },
      )

  get_elem?-map :
      {B C : Type 0} (f : B → C) (ys : List B) (i : ℕ) (y : B)
      → get_elem? ys i ≡ some y
      → get_elem? (map f ys) i ≡ some (f y)
  get_elem?-map f [] i y e = absurd (cc)
  get_elem?-map f (z ∷ zs) zero y e = let s : z ≡ y = cc in ap (λ u. some (f u)) s
  get_elem?-map f (z ∷ zs) (suc i) y e = get_elem?-map f zs i y e

  -- A thread with n queues, a router at their number that stands at record 0, and an adapter that gives
  -- the records xs and then NULL: with fuel for more rounds than there are records, the thread ends,
  -- having counted them all; queue i has what it had, the items that Emit makes of the records whose
  -- number is i modulo n in their order, and a FINISH item, all of it flushed.
  pub main_handler_lem :
      (blank : WrapItem A) (xs : List R) (fuel : ℕ) (t : UpThreadTrace A) (a : S)
      → IsAt 0 t
      → Gives read_record a xs
      → length xs < fuel
      → (t' : UpThreadTrace A) × (main_handler read_record assign slots blank fuel t a ≡ some t')
        × (t'.event ≡ t.event + length xs)
        × ((i : ℕ) (q : OutQueue (WrapItem A))
            → i < n
            → get_elem? t.queues i ≡ some q
            → get_elem? t'.queues i
              ≡ some (
                  flush (
                    insert
                      (record blank { item_type = item_finish })
                      (record q { inserted = q.inserted ++ dealt n i 0 (items t.event xs) }))))
  unfolding main_handler
  main_handler_lem blank xs fuel t a v g h =
      let (t', e, w) = emit_all_lem xs fuel 0 t a v g h in
      (
        record t' {
          queues = map flush (map (insert (record blank { item_type = item_finish })) t'.queues);
        },
        rw e refl,
        w.events,
        λ i q b f.
            let p : OutQueue (WrapItem A) = record q {
              inserted = q.inserted ++ dealt n i 0 (items t.event xs);
            } in
            get_elem?-map flush (map (insert (record blank { item_type = item_finish })) t'.queues)
              i (insert (record blank { item_type = item_finish }) p)
              (get_elem?-map (insert (record blank { item_type = item_finish })) t'.queues i p
                (w.queued i q b f)),
      )
