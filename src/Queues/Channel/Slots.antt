-- ===== src/Queues/Channel/Slots.antt =====
-- The slots that travel between writers and readers are neither lost nor handed out twice.
use af_stream.Prelude.{
  ℕ, ◌≡◌, refl, sym, ap, ◌∙◌, subst, inl, inr, Option, none, some, Bool, true, false, ◌&&◌, List,
  [], ◌∷◌, ltb, if◌then◌else◌, ◌>>=◌, Bool-cases, Option-cases, arith,
}
use af_stream.Queues.LockFree.{LockFreeQueue, push, pop, flush_all}
use af_stream.Queues.LockFree.Contents.{flush_all-Contains}
use af_stream.Queues.Channel.{
  Mesh, put_queue, null, got_slot, get_slot, write, read, ack, flush_writer, flush_reader,
}
use af_stream.Queues.Channel.Counting.{count, without}
use af_stream.Queues.Channel.Moves.{
  System, Move, gets, writes, reads, acks, flushes_readers, flushes_writers, taken_in, move, moves,
  IsAccounted, Conserves,
}
use af_stream.Queues.Channel.Steps.{
  Holds, gets-Conserves, reads-Conserves, idle_read-Conserves, writes-Conserves, acks-Conserves,
}

module _ (indeterminate : ℕ) where
  -- Queues of which some are flushed
  flushed-Holds :
      (qs : ℕ → LockFreeQueue ℕ) (m n i : ℕ) (f : ℕ → List ℕ)
      → Holds indeterminate (qs i) n f
      → Holds indeterminate (if ltb i m then flush_all (qs i) else qs i) n f
  flushed-Holds qs m n i f h = elim (Bool-cases (ltb i m)) [
    | inl e ↦ rw e (flush_all-Contains null indeterminate (qs i) n f h)
    | inr e ↦ rw e h
  ]

  if_some_cases :
      {A : Type 0} (b : Bool) {o : Option A} {x : A}
      → (if b then o else none) ≡ some x
      → (b ≡ true) × (o ≡ some x)
  if_some_cases true e = (refl, e)
  if_some_cases false e = absurd (cc)

  some_same : {A : Type 0} {x y : A} → some x ≡ some y → x ≡ y
  some_same e = cc

  bind_some_cases :
      {A B : Type 0} (o : Option A) (k : A → Option B) {y : B}
      → (o >>= k) ≡ some y
      → (x : A) × (o ≡ some x) × (k x ≡ some y)
  bind_some_cases none k e = absurd (cc)
  bind_some_cases (some x) k e = (x, refl, e)

  got_slot-some :
      (m : Mesh) (w : ℕ) (o : Option ℕ × LockFreeQueue ℕ) {p : ℕ × Mesh}
      → got_slot indeterminate m w o ≡ some p
      → (a : ℕ) × (o.0 ≡ some a) × ((a, record m { writers = put_queue w o.1 m.writers }) ≡ p)
  got_slot-some m w (none, q) e = absurd (cc)
  got_slot-some m w (some a, q) e = (a, refl, some_same e)

  move-Conserves :
      (s s' : System) (c : Move) (v : IsAccounted indeterminate s)
      → move indeterminate s c ≡ some s'
      → Conserves indeterminate s v s'
  unfolding move get_slot write read ack flush_writer flush_reader
  move-Conserves s s' (gets w) v e =
      let (b, g) = if_some_cases (ltb w s.mesh.num_writers) e in
      let (p, h, made) = bind_some_cases (get_slot indeterminate s.mesh w) _ g in
      let (a, taken, got) = got_slot-some s.mesh w (pop null indeterminate (s.mesh.writers w)) h in
      subst (Conserves indeterminate s v)
        (ap (λ z. record s { mesh = z.1; held = z.0 ∷ s.held }) got ∙ some_same made)
        (gets-Conserves indeterminate s v w a (ground arith) taken)
  move-Conserves s s' (writes w r a) v e =
      let (b, g) =
        if_some_cases
          (ltb w s.mesh.num_writers && ltb r s.mesh.num_readers && ltb 0 (count a s.held)) e in
      let (m, h, made) = bind_some_cases (write indeterminate s.mesh w r a) _ g in
      let (q, pushed, put) = bind_some_cases (push null indeterminate (s.mesh.readers r) w a) _ h in
      subst (Conserves indeterminate s v)
        (ap (λ z. record s { mesh = z; held = without a s.held }) (some_same put) ∙ some_same made)
        (writes-Conserves indeterminate s v w r a q (ground arith) (ground arith) (ground arith)
          pushed)
  move-Conserves s s' (reads r) v e =
      let (b, g) = if_some_cases (ltb r s.mesh.num_readers) e in
      let p = pop null indeterminate (s.mesh.readers r) in
      let back = λ (o : Option ℕ). Conserves indeterminate s v (record s {
        mesh = record s.mesh { readers = put_queue r p.1 s.mesh.readers };
        taken = taken_in s.taken o;
      }) in
      subst (Conserves indeterminate s v) (some_same g) (elim (Option-cases p.0) [
        | inl h ↦ subst back (sym h) (idle_read-Conserves indeterminate s v r (ground arith) h)
        | inr (a, h) ↦ subst back (sym h) (reads-Conserves indeterminate s v r a (ground arith) h)
      ])
  move-Conserves s s' (acks r w a) v e =
      let (b, g) =
        if_some_cases
          (ltb w s.mesh.num_writers && ltb r s.mesh.num_readers && ltb 0 (count a s.taken)) e in
      let (m, h, made) = bind_some_cases (ack indeterminate s.mesh r w a) _ g in
      let (q, pushed, put) = bind_some_cases (push null indeterminate (s.mesh.writers w) r a) _ h in
      subst (Conserves indeterminate s v)
        (ap (λ z. record s { mesh = z; taken = without a s.taken }) (some_same put)
          ∙ some_same made)
        (acks-Conserves indeterminate s v r w a q (ground arith) (ground arith) (ground arith)
          pushed)
  move-Conserves s s' flushes_readers v e = subst (Conserves indeterminate s v) (some_same e) (
    record {
      in_writers = v.in_writers;
      in_readers = v.in_readers;
      some_writer = v.some_writer;
      some_reader = v.some_reader;
      of_writers = v.of_writers;
      of_readers = λ i k.
          flushed-Holds s.mesh.readers s.mesh.num_readers s.mesh.num_writers i (v.in_readers i)
            (v.of_readers i k);
    },
    λ b. refl,
  )
  move-Conserves s s' flushes_writers v e = subst (Conserves indeterminate s v) (some_same e) (
    record {
      in_writers = v.in_writers;
      in_readers = v.in_readers;
      some_writer = v.some_writer;
      some_reader = v.some_reader;
      of_writers = λ i k.
          flushed-Holds s.mesh.writers s.mesh.num_writers s.mesh.num_readers i (v.in_writers i)
            (v.of_writers i k);
      of_readers = v.of_readers;
    },
    λ b. refl,
  )

  -- Whatever the calls of the writers and readers and their order, if none waits, each slot is afterwards
  -- somewhere as often as before: in a ring, with the writer that has got it or with the reader that has
  -- read it. The queues are well formed again.
  pub slots_conserved :
      (s s' : System) (cs : List Move) (v : IsAccounted indeterminate s)
      → moves indeterminate s cs ≡ some s'
      → Conserves indeterminate s v s'
  slots_conserved s s' [] v e = subst (Conserves indeterminate s v) (some_same e) (v, λ a. refl)
  slots_conserved s s' (c ∷ cs) v e =
      let (t, first, rest) = bind_some_cases (move indeterminate s c) _ e in
      let (u, same) = move-Conserves s t c v first in
      let (v', same') = slots_conserved t s' cs u rest in (v', λ a. same' a ∙ same a)
