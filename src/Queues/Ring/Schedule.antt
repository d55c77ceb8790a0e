-- ===== src/Queues/Ring/Schedule.antt =====
-- Every interleaving of the two sides' calls. A call reads the other side's published index and
-- ends by at most one write to its own (`Flush` writes both), so a schedule of whole calls is what
-- sequentially consistent memory shows.
use af_stream.Prelude.{
  ℕ, zero, suc, ◌+◌, ◌≤◌, ◌<◌, ◌≡◌, refl, sym, ap, ap₂, ◌∙◌, inl, inr, Option, none, some, List, [],
  ◌∷◌, ◌++◌, arith, length, get_or, length-append, subst, replicate,
}
use mathlib.Core.List.{append_assoc, append-nil}
use af_stream.Queues.Ring.{Ring, create, insert, extract, ack, flush}
use af_stream.Queues.Ring.Represents.{History, Represents, create-Represents}
use af_stream.Queues.Ring.Fifo.{insert_cases}
use af_stream.Queues.Ring.Reading.{extract_cases, ack-Represents, flush-Represents}

-- Whose turn it is: the writer inserts (and stays in its loop if there is no room), the reader
-- extracts and acknowledges, or one of them flushes.
pub data Turn {ℓ} (A : Type ℓ) : Type ℓ where
  writes : A → Turn A
  reads : Turn A
  flushes : Turn A

-- the ring, with what went in and what came out
pub record Trace {ℓ} (A : Type ℓ) : Type ℓ where
  pub ring : Ring A
  pub put : List A
  pub got : List A

module _ {ℓ} {A : Type ℓ} (blank : A) where
  abbrev after_insert : Trace A → A → Option (Ring A) → Trace A
  after_insert t x none = t
  after_insert t x (some r) = record { ring = r; put = t.put ++ x ∷ []; got = t.got }

  abbrev after_extract : Trace A → Option A × Ring A → Trace A
  after_extract t (none, r) = record t { ring = r }
  after_extract t (some x, r) = record { ring = ack r; put = t.put; got = t.got ++ x ∷ [] }

  unfoldable pub step : Trace A → Turn A → Trace A
  step t (writes x) = after_insert t x (insert t.ring x)
  step t reads = after_extract t (extract blank t.ring)
  step t flushes = record t { ring = flush t.ring }

  unfoldable pub run : Trace A → List (Turn A) → Trace A
  run t [] = t
  run t (c ∷ cs) = run (step t c) cs

  abbrev pub start : ℕ → ℕ → ℕ → Trace A
  start m batch indeterminate = record {
    ring = create m batch blank indeterminate;
    put = [];
    got = [];
  }

  record Inv (m : ℕ) (t : Trace A) : Type ℓ where
    history : History A
    valid : Represents blank m t.ring history
    written : history.written ≡ t.put
    delivered : length t.got ≡ history.consumed
    rest : List A
    split : t.put ≡ t.got ++ rest

  start-Inv : (m batch i : ℕ) → 1 < m → Inv m (start m batch i)
  start-Inv m batch i h = record {
    history = _;
    valid = create-Represents blank m batch i h;
    written = refl;
    delivered = refl;
    rest = [];
    split = refl;
  }

  -- The first item of what is left is the item at that position of the whole.
  split_next :
      (put got rest : List A)
      → put ≡ got ++ rest
      → length got < length put
      → (rest' : List A) × (put ≡ (got ++ get_or put (length got) blank ∷ []) ++ rest')
  split_next put [] [] e h = absurd (omega (arith, ap length e))
  split_next put [] (x ∷ rest) e h = (rest, e ∙ ap (λ l. get_or l 0 blank ∷ rest) (sym e))
  split_next [] (y ∷ got) rest e h = absurd (omega arith)
  split_next (z ∷ put) (y ∷ got) rest e h =
      let tails : put ≡ got ++ rest = cc in
      let (rest', p) = split_next put got rest tails (omega arith) in (rest', cc)

  writes-Inv : (m : ℕ) (t : Trace A) (x : A) → Inv m t → Inv m (step t (writes x))
  unfolding step
  writes-Inv m t x v = elim (insert_cases blank m t.ring v.history v.valid x) [
    | inl (_, e) ↦ subst (λ o. Inv m (after_insert t x o)) (sym e) v
    | inr (_, r', g', e, w, put', _, consumed', _) ↦
        subst (λ o. Inv m (after_insert t x o)) (sym e)
          (record {
            history = g';
            valid = w;
            written = put' ∙ ap (λ l. l ++ x ∷ []) v.written;
            delivered = v.delivered ∙ sym consumed';
            rest = v.rest ++ x ∷ [];
            split = ap (λ l. l ++ x ∷ []) v.split ∙ append_assoc t.got v.rest (x ∷ []);
          })
  ]

  -- An item taken: the new history publishes as much as the old one.
  taken-Inv :
      (m : ℕ) (t : Trace A) (v : Inv m t) (r' : Ring A) (p : ℕ)
      → v.history.consumed < p
      → p ≤ v.history.published
      → Represents blank m r' (record v.history { seen_published = p })
      → (w : Inv m (after_extract t (some (get_or v.history.written v.history.consumed blank), r')))
        × (w.history.published ≡ v.history.published)
        × (w.history.written ≡ v.history.written)
  taken-Inv m t v r' p more le w =
      let (released, _, acked) = ack-Represents blank m r' _ w more in
      let (rest', split') =
        split_next t.put t.got v.rest v.split
          (omega (arith, v.delivered, ap length v.written, v.valid.published_le)) in
      (
        record {
          history = _;
          valid = acked;
          written = v.written;
          delivered = length-append t.got _ ∙ ap (λ k. k + 1) v.delivered;
          rest = rest';
          split =
              split'
              ∙ ap₂ (λ l k. (t.got ++ get_or l k blank ∷ []) ++ rest') (sym v.written) v.delivered;
        },
        refl,
        refl,
      )

  reads-Inv : (m : ℕ) (t : Trace A) → Inv m t → Inv m (step t reads)
  unfolding step
  reads-Inv m t v = elim (extract_cases blank m t.ring v.history v.valid) [
    | inl (_, e) ↦ subst (λ o. Inv m (after_extract t o)) (sym e) v
    | inr (r', p, more, le, e, w) ↦
        subst (λ o. Inv m (after_extract t o)) (sym e) (taken-Inv m t v r' p more le w).0
  ]

  flushes-Inv : (m : ℕ) (t : Trace A) → Inv m t → Inv m (step t flushes)
  unfolding step
  flushes-Inv m t v = record {
    history = _;
    valid = flush-Represents blank m t.ring v.history v.valid;
    written = v.written;
    delivered = v.delivered;
    rest = v.rest;
    split = v.split;
  }

  step-Inv : (m : ℕ) (t : Trace A) (c : Turn A) → Inv m t → Inv m (step t c)
  step-Inv m t (writes x) v = writes-Inv m t x v
  step-Inv m t reads v = reads-Inv m t v
  step-Inv m t flushes v = flushes-Inv m t v

  run-Inv : (m : ℕ) (t : Trace A) (cs : List (Turn A)) → Inv m t → Inv m (run t cs)
  unfolding run
  run-Inv m t [] v = v
  run-Inv m t (c ∷ cs) v = run-Inv m (step t c) cs (step-Inv m t c v)

  -- On every schedule of a fresh ring with room for m - 1 items: what came out is what went in, in
  -- order, up to some rest; and that rest always fits.
  pub delivered_in_order :
      (m batch indeterminate : ℕ) (cs : List (Turn A))
      → 1 < m
      → let t = run (start m batch indeterminate) cs in
        (rest : List A) × (t.put ≡ t.got ++ rest) × (length rest < m)
  delivered_in_order m batch i cs h =
      let v = run-Inv m (start m batch i) cs (start-Inv m batch i h) in
      (
        v.rest,
        v.split,
        omega (
          arith,
          v.valid.room,
          v.valid.seen_released_le,
          v.valid.released_le,
          v.delivered,
          ap length v.written,
          ap length v.split,
          length-append (run (start m batch i) cs).got v.rest,
        ),
      )

  -- All that was written is published, and n reads will fetch what is left of it.
  record Draining (m n : ℕ) (t : Trace A) : Type ℓ where
    inv : Inv m t
    all_published : inv.history.published ≡ length inv.history.written
    left : length t.put ≤ length t.got + n

  flushes-Draining : (m : ℕ) (t : Trace A) → Inv m t → Draining m (length t.put) (step t flushes)
  unfolding step flushes-Inv
  flushes-Draining m t v = record {
    inv = flushes-Inv m t v;
    all_published = refl;
    left = omega arith;
  }

  reads-Draining : (m n : ℕ) (t : Trace A) → Draining m (suc n) t → Draining m n (step t reads)
  unfolding step
  reads-Draining m n t d = elim (extract_cases blank m t.ring d.inv.history d.inv.valid) [
    | inl (all, e) ↦
        subst (λ o. Draining m n (after_extract t o)) (sym e)
          (record {
            inv = d.inv;
            all_published = d.all_published;
            left = omega (arith, d.inv.delivered, ap length d.inv.written, d.all_published, all);
          })
    | inr (r', p, more, le, e, w) ↦
        let (inv', same, same_written) = taken-Inv m t d.inv r' p more le w in
        subst (λ o. Draining m n (after_extract t o)) (sym e)
          (record {
            inv = inv';
            all_published = same ∙ d.all_published ∙ ap length (sym same_written);
            left = omega (
              arith,
              d.left,
              length-append t.got (get_or d.inv.history.written d.inv.history.consumed blank ∷ []),
            );
          })
  ]

  nil_of_length : (xs : List A) → length xs ≤ 0 → xs ≡ []
  nil_of_length [] h = refl
  nil_of_length (x ∷ xs) h = absurd (omega arith)

  drain-all :
      (m n : ℕ) (t : Trace A)
      → Draining m n t
      → (run t (replicate n reads)).got ≡ (run t (replicate n reads)).put
  unfolding run
  drain-all m zero t d = sym (
      d.inv.split
      ∙ ap (λ l. t.got ++ l)
          (nil_of_length d.inv.rest
            (omega (arith, d.left, ap length d.inv.split, length-append t.got d.inv.rest)))
      ∙ append-nil t.got)
  drain-all m (suc n) t d = drain-all m n (step t reads) (reads-Draining m n t d)

  -- Nothing is lost: after any schedule, a flush and as many reads as there were writes deliver
  -- exactly what went in.
  pub flush_then_drain :
      (m batch indeterminate : ℕ) (cs : List (Turn A))
      → 1 < m
      → let t = step (run (start m batch indeterminate) cs) flushes in
        let u = run t (replicate (length t.put) reads) in u.got ≡ u.put
  unfolding step
  flush_then_drain m batch i cs h =
      drain-all m (length (run (start m batch i) cs).put) (step (run (start m batch i) cs) flushes)
        (flushes-Draining m (run (start m batch i) cs)
          (run-Inv m (start m batch i) cs (start-Inv m batch i h)))
