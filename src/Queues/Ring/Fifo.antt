-- ===== src/Queues/Ring/Fifo.antt =====
-- What each call does to the history: first in, first out, no item lost and none made up.
use af_stream.Prelude.{
  ℕ, ◌+◌, ◌%◌, ◌≤◌, ◌<◌, ◌≡◌, refl, sym, ap, ◌∙◌, ◌≢◌, ◌⊎◌, inl, inr, none, some, [], ◌∷◌, ◌++◌,
  leb, arith, length, get_or, set, Bool-cases, eq_or_ne, eq_of_mod-eq, length-set, get_or-set_self,
  get_or-set_ne, length-append, get_or-append_left, get_or-append_right, subst, ◌>>=◌,
}
use native.Mathlib.Nat.{mod-lt, add-zero}
use af_stream.Queues.Ring.{Ring, fill_slot, complete_write, insert}
use af_stream.Queues.Ring.Represents.{History, Represents, get_slot_cases}

module _ {ℓ} {A : Type ℓ} (blank : A) (m : ℕ) (r : Ring A) (g : History A)
    (v : Represents blank m r g) where
  pub consumed_le_written : g.consumed ≤ length g.written
  consumed_le_written = omega (arith, v.consumed_le, v.seen_published_le, v.published_le)

  module _ (x : A) (seen : ℕ) (fits : length g.written + 1 < seen + m)
      (le : seen ≤ g.released) where
    abbrev ready : Ring A
    ready = record r {
      after_next_write_index = (length g.written + 1) % m;
      local_read_index = seen % m;
    }

    abbrev appended : ℕ → History A
    appended p = record g { written = g.written ++ x ∷ []; seen_released = seen; published = p }

    appended_len : length (g.written ++ x ∷ []) ≡ length g.written + 1
    appended_len = length-append g.written (x ∷ [])

    filled-content :
        (k : ℕ)
        → g.consumed ≤ k
        → k < length (g.written ++ x ∷ [])
        → get_or (set r.buffer r.next_write_index x) (k % m) blank
          ≡ get_or (g.written ++ x ∷ []) k blank
    filled-content k from below = elim (eq_or_ne (length g.written) k) [
      | inl e ↦
          subst
            (λ k.
              get_or (set r.buffer r.next_write_index x) (k % m) blank
              ≡ get_or (g.written ++ x ∷ []) k blank)
            e newest
      | inr ne ↦
          get_or-set_ne r.buffer r.next_write_index (k % m) x blank (apart ne)
          ∙ v.content k from (omega (arith, appended_len))
          ∙ sym (get_or-append_left g.written (x ∷ []) k blank (omega (arith, appended_len)))
    ]
      where
        newest :
            get_or (set r.buffer r.next_write_index x) (length g.written % m) blank
            ≡ get_or (g.written ++ x ∷ []) (length g.written) blank
        newest =
            ap (λ i. get_or (set r.buffer i x) (length g.written % m) blank) v.write_eq
            ∙ get_or-set_self r.buffer (length g.written % m) x blank
                (rw v.buffer_len (mod-lt (length g.written) (omega (arith, v.at_least_two))))
            ∙ sym (
                ap (λ i. get_or (g.written ++ x ∷ []) i blank) (sym (add-zero (length g.written)))
                ∙ get_or-append_right g.written (x ∷ []) 0 blank)

        apart : length g.written ≢ k → r.next_write_index ≢ k % m
        apart ne e = ne (
            eq_of_mod-eq (length g.written) k m (omega (arith, appended_len))
              (omega (arith, v.released_le)) (sym v.write_eq ∙ e))

    filled-Represents :
        (p i : ℕ) (batch : ℕ)
        → g.published ≤ p
        → p ≤ length g.written + 1
        → i ≡ p % m
        → Represents blank m
            (record (fill_slot ready x) {
              next_write_index = (length g.written + 1) % m;
              write_index = i;
              w_batch_count = batch;
            })
            (appended p)
    unfolding fill_slot
    filled-Represents p i batch from to e = record {
      max_eq = v.max_eq;
      at_least_two = v.at_least_two;
      buffer_len = length-set r.buffer r.next_write_index x ∙ v.buffer_len;
      write_eq = ap (λ k. k % m) (sym appended_len);
      published_eq = e;
      consumed_eq = v.consumed_eq;
      released_eq = v.released_eq;
      seen_released_eq = refl;
      seen_published_eq = v.seen_published_eq;
      seen_released_le = le;
      released_le = v.released_le;
      consumed_le = v.consumed_le;
      seen_published_le = omega (arith, v.seen_published_le);
      published_le = omega (arith, appended_len);
      room = omega (arith, appended_len);
      content = filled-content;
    }

    complete_write-Represents :
        (p : ℕ) × ((p ≡ g.published) ⊎ (p ≡ length g.written + 1))
        × Represents blank m (complete_write (fill_slot ready x)) (appended p)
    unfolding complete_write fill_slot
    complete_write-Represents = elim (Bool-cases (leb r.batch_size (r.w_batch_count + 1))) [
      | inl full ↦ (
        length g.written + 1,
        inr refl,
        rw full (
            filled-Represents (length g.written + 1) ((length g.written + 1) % m) 0
              (omega (arith, v.published_le)) (omega arith) refl),
      )
      | inr more ↦ (
        g.published,
        inl refl,
        rw more (
            filled-Represents g.published r.write_index (r.w_batch_count + 1) (omega arith)
              (omega (arith, v.published_le)) v.published_eq),
      )
    ]

  -- `Insert` waits exactly while the ring is full up to what the reader has released. Otherwise it
  -- appends its item, and publishes nothing or everything written.
  pub insert_cases :
      (x : A)
      → ((length g.written + 1 ≡ g.released + m) × (insert r x ≡ none))
        ⊎ ((length g.written + 1 < g.released + m)
            × (r' : Ring A) × (g' : History A) × (insert r x ≡ some r')
            × Represents blank m r' g'
            × (g'.written ≡ g.written ++ x ∷ [])
            × ((g'.published ≡ g.published) ⊎ (g'.published ≡ length g.written + 1))
            × (g'.consumed ≡ g.consumed)
            × (g'.released ≡ g.released))
  unfolding insert
  insert_cases x = elim (get_slot_cases blank m r g v) [
    | inl (full, e) ↦ inl (full, ap (λ o. o >>= λ r'. some (complete_write (fill_slot r' x))) e)
    | inr (seen, fits, _, le, e) ↦
        let (p, news, w) = complete_write-Represents x seen fits le in
        inr (
          omega arith,
          complete_write (fill_slot (ready x seen fits le) x),
          appended x seen fits le p,
          ap (λ o. o >>= λ r'. some (complete_write (fill_slot r' x))) e,
          w,
          refl,
          news,
          refl,
          refl,
        )
  ]
