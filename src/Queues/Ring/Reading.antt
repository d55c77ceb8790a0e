-- ===== src/Queues/Ring/Reading.antt =====
-- The reader's calls, and `Flush`, against the history.
use af_stream.Prelude.{
  ℕ, ◌+◌, ◌%◌, ◌≤◌, ◌<◌, ◌≡◌, refl, sym, ap, ◌∙◌, ◌⊎◌, inl, inr, none, some, ◌==◌, ==_iff, leb,
  arith, length, get_or, Bool-cases, true, false, eq_of_mod-eq,
}
use af_stream.Queues.Ring.{Ring, next_val, extract, ack, flush}
use af_stream.Queues.Ring.Represents.{History, Represents, next_val_lem}

module _ {ℓ} {A : Type ℓ} (blank : A) (m : ℕ) (r : Ring A) (g : History A)
    (v : Represents blank m r g) where
  abbrev seeing : ℕ → History A
  seeing p = record g { seen_published = p }

  -- An index of the writer's side meets the reader's exactly when it has nothing beyond it.
  module _ (p index : ℕ) (e : index ≡ p % m) (from : g.consumed ≤ p) (to : p ≤ g.published) where
    empty_of_meets : (r.next_read_index == index) ≡ true → p ≡ g.consumed
    empty_of_meets h =
        eq_of_mod-eq p g.consumed m from
          (omega (arith, v.room, v.published_le, v.seen_released_le, v.released_le))
          (sym e ∙ sym ((==_iff r.next_read_index index).0 h) ∙ v.consumed_eq)

    more_of_apart : (r.next_read_index == index) ≡ false → g.consumed < p
    more_of_apart h = elim (Bool-cases (leb p g.consumed)) [
      | inl s ↦
          let same : p ≡ g.consumed = ground (arith, s, from) in
          absurd (
            cc (
              (==_iff r.next_read_index index).1
                (v.consumed_eq ∙ ap (λ k. k % m) (sym same) ∙ sym e)))
      | inr s ↦ ground (arith, s)
    ]

  next_item : get_or r.buffer r.next_read_index blank ≡ get_or r.buffer (g.consumed % m) blank
  next_item = ap (λ i. get_or r.buffer i blank) v.consumed_eq

  fetched :
      g.consumed < g.published
      → get_or r.buffer r.next_read_index blank ≡ get_or g.written g.consumed blank
  fetched h = next_item ∙ v.content g.consumed (omega arith) (omega (arith, v.published_le))

  refreshed :
      Represents blank m (record r { local_write_index = r.write_index }) (seeing g.published)
  refreshed = record {
    max_eq = v.max_eq;
    at_least_two = v.at_least_two;
    buffer_len = v.buffer_len;
    write_eq = v.write_eq;
    published_eq = v.published_eq;
    consumed_eq = v.consumed_eq;
    released_eq = v.released_eq;
    seen_released_eq = v.seen_released_eq;
    seen_published_eq = v.published_eq;
    seen_released_le = v.seen_released_le;
    released_le = v.released_le;
    consumed_le = omega (arith, v.consumed_le, v.seen_published_le);
    seen_published_le = omega arith;
    published_le = v.published_le;
    room = v.room;
    content = v.content;
  }

  -- `Extract` returns NULL exactly when all that is published is consumed, and otherwise the oldest
  -- item that is not.
  pub extract_cases :
      ((g.consumed ≡ g.published) × (extract blank r ≡ (none, r)))
      ⊎ ((r' : Ring A) × (p : ℕ) × (g.consumed < p)
          × (p ≤ g.published)
          × (extract blank r ≡ (some (get_or g.written g.consumed blank), r'))
          × Represents blank m r' (seeing p))
  unfolding extract
  extract_cases = elim (Bool-cases (r.next_read_index == r.local_write_index)) [
    | inl stale ↦ elim (Bool-cases (r.next_read_index == r.write_index)) [
      | inl empty ↦ inl (
        sym (
            empty_of_meets g.published r.write_index v.published_eq published_from (omega arith)
              empty),
        rw (stale, empty),
      )
      | inr some_left ↦
          let more =
            more_of_apart g.published r.write_index v.published_eq published_from (omega arith)
              some_left in
          inr (
            record r { local_write_index = r.write_index },
            g.published,
            more,
            omega arith,
            rw (stale, some_left)
                (ap (λ x. (some x, record r { local_write_index = r.write_index })) (fetched more)),
            refreshed,
          )
    ]
    | inr some_left ↦
        let more =
          more_of_apart g.seen_published r.local_write_index v.seen_published_eq v.consumed_le
            v.seen_published_le some_left in
        inr (
          r,
          g.seen_published,
          more,
          v.seen_published_le,
          rw some_left (ap (λ x. (some x, r)) (fetched (omega (arith, more, v.seen_published_le)))),
          v,
        )
  ]
    where
      published_from : g.consumed ≤ g.published
      published_from = omega (arith, v.consumed_le, v.seen_published_le)

  abbrev past : ℕ → History A
  past released = record g { consumed = g.consumed + 1; released = released }

  past-Represents :
      (released i batch : ℕ)
      → g.consumed < g.seen_published
      → g.released ≤ released
      → released ≤ g.consumed + 1
      → i ≡ released % m
      → Represents blank m
          (record r {
            next_read_index = (g.consumed + 1) % m;
            read_index = i;
            r_batch_count = batch;
          })
          (past released)
  past-Represents released i batch h from to e = record {
    max_eq = v.max_eq;
    at_least_two = v.at_least_two;
    buffer_len = v.buffer_len;
    write_eq = v.write_eq;
    published_eq = v.published_eq;
    consumed_eq = refl;
    released_eq = e;
    seen_released_eq = v.seen_released_eq;
    seen_published_eq = v.seen_published_eq;
    seen_released_le = omega (arith, v.seen_released_le);
    released_le = omega arith;
    consumed_le = omega arith;
    seen_published_le = v.seen_published_le;
    published_le = v.published_le;
    room = v.room;
    content = λ k l b. v.content k (omega arith) b;
  }

  next_lem : next_val r r.next_read_index ≡ (g.consumed + 1) % m
  next_lem =
      ap (next_val r) v.consumed_eq ∙ next_val_lem blank m r g.consumed v.max_eq v.at_least_two

  -- `Ack`, which follows an `Extract` that returned an item, passes that item; it releases nothing
  -- or everything consumed.
  pub ack-Represents :
      g.consumed < g.seen_published
      → (released : ℕ) × ((released ≡ g.released) ⊎ (released ≡ g.consumed + 1))
        × Represents blank m (ack r) (past released)
  unfolding ack
  ack-Represents h = elim (Bool-cases (leb r.batch_size (r.r_batch_count + 1))) [
    | inl full ↦ (
      g.consumed + 1,
      inr refl,
      rw (full, next_lem)
          (past-Represents (g.consumed + 1) ((g.consumed + 1) % m) 0 h
            (omega (arith, v.released_le)) (omega arith) refl),
    )
    | inr more ↦ (
      g.released,
      inl refl,
      rw (more, next_lem)
          (past-Represents g.released r.read_index (r.r_batch_count + 1) h (omega arith)
            (omega (arith, v.released_le)) v.released_eq),
    )
  ]

  -- `Flush` publishes everything written and releases everything consumed.
  pub flush-Represents :
      Represents blank m
        (flush r)
        (record g { published = length g.written; released = g.consumed })
  unfolding flush
  flush-Represents = record {
    max_eq = v.max_eq;
    at_least_two = v.at_least_two;
    buffer_len = v.buffer_len;
    write_eq = v.write_eq;
    published_eq = v.write_eq;
    consumed_eq = v.consumed_eq;
    released_eq = v.consumed_eq;
    seen_released_eq = v.seen_released_eq;
    seen_published_eq = v.seen_published_eq;
    seen_released_le = omega (arith, v.seen_released_le, v.released_le);
    released_le = omega arith;
    consumed_le = v.consumed_le;
    seen_published_le = omega (arith, v.seen_published_le, v.published_le);
    published_le = omega arith;
    room = v.room;
    content = v.content;
  }
