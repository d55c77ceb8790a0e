-- ===== src/Queues/Ring/Represents.antt =====
-- A ring against the history of the items that were put into it: each index is a counter of items
-- taken round the buffer.
use af_stream.Prelude.{
  ℕ, ◌+◌, ◌%◌, ◌≤◌, ◌<◌, ◌≡◌, refl, sym, ap, ◌∙◌, ◌⊎◌, inl, inr, none, some, List, [], ◌==◌, ==_iff,
  leb, arith, length, get_or, Bool-cases, true, false, ap₂, eq_or_ne, suc-mod_top, suc-mod_below,
  round_of_meets, meets_of_round, length-replicate,
}
use af_stream.Queues.Ring.{Ring, create, next_val, get_slot}

-- `written` is every item inserted so far. The counters say how many of them are published to the
-- reader, consumed by it, and released to the writer, and how much of that each side has seen.
pub record History {ℓ} (A : Type ℓ) : Type ℓ where
  pub written : List A
  pub published : ℕ
  pub consumed : ℕ
  pub released : ℕ
  pub seen_released : ℕ
  pub seen_published : ℕ

module _ {ℓ} {A : Type ℓ} (blank : A) where
  pub record Represents (m : ℕ) (r : Ring A) (g : History A) : Type ℓ where
    pub max_eq : r.max ≡ m
    pub at_least_two : 1 < m
    pub buffer_len : length r.buffer ≡ m
    pub write_eq : r.next_write_index ≡ length g.written % m
    pub published_eq : r.write_index ≡ g.published % m
    pub consumed_eq : r.next_read_index ≡ g.consumed % m
    pub released_eq : r.read_index ≡ g.released % m
    pub seen_released_eq : r.local_read_index ≡ g.seen_released % m
    pub seen_published_eq : r.local_write_index ≡ g.seen_published % m
    pub seen_released_le : g.seen_released ≤ g.released
    pub released_le : g.released ≤ g.consumed
    pub consumed_le : g.consumed ≤ g.seen_published
    pub seen_published_le : g.seen_published ≤ g.published
    pub published_le : g.published ≤ length g.written
    pub room : length g.written < g.seen_released + m
    pub content :
        (k : ℕ)
        → g.consumed ≤ k
        → k < length g.written
        → get_or r.buffer (k % m) blank ≡ get_or g.written k blank

  abbrev pub nothing : History A
  nothing = record {
    written = [];
    published = 0;
    consumed = 0;
    released = 0;
    seen_released = 0;
    seen_published = 0;
  }

  pub create-Represents :
      (m batch indeterminate : ℕ)
      → 1 < m
      → Represents m (create m batch blank indeterminate) nothing
  unfolding create
  create-Represents m batch i h = record {
    max_eq = refl;
    at_least_two = h;
    buffer_len = length-replicate m blank;
    write_eq = zero_mod;
    published_eq = zero_mod;
    consumed_eq = zero_mod;
    released_eq = zero_mod;
    seen_released_eq = zero_mod;
    seen_published_eq = zero_mod;
    seen_released_le = omega arith;
    released_le = omega arith;
    consumed_le = omega arith;
    seen_published_le = omega arith;
    published_le = omega arith;
    room = omega arith;
    content = λ k _ lt. absurd (omega arith);
  }
    where
      zero_mod : ◌≡◌ {A = ℕ} 0 (0 % m)
      zero_mod = omega (arith, h)

  pub next_val_lem :
      (m : ℕ) (r : Ring A) (w : ℕ) → r.max ≡ m → 1 < m → next_val r (w % m) ≡ (w + 1) % m
  unfolding next_val
  next_val_lem m r w e h = elim (Bool-cases (leb r.max (w % m + 1))) [
    | inl full ↦ rw full (sym (suc-mod_top w m (omega arith) (ground (arith, full, e))))
    | inr free ↦ rw free (sym (suc-mod_below w m (ground (arith, free, e))))
  ]

  module _ (m : ℕ) (r : Ring A) (g : History A) (v : Represents m r g) where
    after_lem : next_val r r.next_write_index ≡ (length g.written + 1) % m
    after_lem =
        ap (next_val r) v.write_eq ∙ next_val_lem m r (length g.written) v.max_eq v.at_least_two

    module _ (b index : ℕ) (e : index ≡ b % m) (le : b ≤ length g.written)
        (lt : length g.written < b + m) where
      full_of_meets : (next_val r r.next_write_index == index) ≡ true → length g.written + 1 ≡ b + m
      full_of_meets h =
          round_of_meets (length g.written) b m le lt
            (sym after_lem ∙ (==_iff (next_val r r.next_write_index) index).0 h ∙ e)

      free_of_apart :
          (next_val r r.next_write_index == index) ≡ false → length g.written + 1 < b + m
      free_of_apart h = elim (eq_or_ne (length g.written + 1) (b + m)) [
        | inl s ↦ absurd (
            cc (
              (==_iff (next_val r r.next_write_index) index).1
                (after_lem ∙ meets_of_round (length g.written) b m s ∙ sym e)))
        | inr ne ↦ omega arith
      ]

    -- `GetSlot` waits exactly while the ring is full up to what the reader has released; otherwise
    -- the writer has seen enough released.
    pub get_slot_cases :
        ((length g.written + 1 ≡ g.released + m) × (get_slot r ≡ none))
        ⊎ ((seen : ℕ) × (length g.written + 1 < seen + m)
            × (g.seen_released ≤ seen)
            × (seen ≤ g.released)
            × (get_slot r
                ≡ some (record r {
                  after_next_write_index = (length g.written + 1) % m;
                  local_read_index = seen % m;
                })))
    unfolding get_slot
    get_slot_cases = elim (Bool-cases (next_val r r.next_write_index == r.local_read_index)) [
      | inl stale ↦ elim (Bool-cases (next_val r r.next_write_index == r.read_index)) [
        | inl full ↦ inl (
          full_of_meets g.released r.read_index v.released_eq released_le released_lt full,
          rw (stale, full),
        )
        | inr free ↦ inr (
          g.released,
          free_of_apart g.released r.read_index v.released_eq released_le released_lt free,
          v.seen_released_le,
          omega arith,
          rw (stale, free)
              (ap₂ (λ a s. some (record r { after_next_write_index = a; local_read_index = s }))
                after_lem v.released_eq),
        )
      ]
      | inr free ↦ inr (
        g.seen_released,
        free_of_apart g.seen_released r.local_read_index v.seen_released_eq
            (omega (arith, v.seen_released_le, released_le)) v.room free,
        omega arith,
        v.seen_released_le,
        rw free (
            ap₂ (λ a s. some (record r { after_next_write_index = a; local_read_index = s }))
              after_lem v.seen_released_eq),
      )
    ]
      where
        released_le : g.released ≤ length g.written
        released_le =
            omega (arith, v.released_le, v.consumed_le, v.seen_published_le, v.published_le)

        released_lt : length g.written < g.released + m
        released_lt = omega (arith, v.room, v.seen_released_le)
