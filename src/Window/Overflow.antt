-- ===== src/Window/Overflow.antt =====
-- When a window does not fit into an item.
use af_stream.Prelude.{
  ℕ, ◌+◌, ◌*◌, ◌%◌, ◌^◌, ◌≤◌, ◌<◌, ◌≡◌, refl, sym, ap, ◌∙◌, subst, ◌⊎◌, inl, inr, Option, none,
  some, List, [], ◌∷◌, leb, ◌>>=◌, bind_some, length, Bool-cases, arith,
}
use af_stream.Prelude.Int.{ℤ}
use af_stream.Memory.Copy.{length-write_at, write_at}
use af_stream.Memory.Integers.{le_bytes, i64_bytes}
use af_stream.Sketch.{CountMin}
use af_stream.Window.{
  CmItem, new_item, append_counter, append_hh, append_keys, append_rows, window_item,
}
use af_stream.Window.Item.{append_all}
use af_stream.Window.Cells.{all_cells, append_rows-cells}

-- The outcome of appending: the item with n bytes more, or nothing where they do not fit.
abbrev Grown : CmItem → ℕ → Option CmItem → Type 0
Grown it n o =
    ((it.start + n ≤ length it.raw)
      × (it' : CmItem) × (o ≡ some it')
      × (it'.start ≡ it.start + n)
      × (length it'.raw ≡ length it.raw))
    ⊎ ((length it.raw < it.start + n) × (o ≡ none))

append_counter-Grown : (it : CmItem) (index : ℕ) (v : ℤ) → Grown it 12 (append_counter it index v)
unfolding append_counter
append_counter-Grown it index v = elim (Bool-cases (leb (it.start + 12) (length it.raw))) [
  | inl e ↦ inl (
    ground arith,
    record it {
      num_counter = (it.num_counter + 1) % 2 ^ 32;
      raw = write_at (write_at it.raw it.start (le_bytes 4 index)) (it.start + 4) (i64_bytes v);
      start = it.start + 12;
    },
    rw e refl,
    refl,
    length-write_at (write_at it.raw it.start (le_bytes 4 index)) (it.start + 4) (i64_bytes v)
        ∙ length-write_at it.raw it.start (le_bytes 4 index),
  )
  | inr e ↦ inr (ground arith, rw e refl)
]

append_hh-Grown : (it : CmItem) (key : ℕ) → Grown it 8 (append_hh it key)
unfolding append_hh
append_hh-Grown it key = elim (Bool-cases (leb (it.start + 8) (length it.raw))) [
  | inl e ↦ inl (
    ground arith,
    record it {
      num_hh = (it.num_hh + 1) % 2 ^ 32;
      raw = write_at it.raw it.start (le_bytes 8 key);
      start = it.start + 8;
    },
    rw e refl,
    refl,
    length-write_at it.raw it.start (le_bytes 8 key),
  )
  | inr e ↦ inr (ground arith, rw e refl)
]

-- One more step after another.
Grown-bind :
    (it : CmItem) (n k j : ℕ) (o : Option CmItem) (f : CmItem → Option CmItem)
    → n + k ≡ j
    → Grown it n o
    → ((it' : CmItem) → it'.start ≤ length it'.raw → Grown it' k (f it'))
    → Grown it j (o >>= f)
Grown-bind it n k j o f e (inr (h, g)) more = inr (omega arith, ap (λ p. p >>= f) g)
Grown-bind it n k j o f e (inl (h, it', g, s, l)) more = elim (more it' (omega arith)) [
  | inl (h', it'', g', s', l') ↦ inl (omega arith, it'', bind_some f g g', omega arith, l' ∙ l)
  | inr (h', g') ↦ inr (omega arith, ap (λ p. p >>= f) g ∙ g')
]

append_all-Grown :
    (cs : List (ℕ × ℤ)) (it : CmItem)
    → it.start ≤ length it.raw
    → Grown it (12 * length cs) (append_all cs it)
append_all-Grown [] it h = inl (omega arith, it, refl, omega arith, refl)
append_all-Grown (c ∷ cs) it h =
    Grown-bind it 12 (12 * length cs) (12 * length (c ∷ cs)) (append_counter it c.0 c.1)
      (append_all cs) (omega arith) (append_counter-Grown it c.0 c.1) (append_all-Grown cs)

append_keys-Grown :
    (ks : List ℕ) (it : CmItem)
    → it.start ≤ length it.raw
    → Grown it (8 * length ks) (append_keys ks it)
unfolding append_keys
append_keys-Grown [] it h = inl (omega arith, it, refl, omega arith, refl)
append_keys-Grown (k ∷ ks) it h =
    Grown-bind it 8 (8 * length ks) (8 * length (k ∷ ks)) (append_hh it k) (append_keys ks)
      (omega arith) (append_hh-Grown it k) (append_keys-Grown ks)

-- The bytes of a window: 12 for each positive counter and 8 for each candidate.
abbrev pub window_bytes : CountMin → ℕ → ℕ → List ℕ → ℕ
window_bytes s r w cand = 12 * length (all_cells s w 0 r) + 8 * length cand

-- A window is put into an item exactly if its bytes are no more than those of the item: either they
-- fit, and the item is filled up to them, or they do not, and the appending runs over the end.
pub window_item_fits :
    (s : CountMin) (r w : ℕ) (cand raw : List ℕ)
    → ((window_bytes s r w cand ≤ length raw)
        × (it : CmItem) × (window_item s r w cand raw ≡ some it)
        × (it.start ≡ window_bytes s r w cand))
      ⊎ ((length raw < window_bytes s r w cand) × (window_item s r w cand raw ≡ none))
unfolding window_item new_item
window_item_fits s r w cand raw =
    let it = new_item raw in
    let all : Grown it (window_bytes s r w cand) (append_rows s w 0 r it >>= append_keys cand) =
      Grown-bind it (12 * length (all_cells s w 0 r)) (8 * length cand) (window_bytes s r w cand)
        (append_rows s w 0 r it) (append_keys cand) refl
        (subst (Grown it (12 * length (all_cells s w 0 r))) (sym (append_rows-cells s w 0 r it))
          (append_all-Grown (all_cells s w 0 r) it (omega arith)))
        (append_keys-Grown cand) in
    elim all [
      | inl (h, it', g, e, l) ↦ inl (omega (arith, h), it', g, omega (arith, e))
      | inr (h, g) ↦ inr (omega (arith, h), g)
    ]
