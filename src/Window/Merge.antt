-- ===== src/Window/Merge.antt =====
-- What the counters of an item do to the sketch that they are added to.
use af_stream.Prelude.{
  ℕ, zero, suc, ◌+◌, ◌*◌, ◌/◌, ◌%◌, ◌≤◌, ◌<◌, ◌≡◌, ◌≢◌, refl, sym, ap, ap₂, ◌∙◌, subst, ◌⊎◌, inl,
  inr, some, List, [], ◌∷◌, ◌++◌, length, get_elem?, get_or, set, map, length-set, get_or-set_self,
  get_or-set_ne, eq_or_ne, Bool-cases, arith,
}
use native.Mathlib.Nat.{add-mul-div_right, add-mul-mod_self_right, mod-eq_of_lt, div-eq_of_lt}
use af_stream.Prelude.Int.{ℤ, pos, ◌+ℤ◌, ltb_ℤ}
use af_stream.Operators.MaxArray
use af_stream.Operators.MaxArray.{IsValid, at, update_value}
use af_stream.Operators.MaxArray.Tracking.{update_value-IsValid, update_value_fixed}
use af_stream.Operators.Hash.{Hash}
use af_stream.Sketch.{Row, CountMin}
use af_stream.Window.{
  CmItem, get_counter, no_row, row_at, get_value, set_value, merge_counter, merge_counters,
}
use af_stream.Window.Cells.{row_cells, all_cells}

abbrev pub merge_all : ℕ → List (ℕ × ℤ) → CountMin → CountMin
merge_all w [] m = m
merge_all w (c ∷ cs) m = merge_all w cs (merge_counter m w c)

pub merge_all-append :
    (w : ℕ) (xs ys : List (ℕ × ℤ)) (m : CountMin)
    → merge_all w (xs ++ ys) m ≡ merge_all w ys (merge_all w xs m)
merge_all-append w [] ys m = refl
merge_all-append w (x ∷ xs) ys m = merge_all-append w xs ys (merge_counter m w x)

-- The loop over the counters of an item goes through the list of them.
pub merge_counters-merge_all :
    (it : CmItem) (w i : ℕ) (cs : List (ℕ × ℤ)) (m : CountMin)
    → ((n : ℕ) (c : ℕ × ℤ) → get_elem? cs n ≡ some c → get_counter it (i + n) ≡ c)
    → merge_counters it w i (length cs) m ≡ merge_all w cs m
unfolding merge_counters
merge_counters-merge_all it w i [] m h = refl
merge_counters-merge_all it w i (c ∷ cs) m h =
    ap (λ d. merge_counters it w (i + 1) (length cs) (merge_counter m w d)) first
    ∙ merge_counters-merge_all it w (i + 1) cs (merge_counter m w c)
        (λ n d e. ap (get_counter it) (omega arith) ∙ h (suc n) d e)
  where
    first : get_counter it i ≡ c
    first = ap (get_counter it) (omega arith) ∙ h 0 c refl

-- A sketch of r rows of w counters with these hash functions.
pub record IsShaped (r w : ℕ) (hs : List Hash) (s : CountMin) : Type 0 where
  pub rows_len : length s.rows ≡ r
  pub hashes : map (λ (x : Row). x.hash) s.rows ≡ hs
  pub sound : (i : ℕ) → i < r → IsValid (row_at s i).array × ((row_at s i).array.size ≡ w)

abbrev with_value : Row → ℕ → ℤ → Row
with_value x j v = record x { array = update_value x.array j v }

map-set_same :
    (rs : List Row) (i j : ℕ) (v : ℤ)
    → map (λ (x : Row). x.hash) (set rs i (with_value (get_or rs i no_row) j v))
      ≡ map (λ (x : Row). x.hash) rs
map-set_same [] i j v = refl
map-set_same (x ∷ xs) zero j v = refl
map-set_same (x ∷ xs) (suc i) j v = ap (◌∷◌ x.hash) (map-set_same xs i j v)

set_value_row :
    (m : CountMin) (i j : ℕ) (v : ℤ)
    → i < length m.rows
    → row_at (set_value m i j v) i ≡ with_value (row_at m i) j v
unfolding set_value
set_value_row m i j v h = get_or-set_self m.rows i (with_value (row_at m i) j v) no_row h

set_value_row_ne :
    (m : CountMin) (i i' j : ℕ) (v : ℤ) → i ≢ i' → row_at (set_value m i j v) i' ≡ row_at m i'
unfolding set_value
set_value_row_ne m i i' j v ne = get_or-set_ne m.rows i i' (with_value (row_at m i) j v) no_row ne

-- The index of a counter is split as it was put together.
pub merge_counter-set_value :
    (m : CountMin) (w i j : ℕ) (v : ℤ)
    → j < w
    → merge_counter m w (i * w + j, v) ≡ set_value m i j (get_value m i j +ℤ v)
unfolding merge_counter
merge_counter-set_value m w i j v h =
    let turn : i * w + j ≡ j + i * w = omega arith in
    let row : (i * w + j) / w ≡ i =
      ap (λ k. k / w) turn ∙ add-mul-div_right j i (omega arith) ∙ omega (arith, div-eq_of_lt h) in
    let column : (i * w + j) % w ≡ j =
      ap (λ k. k % w) turn ∙ add-mul-mod_self_right j i w ∙ mod-eq_of_lt h in
    ap₂ (λ p q. set_value m p q (get_value m p q +ℤ v)) row column

module _ {r w : ℕ} {hs : List Hash} where
  set_value-IsShaped :
      (m : CountMin) (i j : ℕ) (v : ℤ)
      → IsShaped r w hs m
      → i < r
      → j < w
      → IsShaped r w hs (set_value m i j v)
  unfolding set_value
  set_value-IsShaped m i j v k hi hj = record {
    rows_len = length-set m.rows i (with_value (row_at m i) j v) ∙ k.rows_len;
    hashes = map-set_same m.rows i j v ∙ k.hashes;
    sound = λ i' h. elim (eq_or_ne i i') [
      | inl e ↦
          let old = k.sound i hi in
          let now : IsValid (with_value (row_at m i) j v).array
              × ((with_value (row_at m i) j v).array.size ≡ w) =
            (
              update_value-IsValid (row_at m i).array j v old.0 (omega (arith, old.1)),
              (update_value_fixed (row_at m i).array j v).2 ∙ old.1,
            ) in
          subst
            (λ q.
              IsValid (row_at (set_value m i j v) q).array
              × ((row_at (set_value m i j v) q).array.size ≡ w))
            e
            (subst (λ (x : Row). IsValid x.array × (x.array.size ≡ w))
              (sym (set_value_row m i j v (omega (arith, k.rows_len)))) now)
      | inr ne ↦
          subst (λ (x : Row). IsValid x.array × (x.array.size ≡ w))
            (sym (set_value_row_ne m i i' j v ne)) (k.sound i' h)
    ];
  }

  pub get_value-set_value_self :
      (m : CountMin) (i j : ℕ) (v : ℤ)
      → IsShaped r w hs m
      → i < r
      → j < w
      → get_value (set_value m i j v) i j ≡ v
  unfolding get_value MaxArray.get_value
  get_value-set_value_self m i j v k hi hj =
      ap (λ (x : Row). at x.array.array j) (set_value_row m i j v (omega (arith, k.rows_len)))
      ∙ ap (λ xs. at xs j) (update_value_fixed (row_at m i).array j v).0
      ∙ get_or-set_self (row_at m i).array.array j v (pos 0)
          (omega (arith, (k.sound i hi).0.array_len, (k.sound i hi).1))

  pub get_value-set_value_ne :
      (m : CountMin) (i j i' j' : ℕ) (v : ℤ)
      → IsShaped r w hs m
      → i < r
      → (i ≢ i') ⊎ (j ≢ j')
      → get_value (set_value m i j v) i' j' ≡ get_value m i' j'
  unfolding get_value MaxArray.get_value
  get_value-set_value_ne m i j i' j' v k hi ne = elim (eq_or_ne i i') [
    | inl e ↦ elim ne [
      | inl f ↦ absurd (f e)
      | inr f ↦
          subst (λ q. get_value (set_value m i j v) q j' ≡ get_value m q j') e
            (ap (λ (x : Row). at x.array.array j')
                (set_value_row m i j v (omega (arith, k.rows_len)))
              ∙ ap (λ xs. at xs j') (update_value_fixed (row_at m i).array j v).0
              ∙ get_or-set_ne (row_at m i).array.array j j' v (pos 0) f)
    ]
    | inr f ↦ ap (λ (x : Row). at x.array.array j') (set_value_row_ne m i i' j v f)
  ]

  pub merge_counter-IsShaped :
      (m : CountMin) (i j : ℕ) (v : ℤ)
      → IsShaped r w hs m
      → i < r
      → j < w
      → IsShaped r w hs (merge_counter m w (i * w + j, v))
  merge_counter-IsShaped m i j v k hi hj =
      subst (IsShaped r w hs) (sym (merge_counter-set_value m w i j v hj))
        (set_value-IsShaped m i j (get_value m i j +ℤ v) k hi hj)

  pub row_cells-IsShaped :
      (s m : CountMin) (i j left : ℕ)
      → IsShaped r w hs m
      → i < r
      → j + left ≤ w
      → IsShaped r w hs (merge_all w (row_cells s w i j left) m)
  row_cells-IsShaped s m i j zero k hi h = k
  row_cells-IsShaped s m i j (suc left) k hi h =
      elim (Bool-cases (ltb_ℤ (pos 0) (get_value s i j))) [
        | inl e ↦ rw e (
            row_cells-IsShaped s (merge_counter m w (i * w + j, get_value s i j)) i (j + 1) left
              (merge_counter-IsShaped m i j (get_value s i j) k hi (omega arith)) hi (omega arith))
        | inr e ↦ rw e (row_cells-IsShaped s m i (j + 1) left k hi (omega arith))
      ]

  pub all_cells-IsShaped :
      (s m : CountMin) (i left : ℕ)
      → IsShaped r w hs m
      → i + left ≤ r
      → IsShaped r w hs (merge_all w (all_cells s w i left) m)
  all_cells-IsShaped s m i zero k h = k
  all_cells-IsShaped s m i (suc left) k h =
      subst (IsShaped r w hs)
        (sym (merge_all-append w (row_cells s w i 0 w) (all_cells s w (i + 1) left) m))
        (all_cells-IsShaped s (merge_all w (row_cells s w i 0 w) m) (i + 1) left
          (row_cells-IsShaped s m i 0 w k (omega arith) (omega arith)) (omega arith))
