-- ===== src/Window/Added.antt =====
-- A merged window adds its positive counters, each at its place, and changes nothing else.
use af_stream.Prelude.{
  ℕ, zero, suc, ◌+◌, ◌*◌, ◌^◌, ◌≤◌, ◌<◌, ◌≡◌, ◌≢◌, refl, ap, ◌∙◌, subst, ◌⊎◌, inl, inr, some, List,
  if◌then◌else◌, ◌>>=◌, length, eq_or_ne, Bool-cases, arith,
}
use af_stream.Prelude.Int.{ℤ, pos, ◌+ℤ◌, ltb_ℤ}
use af_stream.Operators.Hash.{Hash}
use af_stream.Sketch.{CountMin}
use af_stream.Window.{
  CmItem, new_item, get_counter, get_key, get_value, append_keys, window_item, merge_counter,
  merge_counters, MergeThread, report_key, report_keys, process_item,
}
use af_stream.Window.Item.{AreKeys}
use af_stream.Window.RoundTrip.{read_appended}
use af_stream.Window.Cells.{
  row_cells, all_cells, append_rows-cells, length-all_cells, IsInRange, all_cells-AreCounters,
}
use af_stream.Window.Merge.{
  merge_all, merge_all-append, merge_counters-merge_all, IsShaped, merge_counter-set_value,
  merge_counter-IsShaped, get_value-set_value_self, get_value-set_value_ne, row_cells-IsShaped,
}

-- a + v if v is positive, which is when it is sent
abbrev pub with_positive : ℤ → ℤ → ℤ
with_positive a v = if ltb_ℤ (pos 0) v then a +ℤ v else a

module _ {r w : ℕ} {hs : List Hash} where
  merge_counter_self :
      (m : CountMin) (i j : ℕ) (v : ℤ)
      → IsShaped r w hs m
      → i < r
      → j < w
      → get_value (merge_counter m w (i * w + j, v)) i j ≡ get_value m i j +ℤ v
  merge_counter_self m i j v k hi hj =
      ap (λ m'. get_value m' i j) (merge_counter-set_value m w i j v hj)
      ∙ get_value-set_value_self m i j (get_value m i j +ℤ v) k hi hj

  merge_counter_ne :
      (m : CountMin) (i j i' j' : ℕ) (v : ℤ)
      → IsShaped r w hs m
      → i < r
      → j < w
      → (i ≢ i') ⊎ (j ≢ j')
      → get_value (merge_counter m w (i * w + j, v)) i' j' ≡ get_value m i' j'
  merge_counter_ne m i j i' j' v k hi hj ne =
      ap (λ m'. get_value m' i' j') (merge_counter-set_value m w i j v hj)
      ∙ get_value-set_value_ne m i j i' j' (get_value m i j +ℤ v) k hi ne

  row_elsewhere :
      (s m : CountMin) (i j left i' j' : ℕ)
      → IsShaped r w hs m
      → i < r
      → j + left ≤ w
      → (i ≢ i') ⊎ (j' < j)
      → get_value (merge_all w (row_cells s w i j left) m) i' j' ≡ get_value m i' j'
  row_elsewhere s m i j zero i' j' k hi h ne = refl
  row_elsewhere s m i j (suc left) i' j' k hi h ne =
      let later : (i ≢ i') ⊎ (j' < j + 1) = elim ne [ inl f ↦ inl f | inr f ↦ inr (omega arith) ] in
      let here : (i ≢ i') ⊎ (j ≢ j') = elim ne [
        | inl f ↦ inl f
        | inr f ↦ inr (λ e. absurd (omega arith))
      ] in
      elim (Bool-cases (ltb_ℤ (pos 0) (get_value s i j))) [
        | inl e ↦ rw e (
            row_elsewhere s (merge_counter m w (i * w + j, get_value s i j)) i (j + 1) left i' j'
              (merge_counter-IsShaped m i j (get_value s i j) k hi (omega arith)) hi (omega arith)
              later
            ∙ merge_counter_ne m i j i' j' (get_value s i j) k hi (omega arith) here)
        | inr e ↦ rw e (row_elsewhere s m i (j + 1) left i' j' k hi (omega arith) later)
      ]

  row_added :
      (s m : CountMin) (i j left j' : ℕ)
      → IsShaped r w hs m
      → i < r
      → j + left ≤ w
      → j ≤ j'
      → j' < j + left
      → get_value (merge_all w (row_cells s w i j left) m) i j'
        ≡ with_positive (get_value m i j') (get_value s i j')
  row_added s m i j zero j' k hi h a b = absurd (omega arith)
  row_added s m i j (suc left) j' k hi h a b = elim (eq_or_ne j j') [
    | inl e ↦
        subst
          (λ q.
            get_value (merge_all w (row_cells s w i j (suc left)) m) i q
            ≡ with_positive (get_value m i q) (get_value s i q))
          e
          (elim (Bool-cases (ltb_ℤ (pos 0) (get_value s i j))) [
            | inl p ↦ rw p (
                row_elsewhere s (after (get_value s i j)) i (j + 1) left i j
                  (kept (get_value s i j)) hi (omega arith) (inr (omega arith))
                ∙ merge_counter_self m i j (get_value s i j) k hi (omega arith))
            | inr p ↦
                rw p (row_elsewhere s m i (j + 1) left i j k hi (omega arith) (inr (omega arith)))
          ])
    | inr ne ↦ elim (Bool-cases (ltb_ℤ (pos 0) (get_value s i j))) [
      | inl p ↦ rw p (
          row_added s (after (get_value s i j)) i (j + 1) left j' (kept (get_value s i j)) hi
            (omega arith) (omega arith) (omega arith)
          ∙ ap (λ x. with_positive x (get_value s i j'))
              (merge_counter_ne m i j i j' (get_value s i j) k hi (omega arith) (inr ne)))
      | inr p ↦
          rw p (row_added s m i (j + 1) left j' k hi (omega arith) (omega arith) (omega arith))
    ]
  ]
    where
      after : ℤ → CountMin
      after v = merge_counter m w (i * w + j, v)

      kept : (v : ℤ) → IsShaped r w hs (after v)
      kept v = merge_counter-IsShaped m i j v k hi (omega arith)

  rows_elsewhere :
      (s m : CountMin) (i left i' j' : ℕ)
      → IsShaped r w hs m
      → i + left ≤ r
      → i' < i
      → get_value (merge_all w (all_cells s w i left) m) i' j' ≡ get_value m i' j'
  rows_elsewhere s m i zero i' j' k h a = refl
  rows_elsewhere s m i (suc left) i' j' k h a =
      ap (λ m'. get_value m' i' j')
        (merge_all-append w (row_cells s w i 0 w) (all_cells s w (i + 1) left) m)
      ∙ rows_elsewhere s (merge_all w (row_cells s w i 0 w) m) (i + 1) left i' j'
          (row_cells-IsShaped s m i 0 w k (omega arith) (omega arith)) (omega arith) (omega arith)
      ∙ row_elsewhere s m i 0 w i' j' k (omega arith) (omega arith)
          (inl (λ e. absurd (omega arith)))

  pub rows_added :
      (s m : CountMin) (i left i' j' : ℕ)
      → IsShaped r w hs m
      → i + left ≤ r
      → i ≤ i'
      → i' < i + left
      → j' < w
      → get_value (merge_all w (all_cells s w i left) m) i' j'
        ≡ with_positive (get_value m i' j') (get_value s i' j')
  rows_added s m i zero i' j' k h a b c = absurd (omega arith)
  rows_added s m i (suc left) i' j' k h a b c =
      ap (λ m'. get_value m' i' j')
        (merge_all-append w (row_cells s w i 0 w) (all_cells s w (i + 1) left) m)
      ∙ elim (eq_or_ne i i') [
        | inl e ↦
            rows_elsewhere s m' (i + 1) left i' j' k' (omega arith) (omega arith)
            ∙ subst (λ q. get_value m' q j' ≡ with_positive (get_value m q j') (get_value s q j')) e
                (row_added s m i 0 w j' k (omega arith) (omega arith) (omega arith) (omega arith))
        | inr ne ↦
            rows_added s m' (i + 1) left i' j' k' (omega arith) (omega arith) (omega arith) c
            ∙ ap (λ x. with_positive x (get_value s i' j'))
                (row_elsewhere s m i 0 w i' j' k (omega arith) (omega arith) (inl ne))
      ]
    where
      m' : CountMin
      m' = merge_all w (row_cells s w i 0 w) m

      k' : IsShaped r w hs m'
      k' = row_cells-IsShaped s m i 0 w k (omega arith) (omega arith)

report_keys_sketch :
    (it : CmItem) (i left : ℕ) (t : MergeThread) → (report_keys it i left t).cm_sketch ≡ t.cm_sketch
unfolding report_keys report_key
report_keys_sketch it i zero t = refl
report_keys_sketch it i (suc left) t =
    report_keys_sketch it (i + 1) left (report_key t (get_key it i)) ∙ reported t (get_key it i)
  where
    reported : (t : MergeThread) (key : ℕ) → (report_key t key).cm_sketch ≡ t.cm_sketch
    reported t key = ground arith

pub report_keys_width :
    (it : CmItem) (i left : ℕ) (t : MergeThread) → (report_keys it i left t).w ≡ t.w
unfolding report_keys report_key
report_keys_width it i zero t = refl
report_keys_width it i (suc left) t =
    report_keys_width it (i + 1) left (report_key t (get_key it i)) ∙ reported t (get_key it i)
  where
    reported : (t : MergeThread) (key : ℕ) → (report_key t key).w ≡ t.w
    reported t key = ground arith

-- What the sender needs to put a window into one item.
pub record HasRoom (s : CountMin) (r w : ℕ) (cand raw : List ℕ) : Type 0 where
  pub in_range : IsInRange s
  pub few_cells : r * w ≤ 2 ^ 32
  pub room : 12 * (r * w) + 8 * length cand ≤ length raw
  pub short : length raw < 2 ^ 32
  pub keys : AreKeys cand

-- The item of a window, and the sketch that it is merged into.
pub window_item-merge_all :
    (s : CountMin) (r w : ℕ) (cand raw : List ℕ) (t : MergeThread)
    → HasRoom s r w cand raw
    → t.w ≡ w
    → (it : CmItem) × (window_item s r w cand raw ≡ some it)
      × ((process_item t it).cm_sketch ≡ merge_all w (all_cells s w 0 r) t.cm_sketch)
unfolding window_item process_item
window_item-merge_all s r w cand raw t h e =
    let cells = all_cells s w 0 r in
    let (it, built, n, n', reads, keys) =
      read_appended raw cells cand (omega (arith, length-all_cells s w 0 r, h.room)) h.short
        (all_cells-AreCounters s w 0 r h.in_range (omega (arith, h.few_cells))) h.keys in
    (
      it,
      ap (λ o. o >>= append_keys cand) (append_rows-cells s w 0 r (new_item raw)) ∙ built,
      report_keys_sketch it 0 it.num_hh
            (record t { cm_sketch = merge_counters it t.w 0 it.num_counter t.cm_sketch })
          ∙ ap (λ v. merge_counters it v 0 it.num_counter t.cm_sketch) e
          ∙ ap (λ c. merge_counters it w 0 c t.cm_sketch) n
          ∙ merge_counters-merge_all it w 0 cells t.cm_sketch
              (λ q c g. ap (get_counter it) (omega arith) ∙ reads q c g),
    )

-- A window whose counters and keys have room in an item, and counters in the range of their type, is
-- sent whole: it adds each positive counter of the sender's sketch to the receiver's one of the same
-- row and column, and leaves the others.
pub merged_window :
    (s : CountMin) (r w : ℕ) (hs : List Hash) (cand raw : List ℕ) (t : MergeThread)
    → HasRoom s r w cand raw
    → t.w ≡ w
    → IsShaped r w hs t.cm_sketch
    → (it : CmItem) × (window_item s r w cand raw ≡ some it)
      × ((i j : ℕ)
          → i < r
          → j < w
          → get_value (process_item t it).cm_sketch i j
            ≡ with_positive (get_value t.cm_sketch i j) (get_value s i j))
merged_window s r w hs cand raw t h e k =
    let (it, built, merged) = window_item-merge_all s r w cand raw t h e in
    (
      it,
      built,
      λ i j hi hj.
          ap (λ m. get_value m i j) merged
          ∙ rows_added s t.cm_sketch 0 r i j k (omega arith) (omega arith) (omega arith) hj,
    )
