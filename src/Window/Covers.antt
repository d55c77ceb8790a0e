-- ===== src/Window/Covers.antt =====
-- After a merge the receiver's sketch covers what the sender's covered and what it covered before.
use af_stream.Prelude.{
  ℕ, zero, suc, ◌<◌, ◌≡◌, refl, sym, ap, ◌∙◌, subst, inl, inr, Bool, false, List, [], ◌∷◌, ◌||◌,
  if◌then◌else◌, length, get_or, map, Bool-cases, arith,
}
use af_stream.Prelude.Int.{ℤ, pos, ◌+ℤ◌, ◌≤ℤ◌, ltb_ℤ, int_laws}
use af_stream.Operators.MaxArray
use af_stream.Operators.MaxArray.{IsValid, at}
use af_stream.Operators.Hash.{Hash}
use af_stream.Sketch.{Row, CountMin, bucket, update_rows}
use af_stream.Sketch.Estimate.{IsCovering, AreCovering, bucket_in}
use af_stream.Window.{no_row, row_at, get_value}
use af_stream.Window.Cells.{all_cells}
use af_stream.Window.Merge.{merge_all, IsShaped, all_cells-IsShaped}
use af_stream.Window.Added.{with_positive, rows_added}

abbrev pub hash_list : List Row → List Hash
hash_list rs = map (λ (x : Row). x.hash) rs

hash_list-at :
    (rs : List Row) (i : ℕ) → get_or (hash_list rs) i no_row.hash ≡ (get_or rs i no_row).hash
hash_list-at [] i = refl
hash_list-at (x ∷ xs) zero = refl
hash_list-at (x ∷ xs) (suc i) = hash_list-at xs i

AreCovering-at :
    (f : ℕ → ℤ) (rs : List Row) (i : ℕ)
    → i < length rs
    → AreCovering f rs
    → IsCovering f (get_or rs i no_row)
AreCovering-at f [] i h w = absurd (omega arith)
AreCovering-at f (x ∷ xs) zero h (w, ws) = w
AreCovering-at f (x ∷ xs) (suc i) h (w, ws) = AreCovering-at f xs i (omega arith) ws

AreCovering-from :
    (f : ℕ → ℤ) (rs : List Row)
    → ((i : ℕ) → i < length rs → IsCovering f (get_or rs i no_row))
    → AreCovering f rs
AreCovering-from f [] h = tt
AreCovering-from f (x ∷ xs) h =
    (h 0 (omega arith), AreCovering-from f xs (λ i g. h (suc i) (omega arith)))

sum_covered : (f g a v : ℤ) → f ≤ℤ v → g ≤ℤ a → f +ℤ g ≤ℤ with_positive a v
sum_covered f g a v h k = elim (Bool-cases (ltb_ℤ (pos 0) v)) [
  | inl e ↦ rw e (omega (int_laws, h, k))
  | inr e ↦ rw e (omega (int_laws, h, k, small e))
]
  where
    small : ltb_ℤ (pos 0) v ≡ false → v ≤ℤ pos 0
    small e = ground (arith, e)

module _ (s m : CountMin) (r w : ℕ) (hs : List Hash) (f g : ℕ → ℤ) (k : IsShaped r w hs m)
    (same : hash_list s.rows ≡ hs) (len : length s.rows ≡ r) (cs : AreCovering f s.rows)
    (cm : AreCovering g m.rows) where
  merged_row :
      (i : ℕ)
      → i < r
      → IsCovering (λ key. f key +ℤ g key) (row_at (merge_all w (all_cells s w 0 r) m) i)
  unfolding get_value MaxArray.get_value
  merged_row i h = record {
    sound = (k'.sound i h).0;
    range =
        ap (λ (x : Hash). x.max_value) hash_m'
        ∙ of_m.range
        ∙ (k.sound i h).1
        ∙ sym (k'.sound i h).1;
    covers = λ key.
        let j = bucket (row_at m i).hash key in
        let j_in : j < w =
          subst (λ n. j < n) (k.sound i h).1
            (bucket_in (row_at m i) key (k.sound i h).0 of_m.range) in
        let low_s : f key ≤ℤ get_value s i j =
          subst (λ x. f key ≤ℤ get_value s i (bucket x key)) hash_s (of_s.covers key) in
        let low : f key +ℤ g key ≤ℤ with_positive (get_value m i j) (get_value s i j) =
          sum_covered (f key) (g key) (get_value m i j) (get_value s i j) low_s (of_m.covers key) in
        subst (λ x. f key +ℤ g key ≤ℤ at (row_at m' i).array.array (bucket x key)) (sym hash_m')
          (subst (λ v. f key +ℤ g key ≤ℤ v)
            (sym (rows_added s m 0 r i j k (omega arith) (omega arith) (omega arith) j_in)) low);
  }
    where
      m' : CountMin
      m' = merge_all w (all_cells s w 0 r) m

      k' : IsShaped r w hs m'
      k' = all_cells-IsShaped s m 0 r k (omega arith)

      of_m : IsCovering g (row_at m i)
      of_m = AreCovering-at g m.rows i (omega (arith, h, k.rows_len)) cm

      of_s : IsCovering f (row_at s i)
      of_s = AreCovering-at f s.rows i (omega (arith, h, len)) cs

      hash_m' : (row_at m' i).hash ≡ (row_at m i).hash
      hash_m' =
          sym (hash_list-at m'.rows i)
          ∙ ap (λ xs. get_or xs i no_row.hash) (k'.hashes ∙ sym k.hashes)
          ∙ hash_list-at m.rows i

      hash_s : (row_at s i).hash ≡ (row_at m i).hash
      hash_s =
          sym (hash_list-at s.rows i)
          ∙ ap (λ xs. get_or xs i no_row.hash) (same ∙ sym k.hashes)
          ∙ hash_list-at m.rows i

  pub merged_AreCovering :
      AreCovering (λ key. f key +ℤ g key) (merge_all w (all_cells s w 0 r) m).rows
  merged_AreCovering =
      let k' = all_cells-IsShaped s m 0 r k (omega arith) in
      AreCovering-from (λ key. f key +ℤ g key) (merge_all w (all_cells s w 0 r) m).rows
        (λ i h. merged_row i (omega (arith, h, k'.rows_len)))

-- The hash functions of a sketch are those of its constructor.
pub update_rows-hash_list :
    (key : ℕ) (v : ℤ) (rs : List Row) (first : Bool) (ret : ℤ)
    → hash_list (update_rows key v rs first ret).0 ≡ hash_list rs
unfolding update_rows
update_rows-hash_list key v [] first ret = refl
update_rows-hash_list key v (x ∷ xs) first ret = ap (◌∷◌ x.hash) (
    update_rows-hash_list key v xs false (
      if first || ltb_ℤ (MaxArray.get_value x.array (bucket x.hash key) +ℤ v) ret
      then MaxArray.get_value x.array (bucket x.hash key) +ℤ v
      else ret))
