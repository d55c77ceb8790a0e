-- ===== src/Sketch/Range.antt =====
-- The counters of a sketch stay between zero and what has been added.
use af_stream.Prelude.{
  ℕ, zero, suc, ◌+◌, ◌%◌, ◌^◌, ◌≤◌, sym, subst, inl, inr, Bool, false, ◌||◌, List, [], ◌∷◌, set,
  if◌then◌else◌, get_or-replicate, Bool-cases, arith,
}
use af_stream.Prelude.Int.{ℤ, pos, pos_part, ◌+ℤ◌, ◌≤ℤ◌, ltb_ℤ, int_laws}
use af_stream.Operators.MaxArray
use af_stream.Operators.MaxArray.{at, get_value}
use af_stream.Operators.MaxArray.Tracking.{update_value_fixed}
use af_stream.Sketch.{Row, create_rows, bucket, update_rows, estimate_rows}

-- Each counter is between 0 and n.
abbrev pub AllWithin : ℕ → List Row → Type 0
AllWithin n [] = Unit {0}
AllWithin n (x ∷ xs) =
    ((j : ℕ) → (pos 0 ≤ℤ at x.array.array j) × (at x.array.array j ≤ℤ pos n)) × AllWithin n xs

pub set_within :
    (n i j : ℕ) (v : ℤ) (xs : List ℤ)
    → ((k : ℕ) → (pos 0 ≤ℤ at xs k) × (at xs k ≤ℤ pos n))
    → pos 0 ≤ℤ v
    → v ≤ℤ pos n
    → (pos 0 ≤ℤ at (set xs i v) j) × (at (set xs i v) j ≤ℤ pos n)
set_within n i j v [] h a b = h j
set_within n zero zero v (x ∷ xs) h a b = (a, b)
set_within n zero (suc j) v (x ∷ xs) h a b = h (suc j)
set_within n (suc i) zero v (x ∷ xs) h a b = h 0
set_within n (suc i) (suc j) v (x ∷ xs) h a b = set_within n i j v xs (λ k. h (suc k)) a b

pub update_rows-AllWithin :
    (n key : ℕ) (v : ℤ) (rs : List Row) (first : Bool) (ret : ℤ)
    → pos 0 ≤ℤ v
    → AllWithin n rs
    → AllWithin (n + pos_part v) (update_rows key v rs first ret).0
unfolding update_rows MaxArray.get_value
update_rows-AllWithin n key v [] first ret h w = tt
update_rows-AllWithin n key v (x ∷ xs) first ret h (w, ws) = (
  λ j.
      subst (λ ys. (pos 0 ≤ℤ at ys j) × (at ys j ≤ℤ pos (n + pos_part v)))
        (sym (update_value_fixed x.array i (at x.array.array i +ℤ v)).0)
        (set_within (n + pos_part v) i j (at x.array.array i +ℤ v) x.array.array
          (λ k. ((w k).0, omega (int_laws, (w k).1))) (omega (int_laws, (w i).0, h))
          (omega (int_laws, (w i).1, h))),
  update_rows-AllWithin n key v xs false
      (if first || ltb_ℤ (at x.array.array i +ℤ v) ret then at x.array.array i +ℤ v else ret) h ws,
)
  where
    i : ℕ
    i = bucket x.hash key

pub create_rows-AllWithin : (n r w seed : ℕ) (d : ℤ) → AllWithin n (create_rows r w d seed)
unfolding create_rows MaxArray.create
create_rows-AllWithin n zero w seed d = tt
create_rows-AllWithin n (suc r) w seed d = (
  λ j. rw (get_or-replicate {0} w j (pos 0)) (omega arith, omega arith),
  create_rows-AllWithin n r w ((seed + 1) % 2 ^ 32) d,
)

-- So does an estimate.
pub estimate_rows-within :
    (n key : ℕ) (rs : List Row) (first : Bool) (ret : ℤ)
    → ret ≤ℤ pos n
    → AllWithin n rs
    → estimate_rows key rs first ret ≤ℤ pos n
unfolding estimate_rows get_value
estimate_rows-within n key [] first ret h w = h
estimate_rows-within n key (x ∷ xs) first ret h (w, ws) =
    estimate_rows-within n key xs false (if first || ltb_ℤ v ret then v else ret)
      (elim (Bool-cases (first || ltb_ℤ v ret)) [
        | inl e ↦ rw e (w (bucket x.hash key)).1
        | inr e ↦ rw e h
      ])
      ws
  where
    v : ℤ
    v = at x.array.array (bucket x.hash key)

pub AllWithin-weaken : (n m : ℕ) (rs : List Row) → n ≤ m → AllWithin n rs → AllWithin m rs
AllWithin-weaken n m [] h w = tt
AllWithin-weaken n m (x ∷ xs) h (w, ws) =
    (λ j. ((w j).0, omega (arith, (w j).1)), AllWithin-weaken n m xs h ws)
