-- ===== src/Sketch/Estimate.antt =====
-- The sketch never estimates a key below its total.
use af_stream.Prelude.{
  ℕ, zero, suc, ◌+◌, ◌-◌, ◌%◌, ◌^◌, ◌<◌, ◌≡◌, refl, sym, ap, ◌∙◌, inl, inr, Bool, true, false, ◌||◌,
  List, [], ◌∷◌, ◌==◌, if◌then◌else◌, length, set, get_or-set_self, get_or-set_ne, get_or-replicate,
  eq_or_ne, ==_ne, Bool-cases, arith, subst,
}
use af_stream.Prelude.Int.{ℤ, pos, pos_part, ◌+ℤ◌, ◌≤ℤ◌, ltb_ℤ, int_laws}
use af_stream.Operators.MaxArray
use af_stream.Operators.MaxArray.{NumericArrayMax, IsValid, at, update_value, get_value}
use af_stream.Operators.MaxArray.Tracking.{update_value-IsValid, update_value_fixed, create-IsValid}
use af_stream.Operators.Hash
use af_stream.Operators.Hash.{get_hash_value_lem}
use af_stream.Sketch.Range.{
  AllWithin, update_rows-AllWithin, create_rows-AllWithin, estimate_rows-within, AllWithin-weaken,
}
use af_stream.Sketch.{
  Row, CountMin, create_rows, create, bucket, update_rows, update_sketch, estimate_rows,
  get_estimate,
}

-- Each row's array is sound and has the range of its hash function, and the bucket of a key holds at
-- least f of the key.
pub record IsCovering (f : ℕ → ℤ) (r : Row) : Type 0 where
  pub sound : IsValid r.array
  pub range : r.hash.max_value ≡ r.array.size
  pub covers : (key : ℕ) → f key ≤ℤ at r.array.array (bucket r.hash key)

abbrev pub AreCovering : (ℕ → ℤ) → List Row → Type 0
AreCovering f [] = Unit {0}
AreCovering f (r ∷ rs) = IsCovering f r × AreCovering f rs

abbrev pub added : (ℕ → ℤ) → ℕ → ℤ → ℕ → ℤ
added f key v k = if key == k then f k +ℤ v else f k

pub bucket_in :
    (r : Row) (key : ℕ)
    → IsValid r.array
    → r.hash.max_value ≡ r.array.size
    → bucket r.hash key < r.array.size
unfolding bucket
bucket_in r key v e = rw (← e) ((get_hash_value_lem r.hash _ (omega (arith, v.index_in, e))).0)

updated_row : Row → ℕ → ℤ → Row
updated_row r key v = record r {
  array = update_value r.array (bucket r.hash key) (get_value r.array (bucket r.hash key) +ℤ v);
}

updated_row-IsCovering :
    (f : ℕ → ℤ) (r : Row) (key : ℕ) (v : ℤ)
    → pos 0 ≤ℤ v
    → IsCovering f r
    → IsCovering (added f key v) (updated_row r key v)
unfolding updated_row get_value
updated_row-IsCovering f r key v h w = record {
  sound = update_value-IsValid r.array i n w.sound inside;
  range = w.range ∙ sym fixed.2;
  covers = λ k. elim (eq_or_ne i (bucket r.hash k)) [
    | inl e ↦ rw (here k e) (within k e)
    | inr ne ↦
        rw
          (
            fixed.0,
            get_or-set_ne r.array.array i (bucket r.hash k) n (pos 0) ne,
            ==_ne key k (λ q. ne (ap (bucket r.hash) q)),
          )
          (w.covers k)
  ];
}
  where
    i : ℕ
    i = bucket r.hash key

    n : ℤ
    n = at r.array.array i +ℤ v

    inside : i < r.array.size
    inside = bucket_in r key w.sound w.range

    fixed :
        ((update_value r.array i n).array ≡ set r.array.array i n)
        × ((update_value r.array i n).backup_array ≡ r.array.backup_array)
        × ((update_value r.array i n).size ≡ r.array.size)
        × ((update_value r.array i n).theta ≡ r.array.theta)
    fixed = update_value_fixed r.array i n

    len : i < length r.array.array
    len = omega (arith, inside, w.sound.array_len)

    here : (k : ℕ) → i ≡ bucket r.hash k → at (update_value r.array i n).array (bucket r.hash k) ≡ n
    here k e =
        ap (λ xs. at xs (bucket r.hash k)) fixed.0
        ∙ subst (λ q. at (set r.array.array i n) q ≡ n) e
            (get_or-set_self r.array.array i n (pos 0) len)

    within : (k : ℕ) → i ≡ bucket r.hash k → added f key v k ≤ℤ n
    within k e =
        let old : f k ≤ℤ at r.array.array i =
          subst (λ q. f k ≤ℤ at r.array.array q) (sym e) (w.covers k) in
        elim (Bool-cases (key == k)) [
          | inl q ↦ rw q (omega (int_laws, old, h))
          | inr q ↦ rw q (omega (int_laws, old, h))
        ]

-- The least of the rows' values is at least any bound of them all.
estimate_rows_bound :
    (f : ℕ → ℤ) (key : ℕ) (rs : List Row) (ret : ℤ)
    → AreCovering f rs
    → f key ≤ℤ ret
    → f key ≤ℤ estimate_rows key rs false ret
unfolding estimate_rows get_value
estimate_rows_bound f key [] ret w h = h
estimate_rows_bound f key (r ∷ rs) ret (w, ws) h =
    estimate_rows_bound f key rs
      (if ltb_ℤ (at r.array.array (bucket r.hash key)) ret
        then at r.array.array (bucket r.hash key)
        else ret)
      ws (ground (arith, h, w.covers key))

pub update_rows-AreCovering :
    (f : ℕ → ℤ) (key : ℕ) (v : ℤ) (rs : List Row) (first : Bool) (ret : ℤ)
    → pos 0 ≤ℤ v
    → AreCovering f rs
    → AreCovering (added f key v) (update_rows key v rs first ret).0
unfolding update_rows updated_row
update_rows-AreCovering f key v [] first ret h w = tt
update_rows-AreCovering f key v (r ∷ rs) first ret h (w, ws) = (
  updated_row-IsCovering f r key v h w,
  update_rows-AreCovering f key v rs false
      (if first || ltb_ℤ (get_value r.array (bucket r.hash key) +ℤ v) ret
        then get_value r.array (bucket r.hash key) +ℤ v
        else ret)
      h ws,
)

-- the updates of a run, and the total of a key in them
pub record Arrival : Type 0 where
  pub key : ℕ
  pub value : ℤ

abbrev pub AreNonneg : List Arrival → Type 0
AreNonneg [] = Unit {0}
AreNonneg (u ∷ us) = (pos 0 ≤ℤ u.value) × AreNonneg us

-- all that is added
abbrev pub volume : List Arrival → ℕ
volume [] = 0
volume (u ∷ us) = pos_part u.value + volume us

abbrev pub total_from : (ℕ → ℤ) → List Arrival → ℕ → ℤ
total_from f [] = f
total_from f (u ∷ us) = total_from (added f u.key u.value) us

-- added to what there was before
abbrev pub total : List Arrival → ℕ → ℤ → ℤ
total [] key before = before
total (u ∷ us) key before = total us key (if u.key == key then before +ℤ u.value else before)

abbrev pub update_all : CountMin → List Arrival → CountMin
update_all s [] = s
update_all s (u ∷ us) = update_all (update_sketch s u.key u.value).0 us

update_all-AreCovering :
    (f : ℕ → ℤ) (us : List Arrival) (s : CountMin)
    → AreNonneg us
    → AreCovering f s.rows
    → AreCovering (total_from f us) (update_all s us).rows
unfolding update_sketch
update_all-AreCovering f [] s h w = w
update_all-AreCovering f (u ∷ us) s (h, hs) w =
    update_all-AreCovering (added f u.key u.value) us (update_sketch s u.key u.value).0 hs
      (update_rows-AreCovering f u.key u.value s.rows true (pos 0) h w)

pub create_rows-AreCovering :
    (r w seed : ℕ) (d : ℤ) → 0 < w → AreCovering (λ _. pos 0) (create_rows r w d seed)
unfolding create_rows MaxArray.create Hash.create
create_rows-AreCovering zero w seed d h = tt
create_rows-AreCovering (suc r) w seed d h = (
  record {
    sound = create-IsValid w d h;
    range = refl;
    covers = λ key. rw (get_or-replicate w (bucket (Hash.create seed w) key) (pos 0)) (omega arith);
  },
  create_rows-AreCovering r w ((seed + 1) % 2 ^ 32) d h,
)

pub total_from-total :
    (us : List Arrival) (f : ℕ → ℤ) (key : ℕ) → total_from f us key ≡ total us key (f key)
total_from-total [] f key = refl
total_from-total (u ∷ us) f key = total_from-total us (added f u.key u.value) key

pub length-update_rows :
    (key : ℕ) (v : ℤ) (rs : List Row) (first : Bool) (ret : ℤ)
    → length (update_rows key v rs first ret).0 ≡ length rs
unfolding update_rows
length-update_rows key v [] first ret = refl
length-update_rows key v (r ∷ rs) first ret = ap suc (
    length-update_rows key v rs false (
      if first || ltb_ℤ (get_value r.array (bucket r.hash key) +ℤ v) ret
      then get_value r.array (bucket r.hash key) +ℤ v
      else ret))

length-update_all :
    (us : List Arrival) (s : CountMin) → length (update_all s us).rows ≡ length s.rows
unfolding update_sketch
length-update_all [] s = refl
length-update_all (u ∷ us) s =
    length-update_all us (update_sketch s u.key u.value).0
    ∙ length-update_rows u.key u.value s.rows true (pos 0)

pub length-create_rows : (r w seed : ℕ) (d : ℤ) → length (create_rows r w d seed) ≡ r
unfolding create_rows
length-create_rows zero w seed d = refl
length-create_rows (suc r) w seed d = ap suc (length-create_rows r w ((seed + 1) % 2 ^ 32) d)

pub estimate_bound :
    (f : ℕ → ℤ) (key : ℕ) (rs : List Row)
    → 0 < length rs
    → AreCovering f rs
    → f key ≤ℤ estimate_rows key rs true (pos 0)
unfolding estimate_rows get_value
estimate_bound f key [] h w = absurd (omega arith)
estimate_bound f key (r ∷ rs) h (w, ws) =
    estimate_rows_bound f key rs (at r.array.array (bucket r.hash key)) ws (w.covers key)

update_all-AllWithin :
    (n : ℕ) (us : List Arrival) (s : CountMin)
    → AreNonneg us
    → AllWithin n s.rows
    → AllWithin (n + volume us) (update_all s us).rows
unfolding update_sketch
update_all-AllWithin n [] s h w = AllWithin-weaken n (n + 0) s.rows (omega arith) w
update_all-AllWithin n (u ∷ us) s (h, hs) w =
    AllWithin-weaken (n + pos_part u.value + volume us) (n + volume (u ∷ us))
      (update_all (update_sketch s u.key u.value).0 us).rows (omega arith)
      (update_all-AllWithin (n + pos_part u.value) us (update_sketch s u.key u.value).0 hs
        (update_rows-AllWithin n u.key u.value s.rows true (pos 0) h w))

-- A new sketch with a row and a bucket at least, after any sequence of updates by values that are
-- not negative and together less than 2 ^ 63, estimates each key at no less than the total of the key's
-- values, and at no more than all values together; and a `long long` holds each counter.
pub estimate_at_least :
    (r w seed : ℕ) (d : ℤ) (us : List Arrival) (key : ℕ)
    → 0 < r
    → 0 < w
    → AreNonneg us
    → volume us < 2 ^ 63
    → let s = update_all (create r w d seed) us in
      (total us key (pos 0) ≤ℤ get_estimate s key)
      × (get_estimate s key ≤ℤ pos (volume us))
      × AllWithin (2 ^ 63 - 1) s.rows
unfolding create get_estimate
estimate_at_least r w seed d us key hr hw h small =
    let s = create r w d seed in
    let within =
      AllWithin-weaken (0 + volume us) (volume us) (update_all s us).rows (omega arith)
        (update_all-AllWithin 0 us s h (create_rows-AllWithin 0 r w seed d)) in
    (
      subst (λ t. t ≤ℤ get_estimate (update_all s us) key) (total_from-total us (λ _. pos 0) key)
          (estimate_bound (total_from (λ _. pos 0) us) key (update_all s us).rows
            (omega (arith, length-update_all us s, length-create_rows r w seed d, hr))
            (update_all-AreCovering (λ _. pos 0) us s h (create_rows-AreCovering r w seed d hw))),
      estimate_rows-within (volume us) key (update_all s us).rows true (pos 0) (omega arith) within,
      AllWithin-weaken (volume us) (2 ^ 63 - 1) (update_all s us).rows (omega (arith, small))
          within,
    )
