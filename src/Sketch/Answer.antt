-- ===== src/Sketch/Answer.antt =====
-- What `UpdateSketch` returns.
use af_stream.Prelude.{
  ℕ, ◌<◌, ◌≡◌, refl, sym, ap, ◌∙◌, Bool, true, false, ◌||◌, List, [], ◌∷◌, if◌then◌else◌, length,
  get_or-set_self, arith,
}
use af_stream.Prelude.Int.{ℤ, pos, ◌+ℤ◌, ltb_ℤ}
use af_stream.Operators.MaxArray.{NumericArrayMax, at, update_value, get_value}
use af_stream.Operators.MaxArray.Tracking.{update_value_fixed}
use af_stream.Sketch.{
  Row, CountMin, bucket, update_rows, update_sketch, estimate_rows, get_estimate,
}
use af_stream.Sketch.Estimate.{AreCovering, bucket_in}

-- the running minimum of both loops
abbrev least : Bool → ℤ → ℤ → ℤ
least first ret v = if first || ltb_ℤ v ret then v else ret

get_value-update_value :
    (a : NumericArrayMax) (i : ℕ) (v : ℤ)
    → i < length a.array
    → get_value (update_value a i v) i ≡ v
unfolding get_value
get_value-update_value a i v h =
    ap (λ xs. at xs i) (update_value_fixed a i v).0 ∙ get_or-set_self a.array i v (pos 0) h

update_rows-estimate_rows :
    (f : ℕ → ℤ) (key : ℕ) (v : ℤ) (rs : List Row) (first : Bool) (ret : ℤ)
    → AreCovering f rs
    → (update_rows key v rs first ret).1
      ≡ estimate_rows key (update_rows key v rs first ret).0 first ret
unfolding update_rows estimate_rows
update_rows-estimate_rows f key v [] first ret w = refl
update_rows-estimate_rows f key v (r ∷ rs) first ret (w, ws) =
    let i = bucket r.hash key in
    let n = get_value r.array i +ℤ v in
    let rest = update_rows key v rs false (least first ret n) in
    let inside : i < length r.array.array =
      omega (arith, bucket_in r key w.sound w.range, w.sound.array_len) in
    update_rows-estimate_rows f key v rs false (least first ret n) ws
    ∙ ap (λ x. estimate_rows key rest.0 false (least first ret x))
        (sym (get_value-update_value r.array i n inside))

-- In a sketch whose rows are sound, and cover some f, `UpdateSketch` returns the estimate of its key
-- in the sketch after the update.
pub update_sketch-get_estimate :
    (f : ℕ → ℤ) (s : CountMin) (key : ℕ) (v : ℤ)
    → AreCovering f s.rows
    → (update_sketch s key v).1 ≡ get_estimate (update_sketch s key v).0 key
unfolding update_sketch get_estimate
update_sketch-get_estimate f s key v w = update_rows-estimate_rows f key v s.rows true (pos 0) w
