-- ===== src/Tests/Sketch.antt =====
-- A sketch of two rows after two updates of one key.
use af_stream.Sketch.Range.{AllWithin}
use af_stream.Prelude.{◌-◌, ◌^◌, List, [], ◌∷◌, ◌≡◌, arith}
use af_stream.Prelude.Int.{pos, ◌≤ℤ◌}
use af_stream.Sketch.{CountMin, create, update_sketch, get_estimate}
use af_stream.Sketch.Estimate.{
  Arrival, update_all, total, estimate_at_least, create_rows-AreCovering,
}
use af_stream.Sketch.Answer.{update_sketch-get_estimate}

abbrev arrivals : List Arrival
arrivals = record { key = 6; value = pos 2 } ∷ record { key = 6; value = pos 5 } ∷ []

estimate_at_least_example :
    let s = update_all (create 2 10 (pos 3) 0) arrivals in
    (total arrivals 6 (pos 0) ≤ℤ get_estimate s 6)
    × (get_estimate s 6 ≤ℤ pos 7)
    × AllWithin (2 ^ 63 - 1) s.rows
estimate_at_least_example =
    estimate_at_least 2 10 0 (pos 3) arrivals 6 (omega arith) (omega arith) (omega arith)
      (omega arith)

abbrev sketch : CountMin
unfolding create
sketch = create 2 10 (pos 3) 0

update_sketch-get_estimate_example :
    (update_sketch sketch 6 (pos 2)).1 ≡ get_estimate (update_sketch sketch 6 (pos 2)).0 6
unfolding sketch create
update_sketch-get_estimate_example =
    update_sketch-get_estimate (λ _. pos 0) sketch 6 (pos 2)
      (create_rows-AreCovering 2 10 0 (pos 3) (omega arith))
