-- ===== src/Tests/SumArray.antt =====
-- `NumericArray_L1` and `NumericArray_L2` with two counters.
use af_stream.Prelude.{◌≡◌, refl, arith}
use af_stream.Prelude.Int.{pos, negsuc, ◌≤ℤ◌, ◌-ℤ◌, ◌+ℤ◌, ◌*ℤ◌, abs}
use af_stream.Fault.Content.{blank}
use af_stream.Operators.SumArray.{
  SumArray, create, update_value, serialize_state, max_diff_from, sqr, IsExact,
}
use af_stream.Operators.SumArray.Distance.{create-IsExact, update_value-IsExact}
use af_stream.Operators.SumArray.Backup.{times, serialize_state-IsExact}

abs_zero : abs (pos 0) ≡ pos 0
unfolding abs ◌-ℤ◌
abs_zero = refl

sqr_zero : sqr (pos 0) ≡ pos 0
unfolding ◌*ℤ◌
sqr_zero = refl

abbrev two_counters : SumArray
two_counters = create 2 (pos 4) 2 (pos 5)

-- The second counter is farther from its backup, and is backed up.
negative_counter_first :
    let a = update_value abs (update_value abs two_counters 0 (pos 3)) 1 (negsuc 6) in
    (a.tot_diff ≡ pos 10) × ((serialize_state abs a blank.payload).1.meta.key ≡ 1)
unfolding update_value serialize_state max_diff_from create abs ◌-ℤ◌ ◌+ℤ◌
negative_counter_first = (refl, refl)

update_value-IsExact_example : IsExact sqr (update_value sqr two_counters 1 (pos 7))
unfolding create
update_value-IsExact_example =
    update_value-IsExact sqr two_counters 1 (pos 7) (omega arith)
      (create-IsExact sqr 2 (pos 4) 2 (pos 5) sqr_zero)

abbrev drifted : SumArray
drifted = update_value abs (update_value abs two_counters 0 (pos 3)) 1 (negsuc 6)

serialize_state-IsExact_example :
    let a' = (serialize_state abs drifted blank.payload).0 in
    IsExact abs a'
    × (drifted.tot_diff ≤ℤ times 2 (drifted.tot_diff -ℤ a'.tot_diff))
    × (a'.array ≡ drifted.array)
unfolding create update_value
serialize_state-IsExact_example =
    serialize_state-IsExact abs drifted blank.payload abs_zero (omega arith) (omega arith) (
      update_value-IsExact abs (update_value abs two_counters 0 (pos 3)) 1 (negsuc 6) (omega arith)
        (update_value-IsExact abs two_counters 0 (pos 3) (omega arith)
          (create-IsExact abs 2 (pos 4) 2 (pos 5) abs_zero)))
