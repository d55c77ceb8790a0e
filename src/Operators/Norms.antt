-- ===== src/Operators/Norms.antt =====
-- array_l1.hpp and array_l2.hpp: the two classes, with their own measure of how far a counter is
-- from its backup.
use af_stream.Prelude.{ℕ}
use af_stream.Prelude.Int.{ℤ, abs}
use af_stream.Operators.Interface.{FtInterface}
use af_stream.Operators.SumArray.{SumArray, sqr, sum_array_ops, update_value}

abbrev pub numeric_array_l1 : FtInterface SumArray
numeric_array_l1 = sum_array_ops abs

abbrev pub update_value_l1 : SumArray → ℕ → ℤ → SumArray
update_value_l1 = update_value abs

abbrev pub numeric_array_l2 : FtInterface SumArray
numeric_array_l2 = sum_array_ops sqr

abbrev pub update_value_l2 : SumArray → ℕ → ℤ → SumArray
update_value_l2 = update_value sqr
