-- ===== src/Sketch.antt =====
-- apps/count_min/cm_sketch.hpp, `CountMin`: a count-min sketch whose rows are fault-tolerant arrays,
-- each with its own hash function. A key is hashed by the bytes of its `size_t`.
pub mod Range
pub mod Estimate
pub mod Answer
use af_stream.Prelude.{
  ℕ, zero, suc, ◌+◌, ◌%◌, ◌^◌, Bool, true, false, ◌||◌, List, [], ◌∷◌, if◌then◌else◌, get_or, set,
  map,
}
use af_stream.Prelude.Int.{ℤ, pos, ◌+ℤ◌, ltb_ℤ}
use af_stream.Memory.Integers.{le_bytes}
use af_stream.Operators.MaxArray
use af_stream.Operators.MaxArray.{NumericArrayMax, update_value, get_value}
use af_stream.Operators.Hash
use af_stream.Operators.Hash.{Hash, get_hash_value}

-- Row i is `arrays[i]` with `hash[i]`.
pub record Row : Type 0 where
  pub array : NumericArrayMax
  pub hash : Hash

pub record CountMin : Type 0 where
  pub rows : List Row
  pub width : ℕ

-- The constructor; row i is made with the seed that `GetSeed` gives next.
unfoldable pub create_rows : ℕ → ℕ → ℤ → ℕ → List Row
create_rows zero w d seed = []
create_rows (suc r) w d seed =
    record { array = MaxArray.create w d; hash = Hash.create seed w }
    ∷ create_rows r w d ((seed + 1) % 2 ^ 32)

unfoldable pub create : ℕ → ℕ → ℤ → ℕ → CountMin
create r w d seed = record { rows = create_rows r w d seed; width = w }

unfoldable pub bucket : Hash → ℕ → ℕ
bucket h key = get_hash_value h (le_bytes 8 key)

-- A counter is an integer: where a `long long` could overflow, which is undefined, the theorems bound
-- what is added in all.
--
-- The loop of `UpdateSketch` over the rows that are left, `first` at row 0.
unfoldable pub update_rows : ℕ → ℤ → List Row → Bool → ℤ → List Row × ℤ
update_rows key value [] first ret = ([], ret)
update_rows key value (r ∷ rs) first ret =
    let index = bucket r.hash key in
    let new_v = get_value r.array index +ℤ value in
    let (rs', ret') =
      update_rows key value rs false (if first || ltb_ℤ new_v ret then new_v else ret) in
    (record r { array = update_value r.array index new_v } ∷ rs', ret')

unfoldable pub update_sketch : CountMin → ℕ → ℤ → CountMin × ℤ
update_sketch s key value =
    let (rows', ret) = update_rows key value s.rows true (pos 0) in (record s { rows = rows' }, ret)

-- The loop of `GetEstimate`.
unfoldable pub estimate_rows : ℕ → List Row → Bool → ℤ → ℤ
estimate_rows key [] first ret = ret
estimate_rows key (r ∷ rs) first ret =
    let v = get_value r.array (bucket r.hash key) in
    estimate_rows key rs false (if first || ltb_ℤ v ret then v else ret)

unfoldable pub get_estimate : CountMin → ℕ → ℤ
get_estimate s key = estimate_rows key s.rows true (pos 0)

abbrev pub cleared_row : Row → Row
cleared_row r = record r { array = MaxArray.clear r.array }

unfoldable pub clear : CountMin → CountMin
clear s = record s { rows = map cleared_row s.rows }
