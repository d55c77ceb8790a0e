-- ===== src/Tests/Adapter.antt =====
-- Two lines in a buffer with room for one, and the hash of two bytes.
use af_stream.Prelude.{ℕ, ◌≡◌, refl, none, some, List, [], ◌∷◌, arith}
use af_stream.Threads.AdapterRam.{init, read_record}
use af_stream.Threads.AdapterRam.RoundTrip.{fitting, read_all, read_back}
use af_stream.Operators.Hash.{Hash}

abbrev two_lines : List (List ℕ)
two_lines = (65 ∷ 66 ∷ 10 ∷ []) ∷ (67 ∷ 68 ∷ 69 ∷ []) ∷ []

first_line_fits : fitting 0 10 0 two_lines ≡ (65 ∷ 66 ∷ 10 ∷ []) ∷ []
first_line_fits = refl

read_back_example :
    let (records, a) = read_all 1 (init 10 0 two_lines) in
    (records ≡ some (65 ∷ 66 ∷ 10 ∷ []) ∷ []) × ((read_record a).0 ≡ none)
read_back_example = read_back 10 0 two_lines (omega arith)

abbrev hash : Hash
hash = record { hash = 5; scale = 31; hardener = 9; max_value = 100 }
