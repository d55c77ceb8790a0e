-- ===== src/Tests/Replay.antt =====
-- Three saved records with a gap in their sequence numbers before the second.
use af_stream.Prelude.{arith, ℕ, ◌+◌, ◌≤◌, ◌<◌, ◌≡◌, ◌⊎◌, refl, none, some, List, [], ◌∷◌, get_or}
use af_stream.Fault.AdapterRecovery.{start_of, find_start, init, read_record}
use af_stream.Fault.AdapterRecovery.Start.{Follows, start_of_lem}
use af_stream.Fault.AdapterRecovery.Replayed.{read_all, replayed_records}
use af_stream.Memory.Copy.{read_at}
use af_stream.Memory.Integers.{of_bytes}

abbrev numbers : List ℕ
numbers = 5 ∷ 9 ∷ 10 ∷ []

start_after_the_gap : start_of numbers ≡ 1
unfolding start_of find_start
start_after_the_gap = refl

start_of_lem_example :
    (start_of numbers < 3)
    × ((j : ℕ)
        → start_of numbers ≤ j
        → j + 1 < 3
        → Follows (get_or numbers j 0) (get_or (9 ∷ 10 ∷ []) j 0))
    × ((start_of numbers ≡ 0)
        ⊎ ((m : ℕ) × (start_of numbers ≡ m + 1)
            × (¬ Follows (get_or numbers m 0) (get_or (9 ∷ 10 ∷ []) m 0))))
start_of_lem_example = start_of_lem 5 (9 ∷ 10 ∷ [])

abbrev saved_bytes : List ℕ
saved_bytes = 1 ∷ 0 ∷ 0 ∷ 0 ∷ 65 ∷ 1 ∷ 0 ∷ 0 ∷ 0 ∷ 66 ∷ []

replayed_records_example :
    let (records, a) = read_all 1 (init saved_bytes (5 ∷ 9 ∷ [])) in
    (records ≡ some (66 ∷ []) ∷ []) × ((read_record a).0 ≡ none)
unfolding start_of find_start read_at of_bytes
replayed_records_example =
    replayed_records saved_bytes (5 ∷ 9 ∷ []) ((65 ∷ []) ∷ []) (66 ∷ []) []
      ((refl, refl, (refl, refl, tt))) refl refl (omega arith) (omega arith)
