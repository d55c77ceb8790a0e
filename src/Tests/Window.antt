-- ===== src/Tests/Window.antt =====
-- A sketch of one row of two counters, its window in an item of 48 bytes, and the merge.
use af_stream.Prelude.{
  ℕ, ◌<◌, ◌≤◌, ◌⊎◌, none, ◌≡◌, refl, true, some, List, [], ◌∷◌, ◌>>=◌, get_elem?, replicate, arith,
}
use af_stream.Prelude.Int.{ℤ, pos, ◌+ℤ◌, ◌≤ℤ◌}
use af_stream.Sketch.{CountMin, create, create_rows, update_sketch, get_estimate}
use af_stream.Sketch.Estimate.{Arrival, total}
use af_stream.Window.{
  CmItem, CmThread, new_item, append_keys, get_counter, get_key, get_value, window_item,
  process_item,
}
use af_stream.Window.Item.{append_all}
use af_stream.Window.RoundTrip.{read_appended}
use af_stream.Window.Covers.{hash_list}
use af_stream.Window.Filling.{AllWithin-IsInRange}
use af_stream.Sketch.Range.{update_rows-AllWithin, create_rows-AllWithin}
use af_stream.Window.Added.{with_positive, HasRoom, merged_window}
use af_stream.Window.Overflow.{window_bytes, window_item_fits}
use af_stream.Window.Stream.{process_all, merge_items}
use af_stream.Window.Conserved.{created-IsShaped, new_sender, new_receiver, nothing_lost}

abbrev raw : List ℕ
raw = replicate 48 0

read_appended_example :
    (it : CmItem) × ((append_all ((5, pos 3) ∷ []) (new_item raw) >>= append_keys (9 ∷ []))
      ≡ some it)
    × (it.num_counter ≡ 1)
    × (it.num_hh ≡ 1)
    × ((n : ℕ) (c : ℕ × ℤ) → get_elem? ((5, pos 3) ∷ []) n ≡ some c → get_counter it n ≡ c)
    × ((n k : ℕ) → get_elem? (9 ∷ []) n ≡ some k → get_key it n ≡ k)
read_appended_example =
    read_appended raw ((5, pos 3) ∷ []) (9 ∷ []) (omega arith) (omega arith)
      (omega arith, omega arith, tt) (omega arith, tt)

abbrev a_window : CountMin
a_window = (update_sketch (create 1 2 (pos 9) 0) 7 (pos 3)).0

a_window-HasRoom : HasRoom a_window 1 2 (7 ∷ []) raw
unfolding update_sketch create
a_window-HasRoom = record {
  in_range = AllWithin-IsInRange 3 a_window (omega arith) (
      update_rows-AllWithin 0 7 (pos 3) (create_rows 1 2 (pos 9) 0) true (pos 0) (omega arith)
        (create_rows-AllWithin 0 1 2 0 (pos 9)));
  few_cells = omega arith;
  room = omega arith;
  short = omega arith;
  keys = (omega arith, tt);
}

merged_window_example :
    (it : CmItem) × (window_item a_window 1 2 (7 ∷ []) raw ≡ some it)
    × ((i j : ℕ)
        → i < 1
        → j < 2
        → get_value (process_item (new_receiver 1 2 0 (pos 9) 2) it).cm_sketch i j
          ≡ with_positive (get_value (create 1 2 (pos 9) 0) i j) (get_value a_window i j))
merged_window_example =
    merged_window a_window 1 2 (hash_list (create_rows 1 2 (pos 9) 0)) (7 ∷ []) raw
      (new_receiver 1 2 0 (pos 9) 2) a_window-HasRoom refl
      (created-IsShaped 1 2 0 (pos 9) (omega arith))

abbrev tuples : List Arrival
tuples =
    record { key = 7; value = pos 3 }
    ∷ record { key = 8; value = pos 4 }
    ∷ record { key = 7; value = pos 1 }
    ∷ []

nothing_lost_example :
    (t : CmThread) × (process_all raw (new_sender 1 2 0 (pos 9) 5 2) tuples ≡ some t)
    × (total tuples 7 (pos 0)
        ≤ℤ get_estimate (merge_items (new_receiver 1 2 0 (pos 9) 2) t.emitted).cm_sketch 7
          +ℤ get_estimate t.cm_sketch 7)
nothing_lost_example =
    nothing_lost 1 2 0 (pos 9) 5 2 2 raw tuples 7 (omega arith) (omega arith)
      (omega arith, omega arith, (omega arith, omega arith, (omega arith, omega arith, tt)))
      (omega arith) (record { few_cells = omega arith; room = omega arith; short = omega arith })

window_item_fits_example :
    ((window_bytes a_window 1 2 (7 ∷ []) ≤ 48)
      × (it : CmItem) × (window_item a_window 1 2 (7 ∷ []) raw ≡ some it)
      × (it.start ≡ window_bytes a_window 1 2 (7 ∷ [])))
    ⊎ ((48 < window_bytes a_window 1 2 (7 ∷ [])) × (window_item a_window 1 2 (7 ∷ []) raw ≡ none))
window_item_fits_example = window_item_fits a_window 1 2 (7 ∷ []) raw
