-- ===== src/Tests/Traces.antt =====
-- A file of three lines, read from the disk.
use af_stream.Prelude.{ℕ, ◌≡◌, refl, inl, some, List, [], ◌∷◌}
use af_stream.Threads.AdapterDisk
use af_stream.Threads.AdapterDisk.{after, line_or_last, record_after}

abbrev lines : List (List ℕ)
lines = (97 ∷ 98 ∷ []) ∷ (99 ∷ []) ∷ (100 ∷ []) ∷ []

-- the fourth call on a file of three lines
record_after_example :
    (AdapterDisk.read_record (after 4 (AdapterDisk.init 0 lines [] 0))).0
    ≡ some (line_or_last [] lines 4)
unfolding AdapterDisk.init
record_after_example = record_after 4 (AdapterDisk.init 0 lines [] 0) (inl refl)
