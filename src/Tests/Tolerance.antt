-- ===== src/Tests/Tolerance.antt =====
-- Two counters with a threshold of 3: the run backs the first one up, the crash loses the rest.
use af_stream.Prelude.{ℕ, List, [], ◌∷◌}
use af_stream.Prelude.Int.{pos}
use af_stream.Fault.Item.{BackupItem}
use af_stream.Fault.Content.{blank}
use af_stream.Tolerance.{Update}

abbrev stream : List Update
stream =
    record { seq = 1; index = 0; value = pos 9 }
    ∷ record { seq = 2; index = 1; value = pos 3 }
    ∷ record { seq = 3; index = 0; value = pos 11 }
    ∷ []

abbrev memory : ℕ → BackupItem
memory i = blank
