-- ===== src/Tests/Tracker.antt =====
-- A worker with one compute thread that has two operators; the second one is recovered.
use af_stream.Prelude.{ℕ, ◌≡◌, refl, some, [], ◌∷◌}
use af_stream.Prelude.Int.{pos}
use af_stream.Fault.Item.{BackupItem}
use af_stream.Fault.Content.{blank}
use af_stream.Operators.MaxArray
use af_stream.Operators.MaxArray.{NumericArrayMax, max_array_ops}
use af_stream.Fault.Tracker.{OperatorTracker, find_op, recover_list, replayed}
use af_stream.Fault.Tracker.Replay.{AreHeld, recover_list-find}

abbrev array : NumericArrayMax
array = MaxArray.create 2 (pos 5)

abbrev tracker : OperatorTracker NumericArrayMax
tracker = record { operators = (array ∷ array ∷ []) ∷ []; worker_id = 3; seed = 0 }

abbrev for_second : BackupItem
unfolding blank
for_second = record {
  info = record { backup_op = 0; worker_id = 3; thread_id = 0; op_index = 1; seq = 8 };
  payload = record blank.payload { meta = record { len = 12; key = 1 } };
}

for_second-AreHeld : AreHeld tracker (for_second ∷ [])
unfolding find_op for_second
for_second-AreHeld = (refl, (array, refl), tt)

recover_list-find_example :
    (t' : OperatorTracker NumericArrayMax) × (recover_list max_array_ops tracker (for_second ∷ [])
      ≡ some t')
    × ((c d : ℕ) (r : NumericArrayMax)
        → find_op tracker c d ≡ some r
        → find_op t' c d ≡ some (replayed max_array_ops c d r (for_second ∷ [])))
recover_list-find_example =
    recover_list-find max_array_ops (for_second ∷ []) tracker for_second-AreHeld
