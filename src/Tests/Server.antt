-- ===== src/Tests/Server.antt =====
-- A backup server with one operator of worker 3.
use af_stream.Prelude.{
  ℕ, zero, suc, none, ◌==◌, ◌&&◌, if◌then◌else◌, ◌≡◌, refl, some, [], ◌∷◌, arith, length,
}
use af_stream.Fault.Item.{BackupItem}
use af_stream.Fault.Content
use af_stream.Fault.Content.{
  BackupContent, blank, find, save_backup, resize, copy_backup_item, slot, get_count,
}
use af_stream.Fault.Content.Slots.{IsSized}
use af_stream.Fault.Content.Stored.{carried}
use af_stream.Fault.Server.{Server, start, save, tot_count, recovery_item, content_at, op_key_of}
use af_stream.Fault.Server.Saving.{saved, start-IsValid, saved-save}
use af_stream.Fault.Server.Recovery.{IsFilled, recovery_item_lem}

abbrev from_worker : BackupItem
unfolding blank
from_worker = record {
  info = record { backup_op = 0; worker_id = 3; thread_id = 1; op_index = 0; seq = 8 };
  payload = record blank.payload { meta = record { len = 12; key = 5 } };
}

abbrev left_over : ℕ → BackupItem
left_over i = blank

left_over-IsSized : (i : ℕ) → IsSized (left_over i)
unfolding blank
left_over-IsSized i = refl

abbrev key : ℕ
key = op_key_of from_worker.info

saved-save_example :
    saved (save left_over start from_worker) key 5
    ≡ (if (key == key) && (5 == 5) then some (carried from_worker) else saved start key 5)
unfolding start Content.create blank
saved-save_example =
    saved-save left_over left_over-IsSized start from_worker start-IsValid (omega arith)
      (omega arith) key 5

abbrev kept : BackupContent
kept = record { table = (5, 0) ∷ []; slots = from_worker ∷ []; used_slots = 1; max_slots = 1 }

-- the server when worker 3 asks for its backups
abbrev asked : Server
unfolding blank
asked = record {
  contents = kept ∷ [];
  ops = λ k. if k == key then some 0 else none;
  worker_ops = λ w. if w == 3 then 0 ∷ [] else [];
  backup_item = blank;
  cnt = 1;
  cur_stop = 0;
}

asked-IsFilled : (i : ℕ) → IsFilled (content_at asked i)
unfolding Content.create blank
asked-IsFilled zero = record { room = omega arith; fits = λ j h. ground (arith, h) }
asked-IsFilled (suc i) = record { room = omega arith; fits = λ j h. absurd (omega arith) }

recovery_item_lem_example :
    ((recovery_item left_over asked 3).count ≡ tot_count asked 3)
    × (length (recovery_item left_over asked 3).slots ≡ tot_count asked 3)
    × (tot_count asked 3 ≡ 1)
    × (carried (slot (recovery_item left_over asked 3).slots 0) ≡ carried from_worker)
unfolding asked
recovery_item_lem_example =
    recovery_item_lem left_over left_over-IsSized asked asked-IsFilled 3 [] 0 [] 0 refl
      (omega arith) (omega arith)
