-- ===== src/Tests/Content.antt =====
-- `BackupContent` with two keys, the second of which needs a larger array.
use af_stream.Prelude.{ℕ, ◌≡◌, refl, some, arith}
use af_stream.Fault.Item.{BackupItem}
use af_stream.Fault.Content.{blank, create, find, save_backup, resize}
use af_stream.Fault.Content.Slots.{IsSized, create-IsValid}
use af_stream.Fault.Content.Stored.{stored, carried, save-IsValid, stored-save_backup}
use af_stream.Fault.Content.Slots.{IsValid}

abbrev keyed : ℕ → BackupItem
unfolding blank
keyed k = record blank { payload = record blank.payload { meta = record { len = 4; key = k } } }

abbrev grown_by : ℕ → BackupItem
grown_by i = blank

grown_by-IsSized : (i : ℕ) → IsSized (grown_by i)
unfolding blank
grown_by-IsSized i = refl

two_keys_fill_two_slots :
    (save_backup grown_by (save_backup grown_by create (keyed 5)) (keyed 9)).used_slots ≡ 2
unfolding save_backup create find resize blank
two_keys_fill_two_slots = refl

save-IsValid_example : IsValid (save_backup grown_by create (keyed 5))
unfolding create keyed
save-IsValid_example =
    save-IsValid grown_by grown_by-IsSized create (keyed 5) create-IsValid (omega arith)
      (omega arith)

stored-save_backup_example :
    stored (save_backup grown_by create (keyed 5)) 5 ≡ some (carried (keyed 5))
unfolding create blank
stored-save_backup_example =
    stored-save_backup grown_by grown_by-IsSized create (keyed 5) create-IsValid (omega arith)
      (omega arith) 5
