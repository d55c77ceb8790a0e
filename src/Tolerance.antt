-- ===== src/Tolerance.antt =====
-- Approximate fault tolerance end to end: `NumericArray_MAX`, the divergence check of its compute
-- thread and the `BackupContent` that the server keeps for it, through a run of updates. Between
-- them the items pass through the worker (`Worker::Start`) and ZeroMQ, which deliver each one.
pub mod Sync
pub mod Run
pub mod Bound
use af_stream.Prelude.{ℕ, Option, none, some, List, [], ◌∷◌, ◌>>=◌}
use af_stream.Prelude.Int.{ℤ}
use af_stream.Fault.Item.{BackupItem}
use af_stream.Fault.Content.{BackupContent, save_backup}
use af_stream.Operators.MaxArray.{NumericArrayMax, max_array_ops, update_value}
use af_stream.Threads.Check.{check_operator}

-- an operator, the command buffer of its thread, and its backups at the server
pub record Tracked : Type 0 where
  pub op : NumericArrayMax
  pub cmd : BackupItem
  pub content : BackupContent

-- a tuple that writes one counter
pub record Update : Type 0 where
  pub seq : ℕ
  pub index : ℕ
  pub value : ℤ

unfoldable pub save_all : (ℕ → BackupItem) → BackupContent → List BackupItem → BackupContent
save_all fill c [] = c
save_all fill c (item ∷ items) = save_all fill (save_backup fill c item) items

-- The server saves what the check has sent.
abbrev pub deliver :
    (ℕ → BackupItem)
    → BackupContent
    → Option (NumericArrayMax × BackupItem × List BackupItem)
    → Option Tracked
deliver fill c none = none
deliver fill c (some (op', cmd', sent)) =
    some (record { op = op'; cmd = cmd'; content = save_all fill c sent })

module _ (fill : ℕ → BackupItem) (worker_id thread_id op_index : ℕ) where
  -- One round of the main loop: the update, the check, and the server's save of what was sent.
  unfoldable pub process : Tracked → Update → Option Tracked
  process s u = deliver fill s.content (
      check_operator max_array_ops worker_id thread_id op_index (some u.seq)
        (update_value s.op u.index u.value) s.cmd)

  unfoldable pub run : Tracked → List Update → Option Tracked
  run s [] = some s
  run s (u ∷ us) = process s u >>= λ s'. run s' us
