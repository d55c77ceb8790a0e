-- ===== src/Fault/Tracker.antt =====
-- operator_tracker.cpp, `OperatorTracker`: the operators of a worker, by the compute thread that made
-- them, and how recovery hands each backup to its operator. A call that ends the process (`LOG_ERR`,
-- or `at` out of range) or indexes past the threads is `none`.
pub mod Replay
use af_stream.Prelude.{
  ℕ, Option, none, some, Bool, ◌&&◌, List, [], ◌∷◌, ◌++◌, ◌==◌, if◌then◌else◌, ◌>>=◌, set,
  replicate, get_elem?,
}
use af_stream.Fault.Item.{BackupItem}
use af_stream.Fault.RecoveryItem.{RecoveryItem}
use af_stream.Operators.Interface.{FtInterface}

pub record OperatorTracker (S : Type 0) : Type 0 where
  pub operators : List (List S)
  pub worker_id : ℕ
  pub seed : ℕ

module _ {S : Type 0} where
  unfoldable pub create : ℕ → ℕ → OperatorTracker S
  create num_analyzer id = record {
    operators = replicate num_analyzer [];
    worker_id = id;
    seed = 0;
  }

  -- Called from the thread `thr_id`.
  unfoldable pub register_ft_operator : OperatorTracker S → ℕ → S → Option (OperatorTracker S)
  register_ft_operator t thr_id op = elim (get_elem? t.operators thr_id) [
    | none ↦ none
    | some ops ↦ some (record t { operators = set t.operators thr_id (ops ++ (op ∷ [])) })
  ]

  unfoldable pub get_thread_ops : OperatorTracker S → ℕ → Option (List S)
  get_thread_ops t thr_id = get_elem? t.operators thr_id

  abbrev pub op_of : Option (List S) → ℕ → Option S
  op_of none op_index = none
  op_of (some ops) op_index = get_elem? ops op_index

  -- `operators_[thread_id]->at(op_index)`
  unfoldable pub find_op : OperatorTracker S → ℕ → ℕ → Option S
  find_op t thread_id op_index = op_of (get_elem? t.operators thread_id) op_index

  abbrev pub with_op : OperatorTracker S → ℕ → ℕ → S → Option (List S) → OperatorTracker S
  with_op t thread_id op_index s none = t
  with_op t thread_id op_index s (some ops) = record t {
    operators = set t.operators thread_id (set ops op_index s);
  }

  -- the tracker after a change of that operator
  unfoldable pub put_op : OperatorTracker S → ℕ → ℕ → S → OperatorTracker S
  put_op t thread_id op_index s = with_op t thread_id op_index s (get_elem? t.operators thread_id)

module _ {S : Type 0} (ops : FtInterface S) where
  abbrev pub restored_op : OperatorTracker S → BackupItem → Option S → Option (OperatorTracker S)
  restored_op t item none = none
  restored_op t item (some s) =
      some (put_op t item.info.thread_id item.info.op_index (ops.recovery_state s item.payload))

  unfoldable pub recover_op : OperatorTracker S → BackupItem → Option (OperatorTracker S)
  recover_op t item =
      if item.info.worker_id == t.worker_id
      then restored_op t item (find_op t item.info.thread_id item.info.op_index)
      else none

  unfoldable pub recover_list : OperatorTracker S → List BackupItem → Option (OperatorTracker S)
  recover_list t [] = some t
  recover_list t (item ∷ items) = recover_op t item >>= λ t'. recover_list t' items

  unfoldable pub recover_ops : OperatorTracker S → RecoveryItem → Option (OperatorTracker S)
  recover_ops t r = recover_list t r.slots

  -- what the items for one operator make of it
  abbrev pub is_for : ℕ → ℕ → BackupItem → Bool
  is_for thread_id op_index item =
      (item.info.thread_id == thread_id) && (item.info.op_index == op_index)

  abbrev pub replayed : ℕ → ℕ → S → List BackupItem → S
  replayed thread_id op_index s [] = s
  replayed thread_id op_index s (item ∷ items) =
      replayed thread_id op_index
        (if is_for thread_id op_index item then ops.recovery_state s item.payload else s) items
