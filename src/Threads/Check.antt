-- ===== src/Threads/Check.antt =====
-- compute_thread.hpp, the end of a round of `ThreadMainHandler`: the divergence of each operator is
-- compared with its threshold, and an operator beyond it is backed up through the worker.
use af_stream.Prelude.{
  ℕ, ◌+◌, ◌%◌, ◌^◌, Option, none, some, List, [], ◌∷◌, ◌++◌, ◌==◌, if◌then◌else◌, ◌>>=◌,
}
use af_stream.Prelude.Int.{ltb_ℤ}
use af_stream.Fault.Item.{BackupData, BackupItem}
use af_stream.Operators.Interface.{FtInterface}

module _ {S : Type 0} (ops : FtInterface S) (worker_id thread_id : ℕ) where
  -- What is sent to the worker for operator i: the fields of `info` are 32, 16 and 16 bits wide.
  unfoldable pub backup_request : ℕ → ℕ → BackupData → BackupItem
  backup_request i seq filled = record {
    info = record {
      backup_op = 0;
      worker_id = worker_id % 2 ^ 32;
      thread_id = thread_id % 2 ^ 16;
      op_index = i % 2 ^ 16;
      seq = seq;
    };
    payload = filled;
  }

  -- After the worker's answer the length in the command is reset.
  unfoldable pub answered : BackupItem → BackupItem
  answered item = record item {
    payload = record item.payload { meta = record item.payload.meta { len = 0 } };
  }

  -- `seq` is the sequence number of `tuple`, `none` where `tuple` is NULL; the result is `none` where
  -- the code reads through that pointer. Otherwise: the operator, the buffer of `cmd`, and what was
  -- sent to the worker.
  unfoldable pub check_operator :
      ℕ → Option ℕ → S → BackupItem → Option (S × BackupItem × List BackupItem)
  check_operator i seq s cmd =
      if ltb_ℤ (ops.get_divergence_thresh s) (ops.calculate_divergence s)
      then (let (s', filled) = ops.serialize_state s cmd.payload in
          if filled.meta.len == 0
          then some (s', record cmd { payload = filled }, [])
          else elim seq [
            | none ↦ none
            | some q ↦
                some (s', answered (backup_request i q filled), backup_request i q filled ∷ [])
          ])
      else some (s, cmd, [])

  -- The loop over the thread's operators, from index i.
  unfoldable pub check_operators :
      ℕ → Option ℕ → List S → BackupItem → Option (List S × BackupItem × List BackupItem)
  check_operators i seq [] cmd = some ([], cmd, [])
  check_operators i seq (s ∷ ss) cmd = check_operator i seq s cmd >>= λ c.
      (check_operators (i + 1) seq ss c.1 >>= λ d. some (c.0 ∷ d.0, d.1, c.2 ++ d.2))
