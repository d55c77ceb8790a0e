-- ===== src/Tolerance/Sync.antt =====
-- The invariant of a run: the backups at the server are the operator's own `backup_array`.
use af_stream.Prelude.{ℕ, ◌<◌, ◌≡◌, refl, ap, ◌∙◌, Option, none, some, List, arith, length, subst}
use af_stream.Prelude.Int.{ℤ, pos}
use af_stream.Memory.Copy.{read_at, write_at, length-write_at, read_at-write_at_self}
use af_stream.Memory.Integers.{
  InI64, i64_bytes, i64_of_bytes, i64_of_bytes-i64_bytes, length-i64_bytes, le_bytes,
}
use af_stream.Fault.Item.{BackupData, max_backup_item_data_len}
use af_stream.Fault.Content.Slots
use af_stream.Fault.Content.Slots.{IsSized, key_of}
use af_stream.Fault.Content.Stored.{Stored, stored}
use af_stream.Operators.MaxArray.{NumericArrayMax, IsValid, at, serialize_state}
use af_stream.Operators.MaxArray.Tracking.{IsBounded}
use af_stream.Tolerance.{Tracked}

-- the counter value in a stored backup
abbrev pub restored : Stored → ℤ
restored x = i64_of_bytes (read_at x.value 4 8)

-- the value that a counter is restored to: as stored, or as created
abbrev pub restored_or_zero : Option Stored → ℤ
restored_or_zero none = pos 0
restored_or_zero (some x) = restored x

module _ (a : NumericArrayMax) (b : BackupData) where
  pub serialize_state-meta :
      ((serialize_state a b).1.meta.len ≡ 12)
      × ((serialize_state a b).1.meta.key ≡ a.max_diff_index)
  unfolding serialize_state
  serialize_state-meta = (refl, refl)

  pub serialize_state-len : length (serialize_state a b).1.bytes ≡ length b.bytes
  unfolding serialize_state
  serialize_state-len =
      length-write_at (write_at b.bytes 0 (le_bytes 4 a.max_diff_index)) 4
        (i64_bytes (at a.array a.max_diff_index))
      ∙ length-write_at b.bytes 0 (le_bytes 4 a.max_diff_index)

  -- The bytes of a backup hold the counter that it names.
  pub serialize_state-value :
      length b.bytes ≡ max_backup_item_data_len
      → InI64 (at a.array a.max_diff_index)
      → i64_of_bytes (read_at (serialize_state a b).1.bytes 4 8) ≡ at a.array a.max_diff_index
  unfolding serialize_state
  serialize_state-value sized h = ap i64_of_bytes back ∙ i64_of_bytes-i64_bytes v h
    where
      v : ℤ
      v = at a.array a.max_diff_index

      head : List ℕ
      head = write_at b.bytes 0 (le_bytes 4 a.max_diff_index)

      back : read_at (write_at head 4 (i64_bytes v)) 4 8 ≡ i64_bytes v
      back =
          subst (λ n. read_at (write_at head 4 (i64_bytes v)) 4 n ≡ i64_bytes v)
            (length-i64_bytes v)
            (read_at-write_at_self head 4 (i64_bytes v) (
              omega (
                arith,
                length-i64_bytes v,
                length-write_at b.bytes 0 (le_bytes 4 a.max_diff_index),
                sized,
              )))

-- The operator is sound, and each counter's backup is what the server would restore.
pub record IsSynced (size : ℕ) (theta : ℤ) (s : Tracked) : Type 0 where
  pub valid : IsValid s.op
  pub bounded : IsBounded s.op
  pub size_eq : s.op.size ≡ size
  pub theta_eq : s.op.theta ≡ theta
  pub values : (j : ℕ) → InI64 (at s.op.array j)
  pub sized : IsSized s.cmd
  pub content : Slots.IsValid s.content
  pub same : (j : ℕ) → restored_or_zero (stored s.content j) ≡ at s.op.backup_array j
  pub shaped :
      (k : ℕ) (x : Stored)
      → stored s.content k ≡ some x
      → (x.meta.len ≡ 12) × (x.meta.key ≡ k) × (k < size)
