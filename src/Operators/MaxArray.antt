-- ===== src/Operators/MaxArray.antt =====
-- array_max.hpp, `NumericArray_MAX<long long>`: an array of counters that backs up, one counter at
-- a time, the one that has grown most since its last backup. A counter is an integer; that values and
-- differences stay within `long long` is a hypothesis where they could leave it.
pub mod Tracking
pub mod Recovery
use af_stream.Prelude.{
  ℕ, ◌+◌, ◌%◌, ◌^◌, List, get_or, set, replicate, if◌then◌else◌, length, ◌≡◌, ◌<◌,
}
use af_stream.Prelude.Int.{ℤ, pos, ◌-ℤ◌, ltb_ℤ}
use af_stream.Memory.Double.{to_double}
use af_stream.Memory.Copy.{write_at, read_at}
use af_stream.Memory.Integers.{le_bytes, i64_bytes, i64_of_bytes}
use af_stream.Fault.Item.{BackupData}
use af_stream.Operators.Interface.{FtInterface}

pub record NumericArrayMax : Type 0 where
  pub size : ℕ
  pub array : List ℤ
  pub backup_array : List ℤ
  pub max_diff : ℤ
  pub max_diff_index : ℕ
  pub theta : ℤ

-- An element of a C array; out of range only where `IsValid` fails.
abbrev pub at : List ℤ → ℕ → ℤ
at xs i = get_or xs i (pos 0)

-- The constructor, with `SetDivergenceThresh(d)` as `CountMin` calls it.
unfoldable pub create : ℕ → ℤ → NumericArrayMax
create l d = record {
  size = l;
  array = replicate l (pos 0);
  backup_array = replicate l (pos 0);
  max_diff = pos 0;
  max_diff_index = 0;
  theta = d;
}

unfoldable pub update_value : NumericArrayMax → ℕ → ℤ → NumericArrayMax
update_value a index value =
    if ltb_ℤ a.max_diff (value -ℤ at a.backup_array index)
    then record a {
      array = set a.array index value;
      max_diff = value -ℤ at a.backup_array index;
      max_diff_index = index;
    }
    else record a { array = set a.array index value }

unfoldable pub get_value : NumericArrayMax → ℕ → ℤ
get_value a index = at a.array index

-- `max_diff_index` is not reset.
unfoldable pub clear : NumericArrayMax → NumericArrayMax
clear a = record a {
  array = replicate a.size (pos 0);
  backup_array = replicate a.size (pos 0);
  max_diff = pos 0;
}

unfoldable pub calculate_divergence : NumericArrayMax → ℤ
calculate_divergence a = to_double a.max_diff

unfoldable pub serialize_state : NumericArrayMax → BackupData → NumericArrayMax × BackupData
serialize_state a b = (
  record a {
    backup_array = set a.backup_array a.max_diff_index (at a.array a.max_diff_index);
    max_diff_index = 0;
    max_diff = pos 0;
  },
  record {
    meta = record { len = 4 + 8; key = a.max_diff_index };
    bytes =
        write_at (write_at b.bytes 0 (le_bytes 4 a.max_diff_index)) 4
          (i64_bytes (at a.array a.max_diff_index));
  },
)

-- `unsigned int index` keeps 32 bits of the key.
unfoldable pub recovery_state : NumericArrayMax → BackupData → NumericArrayMax
recovery_state a b =
    let index = b.meta.key % 2 ^ 32 in
    let value = i64_of_bytes (read_at b.bytes 4 8) in
    record a { backup_array = set a.backup_array index value; array = set a.array index value }

abbrev pub max_array_ops : FtInterface NumericArrayMax
max_array_ops = record {
  calculate_divergence = calculate_divergence;
  get_divergence_thresh = λ a. a.theta;
  serialize_state = serialize_state;
  recovery_state = recovery_state;
  clear = clear;
}

-- The arrays have the length that was asked for, and `max_diff_index` is one of their indices.
pub record IsValid (a : NumericArrayMax) : Type 0 where
  pub array_len : length a.array ≡ a.size
  pub backup_len : length a.backup_array ≡ a.size
  pub index_in : a.max_diff_index < a.size
