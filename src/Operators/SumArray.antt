-- ===== src/Operators/SumArray.antt =====
-- array_l1.hpp and array_l2.hpp, `NumericArray_L1<V>` and `NumericArray_L2<V>`: arrays of counters
-- whose divergence is a distance, kept up to date, between the counters and their backups. The two
-- classes are the same code around `abs` and `sqr`, which is the section's `diff`. Counters are
-- integers.
pub mod Distance
pub mod Backup
use af_stream.Prelude.{
  ℕ, zero, suc, ◌+◌, ◌%◌, ◌^◌, List, set, replicate, if◌then◌else◌, length, ◌≡◌, ◌<◌, [], ◌∷◌,
}
use af_stream.Prelude.Int.{ℤ, pos, ◌+ℤ◌, ◌-ℤ◌, ◌*ℤ◌, ltb_ℤ, abs}
use af_stream.Memory.Double.{to_double}
use af_stream.Memory.Copy.{write_at, read_at}
use af_stream.Memory.Integers.{le_bytes, i64_bytes, i64_of_bytes}
use af_stream.Fault.Item.{BackupData}
use af_stream.Operators.Interface.{FtInterface}
use af_stream.Operators.MaxArray.{at}

pub record SumArray : Type 0 where
  pub size : ℕ
  pub array : List ℤ
  pub backup_array : List ℤ
  pub tot_diff : ℤ
  pub theta : ℤ

-- The constructor takes the length l and the threshold d, and uses neither: it allocates by the
-- member `length`, which is indeterminate then, and leaves `theta_` as it finds it.
unfoldable pub create : ℕ → ℤ → ℕ → ℤ → SumArray
create indeterminate theta l d = record {
  size = indeterminate;
  array = replicate indeterminate (pos 0);
  backup_array = replicate indeterminate (pos 0);
  tot_diff = pos 0;
  theta = theta;
}

unfoldable pub get_value : SumArray → ℕ → ℤ
get_value a index = at a.array index

unfoldable pub clear : SumArray → SumArray
clear a = record a {
  array = replicate a.size (pos 0);
  backup_array = replicate a.size (pos 0);
  tot_diff = pos 0;
}

unfoldable pub recovery_state : SumArray → BackupData → SumArray
recovery_state a b =
    let index = b.meta.key % 2 ^ 32 in
    let value = i64_of_bytes (read_at b.bytes 4 8) in
    record a { backup_array = set a.backup_array index value; array = set a.array index value }

abbrev pub sqr : ℤ → ℤ
sqr v = v *ℤ v

module _ (diff : ℤ → ℤ) where
  -- how far counter i is from its backup
  abbrev pub diff_at : SumArray → ℕ → ℤ
  diff_at a i = diff (at a.array i -ℤ at a.backup_array i)

  unfoldable pub update_value : SumArray → ℕ → ℤ → SumArray
  update_value a index value = record a {
    tot_diff = a.tot_diff -ℤ diff_at a index +ℤ diff (value -ℤ at a.backup_array index);
    array = set a.array index value;
  }

  -- The loop of `SerializeState` over the n counters from i on. `i` is an unsigned int against a
  -- size_t: from 2 ^ 32 counters on it never reaches the length, and the loop does not end in the source;
  -- here it stops after `length` rounds.
  unfoldable pub max_diff_from : SumArray → ℕ → ℕ → ℕ → ℕ
  max_diff_from a zero i best = best
  max_diff_from a (suc n) i best =
      max_diff_from a n ((i + 1) % 2 ^ 32)
        (if ltb_ℤ (diff_at a best) (diff_at a i) then i else best)

  unfoldable pub serialize_state : SumArray → BackupData → SumArray × BackupData
  serialize_state a b =
      let index = max_diff_from a a.size 0 0 in
      (
        record a {
          tot_diff = a.tot_diff -ℤ diff_at a index;
          backup_array = set a.backup_array index (at a.array index);
        },
        record {
          meta = record { len = 4 + 8; key = index };
          bytes = write_at (write_at b.bytes 0 (le_bytes 4 index)) 4 (i64_bytes (at a.array index));
        },
      )

  abbrev pub sum_array_ops : FtInterface SumArray
  sum_array_ops = record {
    calculate_divergence = λ a. to_double a.tot_diff;
    get_divergence_thresh = λ a. a.theta;
    serialize_state = serialize_state;
    recovery_state = recovery_state;
    clear = clear;
  }

  -- the distance of two arrays: the divergence as it is meant
  abbrev pub distance : List ℤ → List ℤ → ℤ
  distance [] bs = pos 0
  distance (x ∷ xs) [] = pos 0
  distance (x ∷ xs) (b ∷ bs) = diff (x -ℤ b) +ℤ distance xs bs

  -- Both arrays have `length` elements, and the divergence is their distance.
  pub record IsExact (a : SumArray) : Type 0 where
    pub array_len : length a.array ≡ a.size
    pub backup_len : length a.backup_array ≡ a.size
    pub total : a.tot_diff ≡ distance a.array a.backup_array
