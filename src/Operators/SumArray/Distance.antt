-- ===== src/Operators/SumArray/Distance.antt =====
-- The divergence of the L1 and L2 arrays: what a write and a clear do to the distance.
use af_stream.Prelude.{
  ℕ, zero, suc, ◌<◌, ◌≡◌, refl, ◌∙◌, List, [], ◌∷◌, length, set, length-set, replicate,
  length-replicate, arith,
}
use af_stream.Prelude.Int.{ℤ, pos, ◌+ℤ◌, ◌-ℤ◌, int_laws}
use af_stream.Operators.MaxArray.{at}
use af_stream.Operators.SumArray.{SumArray, update_value, distance, IsExact, create, clear}

module _ (diff : ℤ → ℤ) where
  pub distance-set :
      (xs bs : List ℤ) (i : ℕ) (v : ℤ)
      → length xs ≡ length bs
      → i < length xs
      → distance diff (set xs i v) bs
        ≡ distance diff xs bs -ℤ diff (at xs i -ℤ at bs i) +ℤ diff (v -ℤ at bs i)
  distance-set [] bs i v e h = absurd (omega arith)
  distance-set (x ∷ xs) [] i v e h = absurd (omega arith)
  distance-set (x ∷ xs) (b ∷ bs) zero v e h = omega int_laws
  distance-set (x ∷ xs) (b ∷ bs) (suc i) v e h =
      let ih = distance-set xs bs i v (omega arith) (omega arith) in rw ih (omega int_laws)

  -- Backing a counter up takes its own part out of the distance.
  pub distance-set_backup :
      (xs bs : List ℤ) (i : ℕ)
      → diff (pos 0) ≡ pos 0
      → length xs ≡ length bs
      → i < length xs
      → distance diff xs (set bs i (at xs i)) ≡ distance diff xs bs -ℤ diff (at xs i -ℤ at bs i)
  distance-set_backup [] bs i z e h = absurd (omega arith)
  distance-set_backup (x ∷ xs) [] i z e h = absurd (omega arith)
  distance-set_backup (x ∷ xs) (b ∷ bs) zero z e h =
      let nought : x -ℤ x ≡ pos 0 = omega int_laws in rw (nought, z) (omega int_laws)
  distance-set_backup (x ∷ xs) (b ∷ bs) (suc i) z e h =
      let ih = distance-set_backup xs bs i z (omega arith) (omega arith) in rw ih (omega int_laws)

  pub distance_self : (xs : List ℤ) → diff (pos 0) ≡ pos 0 → distance diff xs xs ≡ pos 0
  distance_self [] z = refl
  distance_self (x ∷ xs) z =
      let nought : x -ℤ x ≡ pos 0 = omega int_laws in
      rw (nought, z, distance_self xs z) (omega int_laws)

  -- `UpdateValue` at an index of the array keeps `tot_diff` the distance between the counters and
  -- their backups.
  pub update_value-IsExact :
      (a : SumArray) (i : ℕ) (v : ℤ)
      → i < a.size
      → IsExact diff a
      → IsExact diff (update_value diff a i v)
  unfolding update_value
  update_value-IsExact a i v h w = record {
    array_len = length-set a.array i v ∙ w.array_len;
    backup_len = w.backup_len;
    total =
        rw
          (
            distance-set a.array a.backup_array i v (omega (arith, w.array_len, w.backup_len))
                (omega (arith, w.array_len)),
            w.total,
          )
          refl;
  }

  pub create-IsExact :
      (n : ℕ) (theta : ℤ) (l : ℕ) (d : ℤ) → diff (pos 0) ≡ pos 0 → IsExact diff (create n theta l d)
  unfolding create
  create-IsExact n theta l d z = record {
    array_len = length-replicate n (pos 0);
    backup_len = length-replicate n (pos 0);
    total = rw (distance_self (replicate n (pos 0)) z) refl;
  }

  pub clear-IsExact : (a : SumArray) → diff (pos 0) ≡ pos 0 → IsExact diff (clear a)
  unfolding clear
  clear-IsExact a z = record {
    array_len = length-replicate a.size (pos 0);
    backup_len = length-replicate a.size (pos 0);
    total = rw (distance_self (replicate a.size (pos 0)) z) refl;
  }
