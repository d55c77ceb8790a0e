-- ===== src/Window/Filling.antt =====
-- What a compute thread's sketch and candidates are like while a window fills.
use af_stream.Sketch.Range.{AllWithin}
use af_stream.Prelude.{
  ℕ, zero, suc, ◌+◌, ◌^◌, ◌≤◌, ◌<◌, ◌≡◌, refl, ap, inl, inr, List, [], ◌∷◌, ◌==◌, ltb, length,
  get_or, map, Bool-cases, get_or-replicate, length-replicate, arith,
}
use af_stream.Prelude.Int.{ℤ, pos, ◌≤ℤ◌}
use af_stream.Memory.Integers.{InI64}
use af_stream.Operators.MaxArray
use af_stream.Operators.MaxArray.{IsValid, at, update_value}
use af_stream.Sketch.{Row, CountMin, bucket, cleared_row}
use af_stream.Sketch.Estimate.{AreCovering}
use af_stream.Window.{no_row, row_at, get_value, insert}
use af_stream.Window.Item.{AreKeys}
use af_stream.Window.Cells.{IsInRange}
use af_stream.Window.Covers.{hash_list}

AllWithin-at :
    (n : ℕ) (rs : List Row) (i j : ℕ)
    → AllWithin n rs
    → (pos 0 ≤ℤ at (get_or rs i no_row).array.array j)
      × (at (get_or rs i no_row).array.array j ≤ℤ pos n)
unfolding MaxArray.create
AllWithin-at n [] i j w = (omega arith, omega arith)
AllWithin-at n (x ∷ xs) zero j (w, ws) = w j
AllWithin-at n (x ∷ xs) (suc i) j (w, ws) = AllWithin-at n xs i j ws

between-InI64 : (n : ℕ) (v : ℤ) → n < 2 ^ 63 → pos 0 ≤ℤ v → v ≤ℤ pos n → InI64 v
between-InI64 n (pos k) h a b = omega arith
between-InI64 n (ℤ.negsuc k) h a b = absurd (omega arith)

pub AllWithin-IsInRange : (n : ℕ) (s : CountMin) → n < 2 ^ 63 → AllWithin n s.rows → IsInRange s
unfolding get_value MaxArray.get_value
AllWithin-IsInRange n s h w i j =
    let (a, b) = AllWithin-at n s.rows i j w in
    between-InI64 n (at (row_at s i).array.array j) h a b

-- `Clear` leaves zeros under the same hash functions.
pub clear-AreCovering :
    (f : ℕ → ℤ) (rs : List Row) → AreCovering f rs → AreCovering (λ _. pos 0) (map cleared_row rs)
unfolding MaxArray.clear
clear-AreCovering f [] w = tt
clear-AreCovering f (x ∷ xs) (w, ws) = (
  record {
    sound = record {
      array_len = length-replicate {0} x.array.size (pos 0);
      backup_len = length-replicate {0} x.array.size (pos 0);
      index_in = w.sound.index_in;
    };
    range = w.range;
    covers =
        λ key. rw (get_or-replicate {0} x.array.size (bucket x.hash key) (pos 0)) (omega arith);
  },
  clear-AreCovering f xs ws,
)

pub clear-AllWithin : (n : ℕ) (rs : List Row) → AllWithin n (map cleared_row rs)
unfolding MaxArray.clear
clear-AllWithin n [] = tt
clear-AllWithin n (x ∷ xs) = (
  λ j. rw (get_or-replicate {0} x.array.size j (pos 0)) (omega arith, omega arith),
  clear-AllWithin n xs,
)

pub clear-hash_list : (rs : List Row) → hash_list (map cleared_row rs) ≡ hash_list rs
clear-hash_list [] = refl
clear-hash_list (x ∷ xs) = ap (◌∷◌ x.hash) (clear-hash_list xs)

pub length-clear : (rs : List Row) → length (map cleared_row rs) ≡ length rs
length-clear [] = refl
length-clear (x ∷ xs) = ap suc (length-clear xs)

-- A candidate more.
pub length-insert : (xs : List ℕ) (x : ℕ) → length (insert xs x) ≤ length xs + 1
unfolding insert
length-insert [] x = omega arith
length-insert (y ∷ ys) x = ground (arith, length-insert ys x)

pub insert-AreKeys : (xs : List ℕ) (x : ℕ) → AreKeys xs → x < 2 ^ 64 → AreKeys (insert xs x)
unfolding insert
insert-AreKeys [] x w h = (h, tt)
insert-AreKeys (y ∷ ys) x (w, ws) h = elim (Bool-cases (x == y)) [
  | inl e ↦ rw e (w, ws)
  | inr e ↦ elim (Bool-cases (ltb x y)) [
    | inl f ↦ rw (e, f) (h, (w, ws))
    | inr f ↦ rw (e, f) (w, insert-AreKeys ys x ws h)
  ]
]
