-- ===== src/Window.antt =====
-- apps/count_min: the item in which a compute thread sends the counters of a window downstream
-- (cm_item.hpp, `CMItem`), the thread that fills it (cm_thread.hpp) and the one that adds it to its
-- own sketch (merge_thread.hpp).
pub mod Item
pub mod RoundTrip
pub mod Cells
pub mod Merge
pub mod Added
pub mod Covers
pub mod Filling
pub mod Stream
pub mod Conserving
pub mod Conserved
pub mod Overflow
use af_stream.Prelude.{
  ℕ, zero, suc, ◌+◌, ◌-◌, ◌*◌, ◌/◌, ◌%◌, ◌^◌, Option, none, some, Bool, true, false, ◌&&◌, List, [],
  ◌∷◌, ◌++◌, ◌==◌, leb, ltb, if◌then◌else◌, ◌>>=◌, get_or, set, length,
}
use af_stream.Prelude.Int.{ℤ, pos, negsuc, ◌+ℤ◌, ltb_ℤ}
use af_stream.Memory.Copy.{write_at, read_at}
use af_stream.Memory.Integers.{le_bytes, of_bytes, i64_bytes, i64_of_bytes}
use af_stream.Operators.MaxArray
use af_stream.Operators.MaxArray.{update_value}
use af_stream.Operators.Hash
use af_stream.Sketch
use af_stream.Sketch.{Row, CountMin, update_sketch, get_estimate, clear}

-- `start` is an offset into `raw`.
pub record CmItem : Type 0 where
  pub num_counter : ℕ
  pub num_hh : ℕ
  pub raw : List ℕ
  pub start : ℕ

abbrev pub sk_size : ℕ
sk_size = 8000

abbrev pub max_hh : ℕ
max_hh = 100

-- sizeof raw
abbrev pub raw_size : ℕ
raw_size = sk_size * (4 + 8) + max_hh * 8

-- The constructor; `raw` is what is in memory, `raw_size` bytes in the program.
unfoldable pub new_item : List ℕ → CmItem
new_item raw = record { num_counter = 0; num_hh = 0; raw = raw; start = 0 }

-- `none` where the bytes do not fit: the source writes over the pointer behind `raw`.
unfoldable pub append_counter : CmItem → ℕ → ℤ → Option CmItem
append_counter it index value =
    if leb (it.start + 12) (length it.raw)
    then some (record it {
      num_counter = (it.num_counter + 1) % 2 ^ 32;
      raw = write_at (write_at it.raw it.start (le_bytes 4 index)) (it.start + 4) (i64_bytes value);
      start = it.start + 12;
    })
    else none

unfoldable pub append_hh : CmItem → ℕ → Option CmItem
append_hh it key =
    if leb (it.start + 8) (length it.raw)
    then some (record it {
      num_hh = (it.num_hh + 1) % 2 ^ 32;
      raw = write_at it.raw it.start (le_bytes 8 key);
      start = it.start + 8;
    })
    else none

unfoldable pub get_counter : CmItem → ℕ → ℕ × ℤ
get_counter it n =
    (of_bytes (read_at it.raw (n * 12) 4), i64_of_bytes (read_at it.raw (n * 12 + 4) 8))

unfoldable pub get_key : CmItem → ℕ → ℕ
get_key it n = of_bytes (read_at it.raw (it.num_counter * 12 + n * 8) 8)

unfoldable pub size : CmItem → ℕ
size it = (4 + 4 + it.num_counter * 12 + it.num_hh * 8) % 2 ^ 32

-- cm_sketch.hpp, `GetValue` and `SetValue`; a row that is not there is out of the source's range.
abbrev pub no_row : Row
no_row = record { array = MaxArray.create 0 (pos 0); hash = Hash.create 0 0 }

abbrev pub row_at : CountMin → ℕ → Row
row_at s i = get_or s.rows i no_row

unfoldable pub get_value : CountMin → ℕ → ℕ → ℤ
get_value s i j = MaxArray.get_value (row_at s i).array j

unfoldable pub set_value : CountMin → ℕ → ℕ → ℤ → CountMin
set_value s i j v = record s {
  rows = set s.rows i (record (row_at s i) { array = update_value (row_at s i).array j v });
}

-- The loops of `TerminateWindow`, with the number of rounds that are left; w is the thread's width.
abbrev pub append_cell : CmItem → ℕ → ℤ → Option CmItem
append_cell it index v = if ltb_ℤ (pos 0) v then append_counter it index v else some it

unfoldable pub append_row : CountMin → ℕ → ℕ → ℕ → ℕ → CmItem → Option CmItem
append_row s w i j zero it = some it
append_row s w i j (suc left) it =
    append_cell it (i * w + j) (get_value s i j) >>= append_row s w i (j + 1) left

unfoldable pub append_rows : CountMin → ℕ → ℕ → ℕ → CmItem → Option CmItem
append_rows s w i zero it = some it
append_rows s w i (suc left) it = append_row s w i 0 w it >>= append_rows s w (i + 1) left

unfoldable pub append_keys : List ℕ → CmItem → Option CmItem
append_keys [] it = some it
append_keys (k ∷ ks) it = append_hh it k >>= append_keys ks

unfoldable pub window_item : CountMin → ℕ → ℕ → List ℕ → List ℕ → Option CmItem
window_item s r w cand raw = append_rows s w 0 r (new_item raw) >>= append_keys cand

-- A `std::set`, in ascending order.
abbrev pub contains : List ℕ → ℕ → Bool
contains [] x = false
contains (y ∷ ys) x = if x == y then true else contains ys x

unfoldable pub insert : List ℕ → ℕ → List ℕ
insert [] x = x ∷ []
insert (y ∷ ys) x =
    let rest = insert ys x in if x == y then y ∷ ys else if ltb x y then x ∷ y ∷ ys else y ∷ rest

-- a `long long` as an unsigned one
abbrev pub to_u64 : ℤ → ℕ
to_u64 (pos n) = n % 2 ^ 64
to_u64 (negsuc n) = 2 ^ 64 - 1 - n % 2 ^ 64

-- `ComputeThreadThread` with the items that it emits
pub record CmThread : Type 0 where
  pub cm_sketch : CountMin
  pub window : ℕ
  pub byte : ℕ
  pub cand : List ℕ
  pub thresh : ℕ
  pub r : ℕ
  pub w : ℕ
  pub emitted : List CmItem

unfoldable pub terminate_window : List ℕ → CmThread → Option CmThread
terminate_window raw t = window_item t.cm_sketch t.r t.w t.cand raw >>= λ it. some (record t {
  emitted = t.emitted ++ (it ∷ []);
  byte = 0;
  cm_sketch = clear t.cm_sketch;
  cand = [];
})

-- `ProcessData`, given the two numbers in the line
unfoldable pub process_data : List ℕ → CmThread → ℕ → ℤ → Option CmThread
process_data raw t key value =
    let (s', sum) = update_sketch t.cm_sketch key value in
    let t' = record t {
      cm_sketch = s';
      cand =
          if ltb t.thresh (to_u64 sum) && (if contains t.cand key then false else true)
          then insert t.cand key
          else t.cand;
      byte = (t.byte + to_u64 value) % 2 ^ 64;
    } in
    let ended = terminate_window raw t' in if ltb t.window t'.byte then ended else some t'

-- `MergeThread` with the lines that it prints
pub record MergeThread : Type 0 where
  pub cm_sketch : CountMin
  pub cand : List ℕ
  pub thresh : ℕ
  pub w : ℕ
  pub output : List (ℕ × ℕ)

unfoldable pub merge_counter : CountMin → ℕ → ℕ × ℤ → CountMin
merge_counter s w (index, v) =
    set_value s (index / w) (index % w) (get_value s (index / w) (index % w) +ℤ v)

-- the loops of `ProcessData`, from round i with the number of rounds that are left
unfoldable pub merge_counters : CmItem → ℕ → ℕ → ℕ → CountMin → CountMin
merge_counters it w i zero s = s
merge_counters it w i (suc left) s =
    merge_counters it w (i + 1) left (merge_counter s w (get_counter it i))

unfoldable pub report_key : MergeThread → ℕ → MergeThread
report_key t key =
    let e = to_u64 (get_estimate t.cm_sketch key) in
    if ltb t.thresh e && (if contains t.cand key then false else true)
    then record t { output = t.output ++ ((key, e) ∷ []); cand = insert t.cand key }
    else t

unfoldable pub report_keys : CmItem → ℕ → ℕ → MergeThread → MergeThread
report_keys it i zero t = t
report_keys it i (suc left) t = report_keys it (i + 1) left (report_key t (get_key it i))

unfoldable pub process_item : MergeThread → CmItem → MergeThread
process_item t it =
    report_keys it 0 it.num_hh
      (record t { cm_sketch = merge_counters it t.w 0 it.num_counter t.cm_sketch })
