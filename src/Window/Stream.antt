-- ===== src/Window/Stream.antt =====
-- A compute thread of the program and the merging thread behind it, over a stream of tuples.
use af_stream.Prelude.{
  ℕ, ◌+◌, ◌*◌, ◌^◌, ◌≤◌, ◌<◌, ◌≡◌, refl, sym, ap₂, ◌∙◌, subst, Bool, true, false, ◌&&◌, Option,
  some, List, [], ◌∷◌, ◌++◌, if◌then◌else◌, ◌>>=◌, ltb, length, arith,
}
use af_stream.Prelude.Int.{ℤ, pos, pos_part, ◌+ℤ◌, ◌≤ℤ◌}
use af_stream.Operators.Hash.{Hash}
use af_stream.Sketch.{CountMin, update_sketch, update_rows, clear}
use af_stream.Sketch.Estimate.{
  AreCovering, Arrival, added, update_rows-AreCovering, length-update_rows,
}
use af_stream.Window.{
  CmItem, CmThread, MergeThread, window_item, process_data, process_item, merge_counters, contains,
  insert, to_u64,
}
use af_stream.Window.Item.{AreKeys}
use af_stream.Window.Merge.{IsShaped, all_cells-IsShaped}
use af_stream.Window.Added.{window_item-merge_all, report_keys_width}
use af_stream.Window.Covers.{hash_list, merged_AreCovering, update_rows-hash_list}
use af_stream.Window.Filling.{
  AllWithin-IsInRange, clear-AreCovering, clear-AllWithin, clear-hash_list, length-clear,
  length-insert, insert-AreKeys,
}
use af_stream.Sketch.Range.{AllWithin, update_rows-AllWithin}

-- the tuples of a stream, and the items that arrive from it
abbrev pub process_all : List ℕ → CmThread → List Arrival → Option CmThread
process_all raw t [] = some t
process_all raw t (u ∷ us) = process_data raw t u.key u.value >>= λ t'. process_all raw t' us

abbrev pub merge_items : MergeThread → List CmItem → MergeThread
merge_items m [] = m
merge_items m (it ∷ its) = merge_items (process_item m it) its

pub merge_items-append :
    (m : MergeThread) (its : List CmItem) (it : CmItem)
    → merge_items m (its ++ (it ∷ [])) ≡ process_item (merge_items m its) it
merge_items-append m [] it = refl
merge_items-append m (x ∷ xs) it = merge_items-append (process_item m x) xs it

-- The sender's sketch covers what is pending, with counters up to n and c candidates at most,
pub record IsFilling (r w : ℕ) (hs : List Hash) (pending : ℕ → ℤ) (n c : ℕ) (t : CmThread)
    : Type 0 where
  pub rows : t.r ≡ r
  pub width : t.w ≡ w
  pub rows_len : length t.cm_sketch.rows ≡ r
  pub hashes : hash_list t.cm_sketch.rows ≡ hs
  pub covers : AreCovering pending t.cm_sketch.rows
  pub within : AllWithin n t.cm_sketch.rows
  pub keys : AreKeys t.cand
  pub few : length t.cand ≤ c

-- and the receiver's what was sent.
pub record IsMerging (r w : ℕ) (hs : List Hash) (sent : ℕ → ℤ) (m : MergeThread) : Type 0 where
  pub width : m.w ≡ w
  pub shaped : IsShaped r w hs m.cm_sketch
  pub covers : AreCovering sent m.cm_sketch.rows

-- The item has room for every counter and c keys.
pub record FitsItem (r w c : ℕ) (raw : List ℕ) : Type 0 where
  pub few_cells : r * w ≤ 2 ^ 32
  pub room : 12 * (r * w) + 8 * c ≤ length raw
  pub short : length raw < 2 ^ 32

module _ {r w : ℕ} {hs : List Hash} where
  pub process_item-IsMerging :
      (raw : List ℕ) (pending sent : ℕ → ℤ) (n c : ℕ) (t : CmThread) (m : MergeThread)
      → IsFilling r w hs pending n c t
      → IsMerging r w hs sent m
      → n < 2 ^ 63
      → FitsItem r w c raw
      → (it : CmItem) × (window_item t.cm_sketch t.r t.w t.cand raw ≡ some it)
        × IsMerging r w hs (λ key. pending key +ℤ sent key) (process_item m it)
  unfolding process_item
  process_item-IsMerging raw pending sent n c t m f g h k =
      let (it, built, merged) =
        window_item-merge_all t.cm_sketch r w t.cand raw m
          (record {
            in_range = AllWithin-IsInRange n t.cm_sketch h f.within;
            few_cells = k.few_cells;
            room = omega (arith, k.room, f.few);
            short = k.short;
            keys = f.keys;
          })
          g.width in
      (
        it,
        ap₂ (λ a b. window_item t.cm_sketch a b t.cand raw) f.rows f.width ∙ built,
        record {
          width =
              report_keys_width it 0 it.num_hh
                (record m { cm_sketch = merge_counters it m.w 0 it.num_counter m.cm_sketch })
              ∙ g.width;
          shaped =
              subst (IsShaped r w hs) (sym merged)
                (all_cells-IsShaped t.cm_sketch m.cm_sketch 0 r g.shaped (omega arith));
          covers =
              subst (λ (x : CountMin). AreCovering (λ key. pending key +ℤ sent key) x.rows)
                (sym merged)
                (merged_AreCovering t.cm_sketch m.cm_sketch r w hs pending sent g.shaped f.hashes
                  f.rows_len f.covers g.covers);
        },
      )

  pub cleared-IsFilling :
      (pending : ℕ → ℤ) (n c : ℕ) (t : CmThread) (its : List CmItem)
      → IsFilling r w hs pending n c t
      → IsFilling r w hs
          (λ _. pos 0)
          n
          c
          (record t { emitted = its; byte = 0; cm_sketch = clear t.cm_sketch; cand = [] })
  unfolding clear
  cleared-IsFilling pending n c t its f = record {
    rows = f.rows;
    width = f.width;
    rows_len = length-clear t.cm_sketch.rows ∙ f.rows_len;
    hashes = clear-hash_list t.cm_sketch.rows ∙ f.hashes;
    covers = clear-AreCovering pending t.cm_sketch.rows f.covers;
    within = clear-AllWithin n t.cm_sketch.rows;
    keys = tt;
    few = omega arith;
  }

  pub updated-IsFilling :
      (pending : ℕ → ℤ) (n c key b : ℕ) (v : ℤ) (t : CmThread)
      → IsFilling r w hs pending n c t
      → pos 0 ≤ℤ v
      → key < 2 ^ 64
      → IsFilling r w hs (added pending key v) (n + pos_part v) (c + 1) (record t {
        cm_sketch = (update_sketch t.cm_sketch key v).0;
        cand =
            if ltb t.thresh (to_u64 (update_sketch t.cm_sketch key v).1)
              && (if contains t.cand key then false else true)
            then insert t.cand key
            else t.cand;
        byte = b;
      })
  unfolding update_sketch
  updated-IsFilling pending n c key b v t f h k = record {
    rows = f.rows;
    width = f.width;
    rows_len = length-update_rows key v t.cm_sketch.rows true (pos 0) ∙ f.rows_len;
    hashes = update_rows-hash_list key v t.cm_sketch.rows true (pos 0) ∙ f.hashes;
    covers = update_rows-AreCovering pending key v t.cm_sketch.rows true (pos 0) h f.covers;
    within = update_rows-AllWithin n key v t.cm_sketch.rows true (pos 0) h f.within;
    keys = chosen-AreKeys (
        ltb t.thresh (to_u64 (update_rows key v t.cm_sketch.rows true (pos 0)).1)
        && (if contains t.cand key then false else true));
    few = chosen_few (
        ltb t.thresh (to_u64 (update_rows key v t.cm_sketch.rows true (pos 0)).1)
        && (if contains t.cand key then false else true));
  }
    where
      chosen-AreKeys : (x : Bool) → AreKeys (if x then insert t.cand key else t.cand)
      chosen-AreKeys true = insert-AreKeys t.cand key f.keys k
      chosen-AreKeys false = f.keys

      chosen_few : (x : Bool) → length (if x then insert t.cand key else t.cand) ≤ c + 1
      chosen_few true = omega (arith, length-insert t.cand key, f.few)
      chosen_few false = omega (arith, f.few)
