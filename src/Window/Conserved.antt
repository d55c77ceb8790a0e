-- ===== src/Window/Conserved.antt =====
-- Nothing of a stream is lost between a compute thread and the merging thread.
use af_stream.Sketch.Estimate.{volume}
use af_stream.Prelude.{
  ℕ, zero, suc, ◌+◌, ◌%◌, ◌^◌, ◌<◌, ◌≡◌, refl, ◌∙◌, subst, true, some, List, [], length, get_or,
  arith,
}
use af_stream.Prelude.Int.{ℤ, pos, ◌+ℤ◌, ◌≤ℤ◌, int_laws, +ℤ_mono}
use af_stream.Operators.MaxArray
use af_stream.Operators.MaxArray.{IsValid}
use af_stream.Operators.MaxArray.Tracking.{create-IsValid}
use af_stream.Sketch.{create, create_rows, get_estimate, estimate_rows}
use af_stream.Sketch.Estimate.{
  Arrival, total_from-total, total, estimate_bound, create_rows-AreCovering, length-create_rows,
}
use af_stream.Window.{CmThread, MergeThread, no_row}
use af_stream.Window.Merge.{IsShaped}
use af_stream.Window.Covers.{hash_list}
use af_stream.Sketch.Range.{create_rows-AllWithin}
use af_stream.Window.Stream.{process_all, merge_items, FitsItem}
use af_stream.Window.Conserving.{AreTuples, IsConserved, process_all-IsConserved}

pub created-IsShaped :
    (r w seed : ℕ) (d : ℤ)
    → 0 < w
    → IsShaped r w (hash_list (create_rows r w d seed)) (create r w d seed)
unfolding create create_rows MaxArray.create
created-IsShaped r w seed d h = record {
  rows_len = length-create_rows r w seed d;
  hashes = refl;
  sound = λ i g. sound_rows r seed i g;
}
  where
    sound_rows :
        (r seed i : ℕ)
        → i < r
        → IsValid (get_or (create_rows r w d seed) i no_row).array
          × ((get_or (create_rows r w d seed) i no_row).array.size ≡ w)
    sound_rows zero seed i g = absurd (omega arith)
    sound_rows (suc q) seed zero g = (create-IsValid w d h, refl)
    sound_rows (suc q) seed (suc i) g = sound_rows q ((seed + 1) % 2 ^ 32) i (omega arith)

-- the two threads as they start, each with a sketch of r rows of w counters
abbrev pub new_sender : ℕ → ℕ → ℕ → ℤ → ℕ → ℕ → CmThread
new_sender r w seed d window thresh = record {
  cm_sketch = create r w d seed;
  window = window;
  byte = 0;
  cand = [];
  thresh = thresh;
  r = r;
  w = w;
  emitted = [];
}

abbrev pub new_receiver : ℕ → ℕ → ℕ → ℤ → ℕ → MergeThread
new_receiver r w seed d thresh = record {
  cm_sketch = create r w d seed;
  cand = [];
  thresh = thresh;
  w = w;
  output = [];
}

start-IsConserved :
    (r w seed : ℕ) (d : ℤ) (window thresh thresh' : ℕ)
    → 0 < w
    → IsConserved r w
        (hash_list (create_rows r w d seed))
        (new_receiver r w seed d thresh')
        (λ _. pos 0)
        0
        0
        (new_sender r w seed d window thresh)
unfolding create
start-IsConserved r w seed d window thresh thresh' h = record {
  pending = λ _. pos 0;
  sent = λ _. pos 0;
  whole = λ key. omega int_laws;
  filling = record {
    rows = refl;
    width = refl;
    rows_len = length-create_rows r w seed d;
    hashes = refl;
    covers = create_rows-AreCovering r w seed d h;
    within = create_rows-AllWithin 0 r w seed d;
    keys = tt;
    few = omega arith;
  };
  merging = record {
    width = refl;
    shaped = created-IsShaped r w seed d h;
    covers = create_rows-AreCovering r w seed d h;
  };
}

-- A compute thread and a merging thread whose sketches have the same hash functions, an item with
-- room for all counters and a key for each tuple, and a stream of values that are not negative with
-- a volume below 2 ^ 63: the stream is processed without failure, and once the items sent have been
-- merged, no key has less in the two estimates together than its total in the stream.
pub nothing_lost :
    (r w seed : ℕ) (d : ℤ) (window thresh thresh' : ℕ) (raw : List ℕ) (us : List Arrival) (key : ℕ)
    → 0 < r
    → 0 < w
    → AreTuples us
    → volume us < 2 ^ 63
    → FitsItem r w (length us) raw
    → (t : CmThread) × (process_all raw (new_sender r w seed d window thresh) us ≡ some t)
      × (total us key (pos 0)
          ≤ℤ get_estimate (merge_items (new_receiver r w seed d thresh') t.emitted).cm_sketch key
            +ℤ get_estimate t.cm_sketch key)
unfolding get_estimate
nothing_lost r w seed d window thresh thresh' raw us key hr hw a b fits =
    let (t, built, v) =
      process_all-IsConserved raw (new_receiver r w seed d thresh') us (λ _. pos 0) 0 0
        (new_sender r w seed d window thresh)
        (start-IsConserved r w seed d window thresh thresh' hw) a (omega (arith, b))
        (record {
          few_cells = fits.few_cells;
          room = omega (arith, fits.room);
          short = fits.short;
        }) in
    let m = merge_items (new_receiver r w seed d thresh') t.emitted in
    let low_sent =
      estimate_bound v.sent key m.cm_sketch.rows (omega (arith, hr, v.merging.shaped.rows_len))
        v.merging.covers in
    let low_pending =
      estimate_bound v.pending key t.cm_sketch.rows (omega (arith, hr, v.filling.rows_len))
        v.filling.covers in
    (
      t,
      built,
      subst
          (λ x.
            x
            ≤ℤ estimate_rows key m.cm_sketch.rows true (pos 0)
              +ℤ estimate_rows key t.cm_sketch.rows true (pos 0))
          (v.whole key ∙ total_from-total us (λ _. pos 0) key)
          (+ℤ_mono (v.sent key) (estimate_rows key m.cm_sketch.rows true (pos 0)) (v.pending key)
            (estimate_rows key t.cm_sketch.rows true (pos 0)) low_sent low_pending),
    )
