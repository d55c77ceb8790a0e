-- ===== src/Window/Conserving.antt =====
-- What is counted while a stream is processed and the items that are sent are merged.
use af_stream.Sketch.Estimate.{volume}
use af_stream.Prelude.{
  ℕ, suc, ◌+◌, ◌%◌, ◌^◌, ◌<◌, ◌≡◌, refl, sym, ◌∙◌, subst, inl, inr, true, false, ◌&&◌, some, List,
  [], ◌∷◌, ◌++◌, if◌then◌else◌, bind_some, ◌==◌, ltb, length, Bool-cases, arith,
}
use af_stream.Prelude.Int.{ℤ, pos, pos_part, ◌+ℤ◌, ◌≤ℤ◌, int_laws}
use af_stream.Operators.Hash.{Hash}
use af_stream.Sketch.{update_sketch, clear}
use af_stream.Sketch.Estimate.{Arrival, added, total_from}
use af_stream.Window.{
  CmThread, MergeThread, terminate_window, process_data, contains, insert, to_u64,
}
use af_stream.Window.Stream.{
  process_all, merge_items, merge_items-append, IsFilling, IsMerging, FitsItem,
  process_item-IsMerging, cleared-IsFilling, updated-IsFilling,
}

-- Values are not negative, and keys are in the range of their type.
abbrev pub AreTuples : List Arrival → Type 0
AreTuples [] = Unit {0}
AreTuples (u ∷ us) = (pos 0 ≤ℤ u.value) × (u.key < 2 ^ 64) × AreTuples us

-- The two sketches together cover f.
pub record IsConserved (r w : ℕ) (hs : List Hash) (m : MergeThread) (f : ℕ → ℤ) (n c : ℕ)
    (t : CmThread) : Type 0 where
  pub pending : ℕ → ℤ
  pub sent : ℕ → ℤ
  pub whole : (key : ℕ) → sent key +ℤ pending key ≡ f key
  pub filling : IsFilling r w hs pending n c t
  pub merging : IsMerging r w hs sent (merge_items m t.emitted)

no_more : (a b : ℤ) → a +ℤ b +ℤ pos 0 ≡ b +ℤ a
no_more a b = omega int_laws

added_sum :
    (f g h : ℕ → ℤ) (key : ℕ) (v : ℤ) (k : ℕ)
    → ((k : ℕ) → f k +ℤ g k ≡ h k)
    → f k +ℤ added g key v k ≡ added h key v k
added_sum f g h key v k e = elim (Bool-cases (key == k)) [
  | inl q ↦ rw (q, ← e k) (omega int_laws)
  | inr q ↦ rw q (e k)
]

module _ {r w : ℕ} {hs : List Hash} (raw : List ℕ) (m : MergeThread) where
  ended :
      (f : ℕ → ℤ) (n c : ℕ) (t : CmThread)
      → IsConserved r w hs m f n c t
      → n < 2 ^ 63
      → FitsItem r w c raw
      → (t' : CmThread) × (terminate_window raw t ≡ some t') × IsConserved r w hs m f n c t'
  unfolding terminate_window
  ended f n c t v h k =
      let (it, built, merged) =
        process_item-IsMerging raw v.pending v.sent n c t (merge_items m t.emitted) v.filling
          v.merging h k in
      (
        record t {
          emitted = t.emitted ++ (it ∷ []);
          byte = 0;
          cm_sketch = clear t.cm_sketch;
          cand = [];
        },
        rw built refl,
        record {
          pending = λ _. pos 0;
          sent = λ key. v.pending key +ℤ v.sent key;
          whole = λ key. no_more (v.pending key) (v.sent key) ∙ v.whole key;
          filling = cleared-IsFilling v.pending n c t (t.emitted ++ (it ∷ [])) v.filling;
          merging =
              subst (IsMerging r w hs (λ key. v.pending key +ℤ v.sent key))
                (sym (merge_items-append m t.emitted it)) merged;
        },
      )

  process_data-IsConserved :
      (f : ℕ → ℤ) (n c key : ℕ) (x : ℤ) (t : CmThread)
      → IsConserved r w hs m f n c t
      → pos 0 ≤ℤ x
      → key < 2 ^ 64
      → n + pos_part x < 2 ^ 63
      → FitsItem r w (c + 1) raw
      → (t' : CmThread) × (process_data raw t key x ≡ some t')
        × IsConserved r w hs m (added f key x) (n + pos_part x) (c + 1) t'
  unfolding process_data
  process_data-IsConserved f n c key x t v h k b fits =
      elim (Bool-cases (ltb t.window ((t.byte + to_u64 x) % 2 ^ 64))) [
        | inl e ↦
            let (t'', built, v'') = ended (added f key x) (n + pos_part x) (c + 1) t' v' b fits in
            (t'', rw e built, v'')
        | inr e ↦ (t', rw e refl, v')
      ]
    where
      t' : CmThread
      t' = record t {
        cm_sketch = (update_sketch t.cm_sketch key x).0;
        cand =
            if ltb t.thresh (to_u64 (update_sketch t.cm_sketch key x).1)
              && (if contains t.cand key then false else true)
            then insert t.cand key
            else t.cand;
        byte = (t.byte + to_u64 x) % 2 ^ 64;
      }

      v' : IsConserved r w hs m (added f key x) (n + pos_part x) (c + 1) t'
      v' = record {
        pending = added v.pending key x;
        sent = v.sent;
        whole = λ q. added_sum v.sent v.pending f key x q v.whole;
        filling =
            updated-IsFilling v.pending n c key ((t.byte + to_u64 x) % 2 ^ 64) x t v.filling h k;
        merging = v.merging;
      }

  counted_as :
      (f : ℕ → ℤ) (n n' c c' : ℕ) (t : CmThread)
      → n ≡ n'
      → c ≡ c'
      → IsConserved r w hs m f n c t
      → IsConserved r w hs m f n' c' t
  counted_as f n n' c c' t e g v =
      subst (λ q. IsConserved r w hs m f n' q t) g (subst (λ q. IsConserved r w hs m f q c t) e v)

  pub process_all-IsConserved :
      (us : List Arrival) (f : ℕ → ℤ) (n c : ℕ) (t : CmThread)
      → IsConserved r w hs m f n c t
      → AreTuples us
      → n + volume us < 2 ^ 63
      → FitsItem r w (c + length us) raw
      → (t' : CmThread) × (process_all raw t us ≡ some t')
        × IsConserved r w hs m (total_from f us) (n + volume us) (c + length us) t'
  process_all-IsConserved [] f n c t v a b fits =
      (t, refl, counted_as f n (n + 0) c (c + 0) t (omega arith) (omega arith) v)
  process_all-IsConserved (u ∷ us) f n c t v (a, k, as_) b fits =
      let (t', built, v') =
        process_data-IsConserved f n c u.key u.value t v a k (omega (arith, b)) (record {
          few_cells = fits.few_cells;
          room = omega (arith, fits.room);
          short = fits.short;
        }) in
      let (t'', built', v'') =
        process_all-IsConserved us (added f u.key u.value) (n + pos_part u.value) (c + 1) t' v' as_
          (omega (arith, b))
          (record {
            few_cells = fits.few_cells;
            room = omega (arith, fits.room);
            short = fits.short;
          }) in
      (
        t'',
        bind_some (λ s. process_all raw s us) built built',
        counted_as (total_from f (u ∷ us)) (n + pos_part u.value + volume us)
            (n + (pos_part u.value + volume us)) (c + 1 + length us) (c + suc (length us)) t''
            (omega arith) (omega arith) v'',
      )
