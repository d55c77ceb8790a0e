-- ===== src/Fault/Server/Recovery.antt =====
-- What a worker gets back: its contents' slots, one content after another, as many as the count
-- that it is told first.
use af_stream.Prelude.{
  ℕ, ◌+◌, ◌%◌, ◌^◌, ◌≤◌, ◌<◌, ◌≡◌, refl, sym, ap, ◌∙◌, inl, List, [], ◌∷◌, ◌++◌, length, arith,
}
use native.Mathlib.Nat.{zero-add}
use af_stream.Fault.Item.{BackupItem, max_backup_item_data_len}
use af_stream.Fault.Content.{BackupContent, slot, get_count, append_recovery_item, append_from}
use af_stream.Fault.Content.Slots.{IsSized}
use af_stream.Fault.Content.Stored.{carried}
use af_stream.Fault.Content.Append.{
  length-append_from, append_from-IsSized, append_from_outside, append_from_inside,
}
use af_stream.Fault.RecoveryItem.{
  allocate, block_room, max_count, block_room_lem, indeterminate, length-indeterminate,
  indeterminate-IsSized,
}
use af_stream.Fault.Server.{
  Server, content_at, content_in, total, tot_count, append_all, recovery_item,
}

-- how many items the contents hold together
abbrev pub used : List BackupContent → List ℕ → ℕ
used cs [] = 0
used cs (i ∷ is) = (content_in cs i).used_slots + used cs is

-- The used cslots are in the array, and their data is of a length that fits.
pub record IsFilled (c : BackupContent) : Type 0 where
  pub room : c.used_slots ≤ length c.slots
  pub fits :
      (j : ℕ) → j < c.used_slots → (slot c.slots j).payload.meta.len ≤ max_backup_item_data_len

module _ (cs : List BackupContent) where
  pub total_used :
      (is : List ℕ) (sum : ℕ) → sum + used cs is < 2 ^ 32 → total cs is sum ≡ sum + used cs is
  unfolding get_count
  total_used [] sum h = omega arith
  total_used (i ∷ is) sum h =
      total_used is ((sum + (content_in cs i).used_slots) % 2 ^ 32) (omega arith) ∙ omega arith

  pub length-append_all :
      (is : List ℕ) (ret : List BackupItem) (cur : ℕ)
      → length (append_all cs is ret cur) ≡ length ret
  unfolding append_all append_recovery_item get_count
  length-append_all [] ret cur = refl
  length-append_all (i ∷ is) ret cur =
      length-append_all is
        (append_from ret cur (content_in cs i).used_slots (content_in cs i).slots)
        ((cur + (content_in cs i).used_slots) % 2 ^ 32)
      ∙ length-append_from ret cur (content_in cs i).used_slots (content_in cs i).slots

  -- What is before the current position stays.
  append_all_before :
      (is : List ℕ) (ret : List BackupItem) (cur j : ℕ)
      → cur + used cs is < 2 ^ 32
      → j < cur
      → slot (append_all cs is ret cur) j ≡ slot ret j
  unfolding append_all append_recovery_item get_count
  append_all_before [] ret cur j h lt = refl
  append_all_before (i ∷ is) ret cur j h lt =
      append_all_before is
        (append_from ret cur (content_in cs i).used_slots (content_in cs i).slots)
        ((cur + (content_in cs i).used_slots) % 2 ^ 32) j (omega arith) (omega arith)
      ∙ append_from_outside ret cur (content_in cs i).used_slots (content_in cs i).slots j (inl lt)

  module _ (filled : (i : ℕ) → IsFilled (content_in cs i)) where
    append_all_at :
        (pre : List ℕ) (i : ℕ) (post : List ℕ) (ret : List BackupItem) (cur j : ℕ)
        → cur + used cs (pre ++ (i ∷ post)) ≤ length ret
        → cur + used cs (pre ++ (i ∷ post)) < 2 ^ 32
        → ((k : ℕ) → IsSized (slot ret k))
        → j < (content_in cs i).used_slots
        → carried (slot (append_all cs (pre ++ (i ∷ post)) ret cur) (cur + used cs pre + j))
          ≡ carried (slot (content_in cs i).slots j)
    unfolding append_all append_recovery_item get_count
    append_all_at [] i post ret cur j room h sized lt =
        let c = content_in cs i in
        let here : cur + 0 + j ≡ cur + j = omega arith in
        let fresh = append_from ret cur c.used_slots c.slots in
        ap (λ k. carried (slot (append_all cs post fresh ((cur + c.used_slots) % 2 ^ 32)) k)) here
        ∙ ap carried (
            append_all_before post fresh ((cur + c.used_slots) % 2 ^ 32) (cur + j) (omega arith)
              (omega arith))
        ∙ append_from_inside ret cur c.used_slots c.slots j (omega arith) (filled i).room sized
            (filled i).fits lt
    append_all_at (p ∷ pre) i post ret cur j room h sized lt =
        let c = content_in cs p in
        let fresh = append_from ret cur c.used_slots c.slots in
        let next = (cur + c.used_slots) % 2 ^ 32 in
        let place : cur + (c.used_slots + used cs pre) + j ≡ next + used cs pre + j = omega arith in
        ap (λ k. carried (slot (append_all cs (pre ++ (i ∷ post)) fresh next) k)) place
        ∙ append_all_at pre i post fresh next j
            (omega (arith, length-append_from ret cur c.used_slots c.slots)) (omega arith)
            (append_from-IsSized ret cur c.used_slots c.slots (omega arith) sized) lt

module _ (fill : ℕ → BackupItem) (fill-IsSized : (i : ℕ) → IsSized (fill i)) (s : Server)
    (filled : (i : ℕ) → IsFilled (content_at s i)) where
  -- For a worker whose contents hold no more than 14913080 items together, as many as a block of fewer
  -- than 2 ^ 32 bytes has room for, the recovery data has as many
  -- items as the count that the server tells the worker, which is that number; and the items are the
  -- used slots of each of its contents, one content after another in the order of registration.
  pub recovery_item_lem :
      (w : ℕ) (pre : List ℕ) (i : ℕ) (post : List ℕ) (j : ℕ)
      → s.worker_ops (w % 2 ^ 16) ≡ pre ++ (i ∷ post)
      → used s.contents (pre ++ (i ∷ post)) ≤ max_count
      → j < (content_at s i).used_slots
      → ((recovery_item fill s w).count ≡ tot_count s w)
        × (length (recovery_item fill s w).slots ≡ tot_count s w)
        × (tot_count s w ≡ used s.contents (pre ++ (i ∷ post)))
        × (carried (slot (recovery_item fill s w).slots (used s.contents pre + j))
            ≡ carried (slot (content_at s i).slots j))
  unfolding recovery_item tot_count allocate
  recovery_item_lem w pre i post j e h lt =
      let is = pre ++ (i ∷ post) in
      let n = used s.contents is in
      let counted : total s.contents is 0 ≡ n =
        total_used s.contents is 0 (omega (arith, h)) ∙ zero-add n in
      let whole : block_room n ≡ n = block_room_lem n h in
      let ret = indeterminate fill 0 n in
      rw (e, counted, whole)
        (
          refl,
          length-append_all s.contents is ret 0 ∙ length-indeterminate fill 0 n,
          refl,
          ap (λ k. carried (slot (append_all s.contents is ret 0) (k + j)))
                (sym (zero-add (used s.contents pre)))
              ∙ append_all_at s.contents filled pre i post ret 0 j
                  (omega (arith, length-indeterminate fill 0 n)) (omega arith)
                  (indeterminate-IsSized fill fill-IsSized 0 n) lt,
        )
