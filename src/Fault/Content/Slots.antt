-- ===== src/Fault/Content/Slots.antt =====
-- The slots of a `BackupContent`: its invariant, and what a save does to it.
use af_stream.Prelude.{
  ℕ, zero, suc, ◌≤◌, ◌<◌, ◌≡◌, refl, ap, ◌∙◌, ◌≢◌, some, List, [], ◌∷◌, length, arith,
}
use af_stream.Memory.Copy.{read_at, length-write_at}
use af_stream.Fault.Item.{BackupItem, max_backup_item_data_len}
use af_stream.Fault.Content.{BackupContent, blank, slot, find, copy_backup_item, create, resize}

abbrev pub key_of : BackupItem → ℕ
key_of item = item.payload.meta.key

-- A buffer of MAX_BACKUP_ITEM_DATA_LEN bytes, as every `BackupItem` has.
abbrev pub IsSized : BackupItem → Type 0
IsSized item = length item.payload.bytes ≡ max_backup_item_data_len

-- The table and the used slots are inverse to one another, and the array has `max_slots` slots.
pub record IsValid (c : BackupContent) : Type 0 where
  pub slots_len : length c.slots ≡ c.max_slots
  pub room : c.used_slots ≤ c.max_slots
  pub some_slot : 0 < c.max_slots
  pub table_len : length c.table ≡ c.used_slots
  pub sized : (i : ℕ) → IsSized (slot c.slots i)
  pub found :
      (k r : ℕ) → find k c.table ≡ some r → (r < c.used_slots) × (key_of (slot c.slots r) ≡ k)
  pub listed : (r : ℕ) → r < c.used_slots → find (key_of (slot c.slots r)) c.table ≡ some r

pub copy-IsSized : (dst src : BackupItem) → IsSized dst → IsSized (copy_backup_item dst src)
unfolding copy_backup_item
copy-IsSized dst src h =
    length-write_at dst.payload.bytes 0 (read_at src.payload.bytes 0 src.payload.meta.len) ∙ h

pub key_of-copy : (dst src : BackupItem) → key_of (copy_backup_item dst src) ≡ key_of src
unfolding copy_backup_item
key_of-copy dst src = refl

pub create-IsValid : IsValid create
unfolding create find blank
create-IsValid = record {
  slots_len = refl;
  room = omega arith;
  some_slot = omega arith;
  table_len = refl;
  sized = λ i. elim i as (λ i. IsSized (slot (blank ∷ []) i)) [ zero ↦ refl | suc n ↦ refl ];
  found = λ k r e. absurd (cc);
  listed = λ r h. absurd (omega arith);
}

pub find-cons_self : (k r : ℕ) (m : List (ℕ × ℕ)) → find k ((k, r) ∷ m) ≡ some r
unfolding find
find-cons_self k r m = ground arith

pub find-cons_ne : (k j r : ℕ) (m : List (ℕ × ℕ)) → j ≢ k → find k ((j, r) ∷ m) ≡ find k m
unfolding find
find-cons_ne k j r m h = ground arith

module _ (fill : ℕ → BackupItem) where
  pub length-resize : (i n : ℕ) (xs : List BackupItem) → length (resize fill i n xs) ≡ n
  unfolding resize
  length-resize i zero xs = refl
  length-resize i (suc n) [] = ap suc (length-resize (suc i) n [])
  length-resize i (suc n) (x ∷ xs) = ap suc (length-resize (suc i) n xs)

  pub slot-resize :
      (i n : ℕ) (xs : List BackupItem) (r : ℕ)
      → r < n
      → r < length xs
      → slot (resize fill i n xs) r ≡ slot xs r
  unfolding resize
  slot-resize i zero xs r h h' = absurd (omega arith)
  slot-resize i (suc n) [] r h h' = absurd (omega arith)
  slot-resize i (suc n) (x ∷ xs) zero h h' = refl
  slot-resize i (suc n) (x ∷ xs) (suc r) h h' =
      slot-resize (suc i) n xs r (omega arith) (omega arith)

  module _ (fill-IsSized : (i : ℕ) → IsSized (fill i)) where
    pub resize-IsSized :
        (i n : ℕ) (xs : List BackupItem)
        → ((r : ℕ) → IsSized (slot xs r))
        → (r : ℕ) → IsSized (slot (resize fill i n xs) r)
    unfolding resize blank
    resize-IsSized i zero xs h r = refl
    resize-IsSized i (suc n) [] h zero = fill-IsSized i
    resize-IsSized i (suc n) [] h (suc r) = resize-IsSized (suc i) n [] h r
    resize-IsSized i (suc n) (x ∷ xs) h zero = h 0
    resize-IsSized i (suc n) (x ∷ xs) h (suc r) = resize-IsSized (suc i) n xs (λ q. h (suc q)) r
