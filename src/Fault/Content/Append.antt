-- ===== src/Fault/Content/Append.antt =====
-- `BackupContent::AppendRecoveryItem` copies the used slots, in order, and nothing else.
use af_stream.Prelude.{
  ℕ, zero, suc, ◌+◌, ◌≤◌, ◌<◌, ◌≡◌, refl, ap, ◌∙◌, ◌⊎◌, inl, inr, List, [], ◌∷◌, set, length, arith,
  get_or-set_self, get_or-set_ne, length-set, eq_or_ne, subst,
}
use af_stream.Fault.Item.{BackupItem, max_backup_item_data_len}
use af_stream.Fault.Content.{blank, slot, copy_backup_item, append_from}
use af_stream.Fault.Content.Slots.{IsSized, copy-IsSized}
use af_stream.Fault.Content.Stored.{carried, carried-copy}

pub length-append_from :
    (ret : List BackupItem) (at n : ℕ) (xs : List BackupItem)
    → length (append_from ret at n xs) ≡ length ret
unfolding append_from
length-append_from ret at zero xs = refl
length-append_from ret at (suc n) [] = refl
length-append_from ret at (suc n) (x ∷ xs) =
    length-append_from (set ret at (copy_backup_item (slot ret at) x)) (suc at) n xs
    ∙ length-set ret at (copy_backup_item (slot ret at) x)

set-IsSized :
    (ret : List BackupItem) (at : ℕ) (x : BackupItem)
    → at < length ret
    → ((i : ℕ) → IsSized (slot ret i))
    → (i : ℕ) → IsSized (slot (set ret at (copy_backup_item (slot ret at) x)) i)
set-IsSized ret at x lt h i = elim (eq_or_ne at i) [
  | inl e ↦
      subst (λ k. IsSized (slot (set ret at (copy_backup_item (slot ret at) x)) k)) e
        (rw (get_or-set_self ret at (copy_backup_item (slot ret at) x) blank lt)
          (copy-IsSized (slot ret at) x (h at)))
  | inr ne ↦ rw (get_or-set_ne ret at i (copy_backup_item (slot ret at) x) blank ne) (h i)
]

pub append_from-IsSized :
    (ret : List BackupItem) (at n : ℕ) (xs : List BackupItem)
    → at + n ≤ length ret
    → ((i : ℕ) → IsSized (slot ret i))
    → (i : ℕ) → IsSized (slot (append_from ret at n xs) i)
unfolding append_from
append_from-IsSized ret at zero xs room h = h
append_from-IsSized ret at (suc n) [] room h = h
append_from-IsSized ret at (suc n) (x ∷ xs) room h =
    append_from-IsSized (set ret at (copy_backup_item (slot ret at) x)) (suc at) n xs
      (omega (arith, length-set ret at (copy_backup_item (slot ret at) x)))
      (set-IsSized ret at x (omega arith) h)

-- Slots outside the range keep their items.
pub append_from_outside :
    (ret : List BackupItem) (at n : ℕ) (xs : List BackupItem) (i : ℕ)
    → (i < at) ⊎ (at + n ≤ i)
    → slot (append_from ret at n xs) i ≡ slot ret i
unfolding append_from
append_from_outside ret at zero xs i h = refl
append_from_outside ret at (suc n) [] i h = refl
append_from_outside ret at (suc n) (x ∷ xs) i h =
    append_from_outside (set ret at (copy_backup_item (slot ret at) x)) (suc at) n xs i
      (omega arith)
    ∙ get_or-set_ne ret at i (copy_backup_item (slot ret at) x) blank (omega arith)

-- Slot `at + i` gets what item i carries.
pub append_from_inside :
    (ret : List BackupItem) (at n : ℕ) (xs : List BackupItem) (i : ℕ)
    → at + n ≤ length ret
    → n ≤ length xs
    → ((j : ℕ) → IsSized (slot ret j))
    → ((j : ℕ) → j < n → (slot xs j).payload.meta.len ≤ max_backup_item_data_len)
    → i < n
    → carried (slot (append_from ret at n xs) (at + i)) ≡ carried (slot xs i)
unfolding append_from
append_from_inside ret at zero xs i room enough h fits lt = absurd (omega arith)
append_from_inside ret at (suc n) [] i room enough h fits lt = absurd (omega arith)
append_from_inside ret at (suc n) (x ∷ xs) zero room enough h fits lt =
    let e : at + 0 ≡ at = omega arith in
    rw e (
      ap carried (
        append_from_outside (set ret at copied) (suc at) n xs at (inl (omega arith))
        ∙ get_or-set_self ret at copied blank (omega arith))
      ∙ carried-copy (slot ret at) x (h at) (fits 0 lt))
  where
    copied : BackupItem
    copied = copy_backup_item (slot ret at) x
append_from_inside ret at (suc n) (x ∷ xs) (suc i) room enough h fits lt =
    let e : at + suc i ≡ suc at + i = omega arith in
    rw e (
      append_from_inside (set ret at copied) (suc at) n xs i
        (omega (arith, length-set ret at copied)) (omega arith)
        (set-IsSized ret at x (omega arith) h) (λ j l. fits (suc j) (omega arith)) (omega arith))
  where
    copied : BackupItem
    copied = copy_backup_item (slot ret at) x
