-- ===== src/Fault/RecoveryItem.antt =====
-- recovery_item.hpp: the server's answer to a recovery, a count followed by that many backup items
-- in one block of `size()` bytes. The block is held as the items that it has room for; `malloc` leaves
-- them indeterminate. From 14913081 items on `size()` wraps and the block is too small: what copies past
-- its end do is undefined, and they are without effect here.
use af_stream.Prelude.{
  ℕ, suc, zero, ◌+◌, ◌-◌, ◌*◌, ◌/◌, ◌%◌, ◌^◌, ◌≤◌, arith, ◌≡◌, refl, ap, List, [], ◌∷◌, length,
}
use af_stream.Fault.Item.{BackupItem, sizeof_backup_item}
use af_stream.Fault.Content.{slot, blank}
use af_stream.Fault.Content.Slots.{IsSized}

-- `count` is the first word of the block, which `GetCount` reads.
pub record RecoveryItem : Type 0 where
  pub count : ℕ
  pub slots : List BackupItem

abbrev pub indeterminate : (ℕ → BackupItem) → ℕ → ℕ → List BackupItem
indeterminate garbage i zero = []
indeterminate garbage i (suc n) = garbage i ∷ indeterminate garbage (suc i) n

-- `size()`, a uint32_t, of a block for c items
unfoldable pub recovery_size : ℕ → ℕ
recovery_size c = (4 + sizeof_backup_item * c) % 2 ^ 32

-- how many whole items a block for c items has room for
unfoldable pub block_room : ℕ → ℕ
unfolding recovery_size
block_room c = (recovery_size c - 4) / sizeof_backup_item

-- The largest number of items whose block is not too small
abbrev pub max_count : ℕ
max_count = 14913080

pub block_room_lem : (c : ℕ) → c ≤ max_count → block_room c ≡ c
unfolding block_room
block_room_lem c h = omega arith

unfoldable pub allocate : (ℕ → BackupItem) → ℕ → RecoveryItem
allocate garbage c = record { count = c; slots = indeterminate garbage 0 (block_room c) }

unfoldable pub get_slot : RecoveryItem → ℕ → BackupItem
get_slot r i = slot r.slots i

unfoldable pub get_count : RecoveryItem → ℕ
get_count r = r.count

pub length-indeterminate :
    (garbage : ℕ → BackupItem) (i n : ℕ) → length (indeterminate garbage i n) ≡ n
length-indeterminate garbage i zero = refl
length-indeterminate garbage i (suc n) = ap suc (length-indeterminate garbage (suc i) n)

pub indeterminate-IsSized :
    (garbage : ℕ → BackupItem)
    → ((i : ℕ) → IsSized (garbage i))
    → (i n k : ℕ) → IsSized (slot (indeterminate garbage i n) k)
unfolding blank
indeterminate-IsSized garbage h i zero k = refl
indeterminate-IsSized garbage h i (suc n) zero = h i
indeterminate-IsSized garbage h i (suc n) (suc k) = indeterminate-IsSized garbage h (suc i) n k
