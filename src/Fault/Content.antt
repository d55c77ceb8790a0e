-- ===== src/Fault/Content.antt =====
-- backup_server.cpp, `BackupContent`: the last backup of each part of one operator, in an array of
-- slots that grows by doubling, with a table from a part's key to its slot. The table is a
-- `std::unordered_map`, here an association list with its `find`, `insert` and `size`.
pub mod Slots
pub mod Save
pub mod Stored
pub mod Append
use af_stream.Prelude.{
  ℕ, zero, suc, ◌+◌, ◌*◌, ◌%◌, ◌^◌, Option, none, some, List, [], ◌∷◌, ◌==◌, if◌then◌else◌, get_or,
  set, replicate,
}
use af_stream.Memory.Copy.{write_at, read_at}
use af_stream.Fault.Item.{BackupItem, max_backup_item_data_len}

-- `std::unordered_map<uint64_t, uint32_t>::find`
unfoldable pub find : ℕ → List (ℕ × ℕ) → Option ℕ
find k [] = none
find k ((j, r) ∷ m) = if j == k then some r else find k m

-- CopyBackupItem: what becomes of the destination, which gets the first `len` bytes of the data, as far
-- as its `max_backup_item_data_len` bytes reach. A longer `memcpy` also overruns the destination: what
-- that does to the slot behind it is undefined and left out, and the theorems on saved items exclude it.
unfoldable pub copy_backup_item : BackupItem → BackupItem → BackupItem
copy_backup_item dst src = record {
  info = src.info;
  payload = record {
    meta = src.payload.meta;
    bytes = write_at dst.payload.bytes 0 (read_at src.payload.bytes 0 src.payload.meta.len);
  };
}

-- a zeroed `BackupItem`
unfoldable pub blank : BackupItem
blank = record {
  info = record { backup_op = 0; worker_id = 0; thread_id = 0; op_index = 0; seq = 0 };
  payload = record {
    meta = record { len = 0; key = 0 };
    bytes = replicate max_backup_item_data_len 0;
  };
}

pub record BackupContent : Type 0 where
  pub table : List (ℕ × ℕ)
  pub slots : List BackupItem
  pub used_slots : ℕ
  pub max_slots : ℕ

abbrev pub slot : List BackupItem → ℕ → BackupItem
slot items i = get_or items i blank

unfoldable pub create : BackupContent
create = record { table = []; slots = blank ∷ []; used_slots = 0; max_slots = 1 }

-- What `realloc` adds is indeterminate: item i of the grown part is `fill i`.
unfoldable pub resize : (ℕ → BackupItem) → ℕ → ℕ → List BackupItem → List BackupItem
resize fill i zero items = []
resize fill i (suc n) [] = fill i ∷ resize fill (suc i) n []
resize fill i (suc n) (x ∷ xs) = x ∷ resize fill (suc i) n xs

module _ (fill : ℕ → BackupItem) where
  unfoldable pub expand : BackupContent → BackupContent
  expand c =
      let grown = c.max_slots * 2 % 2 ^ 32 in
      record c { max_slots = grown; slots = resize fill 0 grown c.slots }

  -- the slot for the item, and the content with that slot reserved
  unfoldable pub select_slot : BackupContent → BackupItem → ℕ × BackupContent
  unfolding expand
  select_slot c item = elim (find item.payload.meta.key c.table) [
    | some r ↦ (r, c)
    | none ↦
        let ret = c.used_slots in
        let c' = record c {
          used_slots = (c.used_slots + 1) % 2 ^ 32;
          table = (item.payload.meta.key, ret) ∷ c.table;
        } in
        (ret, if ret == c.max_slots then expand c' else c')
  ]

  unfoldable pub save_backup : BackupContent → BackupItem → BackupContent
  unfolding select_slot
  save_backup c item =
      let (index, c') = select_slot c item in
      record c' { slots = set c'.slots index (copy_backup_item (slot c'.slots index) item) }

unfoldable pub get_count : BackupContent → ℕ
get_count c = c.used_slots

-- AppendRecoveryItem: the first `used_slots` slots, copied to the slots of `ret` from `cur_count` on.
unfoldable pub append_from : List BackupItem → ℕ → ℕ → List BackupItem → List BackupItem
append_from ret at zero items = ret
append_from ret at (suc n) [] = ret
append_from ret at (suc n) (x ∷ xs) =
    append_from (set ret at (copy_backup_item (slot ret at) x)) (suc at) n xs

unfoldable pub append_recovery_item : BackupContent → List BackupItem → ℕ → List BackupItem
append_recovery_item c ret cur_count = append_from ret cur_count c.used_slots c.slots
