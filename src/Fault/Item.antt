-- ===== src/Fault/Item.antt =====
-- backup_item.hpp: the packed records of a state backup.
use af_stream.Prelude.{ℕ, ◌+◌, ◌%◌, ◌^◌, List}

pub record BackupInfo : Type 0 where
  pub backup_op : ℕ
  pub worker_id : ℕ
  pub thread_id : ℕ
  pub op_index : ℕ
  pub seq : ℕ

pub record BackupMeta : Type 0 where
  pub len : ℕ
  pub key : ℕ

-- `bytes` is the array `data` of MAX_BACKUP_ITEM_DATA_LEN bytes.
pub record BackupData : Type 0 where
  pub meta : BackupMeta
  pub bytes : List ℕ

pub record BackupItem : Type 0 where
  pub info : BackupInfo
  pub payload : BackupData

abbrev pub max_backup_item_data_len : ℕ
max_backup_item_data_len = 256

-- sizeof of the packed structs
abbrev pub sizeof_backup_info : ℕ
sizeof_backup_info = 4 + 4 + 2 + 2 + 8

abbrev pub sizeof_backup_meta : ℕ
sizeof_backup_meta = 4 + 8

abbrev pub sizeof_backup_data : ℕ
sizeof_backup_data = sizeof_backup_meta + max_backup_item_data_len

abbrev pub sizeof_backup_item : ℕ
sizeof_backup_item = sizeof_backup_info + sizeof_backup_data

-- `BackupItem::size`, a uint32_t
unfoldable pub item_size : BackupItem → ℕ
item_size b = (sizeof_backup_info + sizeof_backup_meta + b.payload.meta.len) % 2 ^ 32
