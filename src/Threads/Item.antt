-- ===== src/Threads/Item.antt =====
-- wrap_item.hpp: what travels between threads.
use af_stream.Prelude.{ℕ}

pub data ItemType : Type 0 where
  item_normal : ItemType
  item_finish : ItemType
  item_timeout : ItemType
  item_reverse : ItemType
  item_ack : ItemType

pub record WrapItem {ℓ} (T : Type ℓ) : Type ℓ where
  pub item_type : ItemType
  pub seq : ℕ
  pub thr_source : ℕ
  pub worker_source : ℕ
  pub payload : T
