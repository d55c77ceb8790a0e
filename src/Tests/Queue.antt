-- ===== src/Tests/Queue.antt =====
-- A queue with two rings, the second of which has an item.
use af_stream.Prelude.{ℕ, ◌≡◌, ◌<◌, ◌⊎◌, none, [], ◌∷◌, arith}
use af_stream.Queues.Ring.{Ring}
use af_stream.Queues.LockFree.{LockFreeQueue, new_ring, pop}
use af_stream.Queues.LockFree.Popping.{IsIdle, IsTaken, pop_lem}

abbrev with_item : Ring ℕ
with_item = record {
  read_index = 0;
  write_index = 1;
  local_write_index = 0;
  next_read_index = 0;
  r_batch_count = 0;
  local_read_index = 0;
  next_write_index = 1;
  after_next_write_index = 1;
  w_batch_count = 0;
  max = 3;
  batch_size = 1;
  buffer = 7 ∷ 0 ∷ 0 ∷ [];
}

abbrev rings : LockFreeQueue ℕ
rings = record { q = new_ring 0 0 ∷ with_item ∷ []; num_queue = 2; cur = 0 }

pop_lem_example :
    (((pop 0 0 rings).0 ≡ none) × ((i : ℕ) → i < 2 → IsIdle 0 0 rings i))
    ⊎ ((x : ℕ) × (i : ℕ) × IsTaken 0 0 rings x i (pop 0 0 rings))
pop_lem_example = pop_lem 0 0 rings (omega arith) (omega arith)
