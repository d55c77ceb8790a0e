-- ===== src/Tests/Channel.antt =====
-- One writer that has the slot 5, and one reader.
use af_stream.Prelude.{ℕ, zero, suc, ◌<◌, refl, Option, none, some, List, [], ◌∷◌, arith}
use af_stream.Queues.Ring.{
  create, next_val, get_slot, fill_slot, complete_write, insert, extract, ack, flush,
}
use af_stream.Queues.Ring.Represents.{create-Represents}
use af_stream.Queues.LockFree.{LockFreeQueue, ring_at, push, pop, pop_from, flush_all}
use af_stream.Queues.LockFree.Contents.{Contains, Waits}
use af_stream.Queues.Channel
use af_stream.Queues.Channel.{Mesh, flush_writer, flush_reader}
use af_stream.Queues.Channel.Moves.{
  System, Move, writes, reads, acks, flushes_readers, flushes_writers, move, moves, IsAccounted,
  Conserves,
}
use af_stream.Queues.Channel.Slots.{slots_conserved}

abbrev one_ring : LockFreeQueue ℕ
one_ring = record { q = create 4 1 0 0 ∷ []; num_queue = 1; cur = 0 }

abbrev start : System
start = record {
  mesh = record {
    num_writers = 1;
    num_readers = 1;
    writers = λ w. one_ring;
    readers = λ r. one_ring;
  };
  held = 5 ∷ [];
  taken = [];
}

small_ring-Waits : Waits {A = ℕ} 0 0 (create 4 1 0 0) []
small_ring-Waits = record {
  size = 4;
  history = _;
  valid = create-Represents 0 4 1 0 (omega arith);
  front = [];
  split = refl;
  passed = refl;
}

waiting : (i : ℕ) → i < 1 → Waits {A = ℕ} 0 0 (ring_at 0 0 one_ring i) []
waiting zero h = small_ring-Waits
waiting (suc i) h = absurd (omega arith)

one_ring-Contains : Contains 0 0 one_ring 1 (λ i. [])
one_ring-Contains = record { rings = refl; num = refl; cur_le = omega arith; waiting = waiting }

start-IsAccounted : IsAccounted 0 start
start-IsAccounted = record {
  in_writers = λ w i. [];
  in_readers = λ r i. [];
  some_writer = omega arith;
  some_reader = omega arith;
  of_writers = λ w h. one_ring-Contains;
  of_readers = λ r h. one_ring-Contains;
}

abbrev calls : List (Move)
calls = writes 0 0 5 ∷ flushes_readers ∷ reads 0 ∷ acks 0 0 5 ∷ flushes_writers ∷ []

abbrev reached : Option (System) → System
reached none = start
reached (some s) = s

abbrev finish : System
finish = reached (moves 0 start calls)

slots_conserved_example : Conserves 0 start start-IsAccounted finish
unfolding move Channel.write Channel.read Channel.ack push pop pop_from flush_writer flush_reader
    flush_all insert get_slot fill_slot complete_write extract ack flush create next_val
slots_conserved_example = slots_conserved 0 start finish calls start-IsAccounted refl
