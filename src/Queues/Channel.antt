-- ===== src/Queues/Channel.antt =====
-- mpsc_object, mpsc_writer and mpsc_reader_indirect_mesh.hpp: writers hand the addresses of their slots
-- to readers, and readers hand them back. Writer w pushes into ring w of the queue of a reader, and
-- reader r into ring r of the queue of a writer; `peers` are the queues of the other side, in the order
-- of their ids. An address is a number, in `calloc` memory that a writer owns; `none` is a call that
-- waits.
pub mod Counting
pub mod Moves
pub mod Steps
pub mod Slots
use af_stream.Prelude.{
  ℕ, zero, suc, ◌+◌, ◌-◌, Option, none, some, List, [], ◌∷◌, ◌==◌, ltb, if◌then◌else◌, ◌>>=◌,
}
use af_stream.Queues.Ring.{rb_size}
use af_stream.Queues.LockFree
use af_stream.Queues.LockFree.{LockFreeQueue, add_queue, push, pop, flush_all}

-- `own` of each writer and of each reader
pub record Mesh : Type 0 where
  pub num_writers : ℕ
  pub num_readers : ℕ
  pub writers : ℕ → LockFreeQueue ℕ
  pub readers : ℕ → LockFreeQueue ℕ

abbrev pub put_queue : ℕ → LockFreeQueue ℕ → (ℕ → LockFreeQueue ℕ) → ℕ → LockFreeQueue ℕ
put_queue i q f j = if i == j then q else f j

-- NULL is the address 0 in the memory of a new ring.
abbrev pub null : ℕ
null = 0

module _ (indeterminate : ℕ) where
  -- `ConnectPeer` of one side: a ring for one more peer
  unfoldable connect_peer : LockFreeQueue ℕ → LockFreeQueue ℕ
  connect_peer q = add_queue null indeterminate q

  -- `MPSCWriter::GetSlot` spins until there is one.
  abbrev pub got_slot : Mesh → ℕ → Option ℕ × LockFreeQueue ℕ → Option (ℕ × Mesh)
  got_slot m w (none, q) = none
  got_slot m w (some a, q) = some (a, record m { writers = put_queue w q m.writers })

  unfoldable pub get_slot : Mesh → ℕ → Option (ℕ × Mesh)
  get_slot m w = got_slot m w (pop null indeterminate (m.writers w))

  unfoldable pub write : Mesh → ℕ → ℕ → ℕ → Option Mesh
  write m w r addr = push null indeterminate (m.readers r) w addr >>= λ q.
      some (record m { readers = put_queue r q m.readers })

  -- `MPSCReader::Read`, `none` for NULL
  unfoldable pub read : Mesh → ℕ → Option ℕ × Mesh
  read m r =
      let p = pop null indeterminate (m.readers r) in
      (p.0, record m { readers = put_queue r p.1 m.readers })

  unfoldable pub ack : Mesh → ℕ → ℕ → ℕ → Option Mesh
  ack m r w addr = push null indeterminate (m.writers w) r addr >>= λ q.
      some (record m { writers = put_queue w q m.writers })

  -- `Init`: the slots from `slot` on go into ring 0 of the writer's own queue, `left` of them.
  unfoldable push_slots : ℕ → ℕ → LockFreeQueue ℕ → Option (LockFreeQueue ℕ)
  push_slots slot zero q = some q
  push_slots slot (suc left) q =
      push null indeterminate q 0 slot >>= λ q'. push_slots (slot + 1) left q'

  unfoldable init_writer : Mesh → ℕ → ℕ → Option Mesh
  init_writer m w slots = push_slots slots (rb_size - 1) (m.writers w) >>= λ q.
      some (record m { writers = put_queue w q m.writers })

-- `Flush` goes through the peers.
unfoldable pub flush_writer : Mesh → Mesh
flush_writer m = record m {
  readers = λ r. if ltb r m.num_readers then flush_all (m.readers r) else m.readers r;
}

unfoldable pub flush_reader : Mesh → Mesh
flush_reader m = record m {
  writers = λ w. if ltb w m.num_writers then flush_all (m.writers w) else m.writers w;
}
