-- ===== src/Queues/LockFree.antt =====
-- mpsc_queue_mesh_zerocopy.hpp, `LockFreeQueue<T>`: many writers and one reader, a ring for each
-- writer, which the reader visits in turn.
pub mod Popping
pub mod Contents
use af_stream.Prelude.{
  ℕ, zero, suc, ◌+◌, Option, none, some, List, [], ◌∷◌, ◌++◌, leb, if◌then◌else◌, ◌>>=◌, get_or,
  set, map,
}
use af_stream.Queues.Ring
use af_stream.Queues.Ring.{Ring, rb_size, rb_batch, insert, extract, ack, flush}

pub record LockFreeQueue {ℓ} (A : Type ℓ) : Type ℓ where
  pub q : List (Ring A)
  pub num_queue : ℕ
  pub cur : ℕ

unfoldable pub create {ℓ} : {A : Type ℓ} → LockFreeQueue A
create = record { q = []; num_queue = 0; cur = 0 }

-- `blank` is a zeroed T, and `indeterminate` what the new ring does not set.
module _ {ℓ} {A : Type ℓ} (blank : A) (indeterminate : ℕ) where
  abbrev pub new_ring : Ring A
  new_ring = Ring.create rb_size rb_batch blank indeterminate

  unfoldable pub add_queue : LockFreeQueue A → LockFreeQueue A
  add_queue s = record s { num_queue = s.num_queue + 1; q = s.q ++ (new_ring ∷ []) }

  -- an element of `q_`; every index used is below its length
  abbrev pub ring_at : LockFreeQueue A → ℕ → Ring A
  ring_at s i = get_or s.q i new_ring

  -- `none` where the ring is full and the writer waits
  unfoldable pub push : LockFreeQueue A → ℕ → A → Option (LockFreeQueue A)
  push s writer_index x =
      insert (ring_at s writer_index) x >>= λ r. some (record s { q = set s.q writer_index r })

  -- One round of the loop of `pop` at the ring c, after which `rest` goes on.
  abbrev pub pop_case :
      LockFreeQueue A
      → ℕ
      → Option A × Ring A
      → Option A × LockFreeQueue A
      → Option A × LockFreeQueue A
  pop_case s c (none, r) rest = rest
  pop_case s c (some x, r) rest = (some x, record s { q = set s.q c (ack r); cur = c + 1 })

  unfoldable pub pop_from : ℕ → LockFreeQueue A → Option A × LockFreeQueue A
  pop_from zero s = (none, s)
  pop_from (suc n) s =
      let c = if leb s.num_queue s.cur then 0 else s.cur in
      let e = extract blank (ring_at s c) in
      let rest = pop_from n (record s { q = set s.q c e.1; cur = c + 1 }) in pop_case s c e rest

  unfoldable pub pop : LockFreeQueue A → Option A × LockFreeQueue A
  pop s = pop_from s.num_queue s

unfoldable pub flush_all {ℓ} : {A : Type ℓ} → LockFreeQueue A → LockFreeQueue A
flush_all s = record s { q = map flush s.q }
