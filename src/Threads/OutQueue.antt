-- ===== src/Threads/OutQueue.antt =====
-- The writer's view of a `ZeroRingBuffer`: the items that it has inserted, in order, and how many of
-- them had been inserted at its last `Flush`. An insertion into a full ring waits and then goes on;
-- Queues/Ring says how a reader gets the items.
use af_stream.Prelude.{ℕ, List, [], ◌∷◌, ◌++◌, length}

pub record OutQueue {ℓ} (A : Type ℓ) : Type ℓ where
  pub inserted : List A
  pub flushed : ℕ

module _ {ℓ} {A : Type ℓ} where
  abbrev pub new_queue : OutQueue A
  new_queue = record { inserted = []; flushed = 0 }

  unfoldable pub insert : A → OutQueue A → OutQueue A
  insert x q = record q { inserted = q.inserted ++ (x ∷ []) }

  unfoldable pub flush : OutQueue A → OutQueue A
  flush q = record q { flushed = length q.inserted }
