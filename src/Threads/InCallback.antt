-- ===== src/Threads/InCallback.antt =====
-- in_callback_simple.hpp, `InCallbackSimple`: what the network engine hands over goes to the queues
-- of the compute threads. The times and the message of `Clean` are left out.
pub mod Finished
pub mod Counting
use af_stream.Prelude.{
  ℕ, ◌+◌, Option, none, some, Bool, true, false, List, [], ◌∷◌, ◌++◌, ◌==◌, if◌then◌else◌, ◌>>=◌,
  get_elem?, set, map,
}
use af_stream.Threads.Item.{
  ItemType, item_normal, item_finish, item_timeout, item_reverse, item_ack, WrapItem,
}
use af_stream.Threads.OutQueue.{OutQueue, new_queue, insert, flush}

pub record InCallback (A : Type 0) : Type 0 where
  pub num_in : ℕ
  pub queues : List (OutQueue (WrapItem A))
  pub stopped : List Bool
  pub num_stop : ℕ
  pub event : ℕ

-- `GetDestination`
abbrev pub destination : ℕ
destination = 0

module _ {A : Type 0} where
  unfoldable pub create : ℕ → InCallback A
  create num_in = record { num_in = num_in; queues = []; stopped = []; num_stop = 0; event = 0 }

  -- There is one entry of `stopped_` for each queue, though it is indexed by source.
  unfoldable pub add_out_queue : InCallback A → InCallback A
  add_out_queue c = record c {
    queues = c.queues ++ (new_queue ∷ []);
    stopped = c.stopped ++ (false ∷ []);
  }

  abbrev pub sent_to : WrapItem A → List (OutQueue (WrapItem A)) → List (OutQueue (WrapItem A))
  sent_to w qs = map (λ q. flush (insert w q)) qs

  -- the branches on `stopped_[source]`, with whether the call returns 1
  abbrev pub finish_case : InCallback A → WrapItem A → Bool → InCallback A × Bool
  finish_case c w true = (c, false)
  finish_case c w false = (
    record c {
      stopped = set c.stopped w.worker_source true;
      num_stop = c.num_stop + 1;
      queues = sent_to w c.queues;
    },
    c.num_stop + 1 == c.num_in,
  )

  abbrev pub data_case : InCallback A → WrapItem A → OutQueue (WrapItem A) → InCallback A × Bool
  data_case c w q =
      (record c { event = c.event + 1; queues = set c.queues destination (insert w q) }, false)

  abbrev pub type_case : InCallback A → WrapItem A → ItemType → Option (InCallback A × Bool)
  type_case c w item_finish = get_elem? c.stopped w.worker_source >>= λ b. some (finish_case c w b)
  type_case c w item_normal = get_elem? c.queues destination >>= λ q. some (data_case c w q)
  type_case c w item_timeout = get_elem? c.queues destination >>= λ q. some (data_case c w q)
  type_case c w item_reverse = get_elem? c.queues destination >>= λ q. some (data_case c w q)
  type_case c w item_ack = get_elem? c.queues destination >>= λ q. some (data_case c w q)

  -- `none` where a vector is read out of range
  unfoldable pub push_record : InCallback A → WrapItem A → Option (InCallback A × Bool)
  push_record c w = type_case c w w.item_type

  -- The calls of the engine for the records of its connections, in the order of their arrival, and
  -- whether one of them returned 1.
  unfoldable pub push_records : InCallback A → List (WrapItem A) → Option (InCallback A × Bool)
  push_records c [] = some (c, false)
  push_records c (w ∷ ws) = push_record c w >>= λ r.
      (push_records r.0 ws >>= λ r'. some (r'.0, if r.1 then true else r'.1))
