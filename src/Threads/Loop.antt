-- ===== src/Threads/Loop.antt =====
-- compute_thread.hpp, `ThreadMainHandler`: a compute thread reads tuples from upstream and feedback
-- from downstream until all its neighbours have finished. What the two queues give in a round of the
-- loop is the round's input; the virtual handlers of the derived class are parameters. `none` is the
-- end of the process: an unidentified type, or a read through NULL. The reverse queue is there
-- wherever `num_downstream` is not 0.

pub mod Moved
pub mod Steps
pub mod Finish
use af_stream.Prelude.{
  ℕ, zero, suc, ◌+◌, Option, none, some, Bool, true, false, ◌||◌, List, [], ◌∷◌, ◌++◌, ◌==◌, ltb,
  if◌then◌else◌, ◌>>=◌,
}
use af_stream.Fault.Item.{BackupItem}
use af_stream.Operators.Interface.{FtInterface}
use af_stream.Threads.Check.{check_operators}
use af_stream.Threads.Item.{
  ItemType, item_normal, item_finish, item_timeout, item_reverse, item_ack, WrapItem,
}

-- The thread: its own state and operators, the locals of the loop, and what it has sent. `tuple` is
-- the sequence number of the tuple that the pointer `tuple` is at, `none` where it is NULL.
pub record Thread (U Op : Type 0) : Type 0 where
  pub user : U
  pub operators : List Op
  pub num_upstream : ℕ
  pub num_downstream : ℕ
  -- whether there is a writer to upstream
  pub up_writer : Bool
  pub up_stop : ℕ
  pub down_stop : ℕ
  pub event : ℕ
  pub r_event : ℕ
  pub tuple : Option ℕ
  pub cmd : BackupItem
  -- the backup requests, the destinations of the FINISH items, and those of the reverse ones
  pub requests : List BackupItem
  pub finishes : List ℕ
  pub r_finishes : List ℕ

-- What `Extract` gives in a round: feedback until the queue is empty, and a tuple or NULL.
pub record Round (A R : Type 0) : Type 0 where
  pub feedback : List (WrapItem R)
  pub forward : Option (WrapItem A)

-- The destinations of the loop of `EmitFinish`, and of that of `EmitReverseFinish`.
unfoldable pub destinations : ℕ → List ℕ
destinations zero = []
destinations (suc n) = destinations n ++ (n ∷ [])

-- The constructor, and the start of `ThreadMainHandler`: no upstream implies an external source.
unfoldable pub create : {U Op : Type 0} → ℕ → ℕ → U → List Op → BackupItem → Thread U Op
create upstream downstream u os cmd = record {
  user = u;
  operators = os;
  num_upstream = if upstream == 0 then 1 else upstream;
  num_downstream = downstream;
  up_writer = ltb 0 upstream;
  up_stop = 0;
  down_stop = 0;
  event = 0;
  r_event = 0;
  tuple = none;
  cmd = cmd;
  requests = [];
  finishes = [];
  r_finishes = [];
}

module _ {U Op : Type 0} where
  abbrev pub with_user : Thread U Op → U × List Op → Thread U Op
  with_user t (u, os) = record t { user = u; operators = os }

  unfoldable pub on_finish : Thread U Op → Thread U Op
  on_finish t =
      if t.up_stop + 1 == t.num_upstream
      then record t {
        up_stop = t.up_stop + 1;
        finishes = t.finishes ++ destinations t.num_downstream;
      }
      else record t { up_stop = t.up_stop + 1 }

  abbrev pub with_checked : Thread U Op → List Op × BackupItem × List BackupItem → Thread U Op
  with_checked t (os, cmd', sent) = record t {
    operators = os;
    cmd = cmd';
    requests = t.requests ++ sent;
  }

  abbrev pub running : Thread U Op → Bool
  running t = ltb t.up_stop t.num_upstream || ltb t.down_stop t.num_downstream

  -- after the loop
  unfoldable pub emit_reverse_finish : Thread U Op → Thread U Op
  emit_reverse_finish t = record t {
    r_finishes = if t.up_writer then t.r_finishes ++ destinations t.num_upstream else t.r_finishes;
  }

module _ {U Op R : Type 0} (process_feedback : ℕ → ℕ → R → Thread U Op → U × List Op) where
  -- the switch over the type of a feedback item
  abbrev pub feedback_case : Thread U Op → WrapItem R → ItemType → Option (Thread U Op)
  feedback_case t w item_finish = some (record t { down_stop = t.down_stop + 1 })
  feedback_case t w item_reverse =
      let t' = record t { r_event = t.r_event + 1 } in
      some (with_user t' (process_feedback w.worker_source w.thr_source w.payload t'))
  feedback_case t w item_normal = none
  feedback_case t w item_timeout = none
  feedback_case t w item_ack = none

  unfoldable pub on_feedback : Thread U Op → WrapItem R → Option (Thread U Op)
  on_feedback t w = feedback_case t w w.item_type

  -- The inner loop; what it leaves in the queue is never read.
  unfoldable pub drain : Thread U Op → List (WrapItem R) → Option (Thread U Op)
  drain t [] = some t
  drain t (w ∷ ws) =
      let rest = on_feedback t w >>= λ t'. drain t' ws in
      if ltb t.down_stop t.num_downstream then rest else some t

module _ {U Op A : Type 0} (process_data : ℕ → ℕ → ℕ → A → Thread U Op → U × List Op)
    (process_punc : Thread U Op → U × List Op) where
  -- the switch over the type of a tuple
  abbrev pub tuple_case : Thread U Op → WrapItem A → ItemType → Option (Thread U Op)
  tuple_case t w item_finish = some (on_finish t)
  tuple_case t w item_timeout = some (with_user t (process_punc t))
  tuple_case t w item_normal =
      let t' = record t { event = t.event + 1 } in
      some (with_user t' (process_data w.worker_source w.thr_source w.seq w.payload t'))
  tuple_case t w item_reverse = none
  tuple_case t w item_ack = none

  unfoldable pub on_tuple : Thread U Op → WrapItem A → Option (Thread U Op)
  unfolding on_finish
  on_tuple t w = tuple_case t w w.item_type

  abbrev pub on_extract : Thread U Op → Option (WrapItem A) → Option (Thread U Op)
  on_extract t none = some (record t { tuple = none })
  on_extract t (some w) = on_tuple (record t { tuple = some w.seq }) w

  unfoldable pub forward_step : Thread U Op → Option (WrapItem A) → Option (Thread U Op)
  unfolding on_tuple
  forward_step t extracted = if t.up_stop == t.num_upstream then some t else on_extract t extracted

module _ {U Op : Type 0} (ops : FtInterface Op) (worker_id thread_id : ℕ) where
  unfoldable pub check_step : Thread U Op → Option (Thread U Op)
  check_step t = check_operators ops worker_id thread_id 0 t.tuple t.operators t.cmd >>= λ c.
      some (with_checked t c)

module _ {U Op A R : Type 0} (ops : FtInterface Op) (worker_id thread_id : ℕ)
    (process_data : ℕ → ℕ → ℕ → A → Thread U Op → U × List Op)
    (process_punc : Thread U Op → U × List Op)
    (process_feedback : ℕ → ℕ → R → Thread U Op → U × List Op) where
  unfoldable pub round : Thread U Op → Round A R → Option (Thread U Op)
  unfolding drain forward_step check_step
  round t r = drain process_feedback t r.feedback >>= λ t'.
      (forward_step process_data process_punc t' r.forward >>= λ t''.
      check_step ops worker_id thread_id t'')

  -- The rounds that are left when the loop ends are not run.
  unfoldable pub loop : Thread U Op → List (Round A R) → Option (Thread U Op)
  unfolding round
  loop t [] = some t
  loop t (r ∷ rs) = let rest = round t r >>= λ t'. loop t' rs in if running t then rest else some t
