-- ===== src/Threads/UpTrace.antt =====
-- up_thread_trace.hpp, `UpThreadTrace`, with router_rr.hpp, `RouterRR`: the records of an adapter go
-- to the queues of the compute threads. The adapter is a parameter, a state with what `ReadRecord`
-- does to it; `none` is NULL in `*data`. The times are left out.
pub mod Dealing
use af_stream.Prelude.{
  ℕ, zero, suc, ◌+◌, ◌%◌, Option, none, some, List, [], ◌∷◌, ◌++◌, ◌==◌, if◌then◌else◌, ◌>>=◌,
  get_elem?, set, map,
}
use af_stream.Prelude.Int.{ℤ, pos, negsuc, pos_part, ◌+ℤ◌}
use af_stream.Threads.Item.{ItemType, item_normal, item_finish, WrapItem}
use af_stream.Threads.OutQueue.{OutQueue, new_queue, insert, flush}

pub record RouterRr : Type 0 where
  pub cur : ℤ
  pub max : ℕ

unfoldable pub new_router : ℕ → RouterRr
new_router max = record { cur = negsuc 0; max = max }

-- The destination; `cur_` + 1 is never negative. `none` is a division by zero.
unfoldable pub get_destination : RouterRr → Option (ℕ × RouterRr)
get_destination r =
    let cur' = pos_part (r.cur +ℤ pos 1) % r.max in
    if r.max == 0 then none else some (cur', record r { cur = pos cur' })

pub record UpThreadTrace (A : Type 0) : Type 0 where
  pub router : RouterRr
  pub queues : List (OutQueue (WrapItem A))
  pub event : ℕ

module _ {A : Type 0} where
  unfoldable pub create : RouterRr → UpThreadTrace A
  create router = record { router = router; queues = []; event = 0 }

  unfoldable pub add_out_queue : UpThreadTrace A → UpThreadTrace A
  add_out_queue t = record t { queues = t.queues ++ (new_queue ∷ []) }

-- `assign` is the assignment of InT, of what the record's pointer points to: its `operator=` may keep
-- part of the old value. `Emit` does not pass it the record's length.
module _ {R A : Type 0} (assign : A → R → A) where
  -- What `Emit` makes of a slot: all but the type and the data stays as it is in the slot.
  abbrev pub filled : WrapItem A → R → WrapItem A
  filled slot x = record slot { item_type = item_normal; payload = assign slot.payload x }

  -- `slot` is what `GetSlot` points to.
  unfoldable pub emit : WrapItem A → R → UpThreadTrace A → Option (UpThreadTrace A)
  emit slot x t = get_destination t.router >>= λ d. get_elem? t.queues d.0 >>= λ q.
      some (record t { router = d.1; queues = set t.queues d.0 (insert (filled slot x) q) })

-- `slots` is what `GetSlot` points to for each record, by its number.
module _ {R A S : Type 0} (read_record : S → Option R × S) (assign : A → R → A)
    (slots : ℕ → WrapItem A) where
  abbrev pub record_case :
      UpThreadTrace A
      → Option R
      → (UpThreadTrace A → Option (UpThreadTrace A))
      → Option (UpThreadTrace A)
  record_case t none rest = some t
  record_case t (some x) rest =
      emit assign (slots t.event) x (record t { event = t.event + 1 }) >>= λ t'. rest t'

  -- The loop over the records; it ends within the fuel if the adapter has fewer records.
  unfoldable pub emit_all : ℕ → UpThreadTrace A → S → Option (UpThreadTrace A)
  emit_all zero t a = none
  emit_all (suc n) t a = let (x, a') = read_record a in record_case t x (λ t'. emit_all n t' a')

  -- `blank` is the new item that is marked as FINISH.
  unfoldable pub main_handler : WrapItem A → ℕ → UpThreadTrace A → S → Option (UpThreadTrace A)
  main_handler blank fuel t a = emit_all fuel t a >>= λ t'. some (record t' {
    queues = map flush (map (insert (record blank { item_type = item_finish })) t'.queues);
  })
