-- ===== src/Tests/Callbacks.antt =====
-- Two sources, two compute threads; and a trace of three records over two queues.
use af_stream.Prelude.{
  ℕ, zero, suc, ◌+◌, ◌<◌, ◌≡◌, refl, inl, inr, Option, none, some, true, false, List, [], ◌∷◌, ◌++◌,
  ◌↔◌, get_elem?, arith,
}
use af_stream.Prelude.Int.{◌+ℤ◌}
use af_stream.Threads.Item.{ItemType, item_normal, item_finish, WrapItem}
use af_stream.Threads.OutQueue.{OutQueue, insert, flush}
use af_stream.Threads.InCallback
use af_stream.Threads.InCallback.{InCallback, add_out_queue, push_records}
use af_stream.Threads.InCallback.Finished.{IsCounting, AllHave}
use af_stream.Threads.InCallback.Counting.{HasEnd, all_sources_finish}
use af_stream.Threads.OutCallback
use af_stream.Threads.OutCallback.{pull_all, kept, pull_all-last}
use af_stream.Threads.UpTrace
use af_stream.Threads.UpTrace.{new_router, main_handler}
use af_stream.Threads.UpTrace.Dealing.{items, dealt, main_handler_lem}
use af_stream.Threads.Address.{ok, separator, tcp, is_empty, init_address}
use af_stream.Threads.Address.Accepted.{init_address_iff}

abbrev item : ItemType → ℕ → WrapItem ℕ
item ty source = record {
  item_type = ty;
  seq = 0;
  thr_source = 0;
  worker_source = source;
  payload = 5;
}

abbrev two_queues : InCallback ℕ
two_queues = add_out_queue (add_out_queue (InCallback.create 2))

abbrev arrivals : List (WrapItem ℕ)
arrivals = item item_finish 1 ∷ item item_normal 0 ∷ item item_finish 1 ∷ item item_finish 0 ∷ []

two_queues-IsCounting : IsCounting two_queues
unfolding InCallback.create add_out_queue
two_queues-IsCounting = record {
  some_queue = omega arith;
  all_sources = refl;
  counted = refl;
  queued = (refl, (refl, tt));
}

both_end : (i : ℕ) → i < 2 → HasEnd i arrivals
both_end zero h = inr (inr (inr (inl (refl, refl))))
both_end (suc zero) h = inl (refl, refl)
both_end (suc (suc i)) h = absurd (omega arith)

all_sources_finish_example :
    (c' : InCallback ℕ) × (push_records two_queues arrivals ≡ some (c', true))
    × IsCounting c'
    × AllHave 2 c'.queues
unfolding InCallback.create add_out_queue
all_sources_finish_example =
    all_sources_finish two_queues arrivals two_queues-IsCounting (omega arith)
      (omega arith, (omega arith, (omega arith, (omega arith, tt)))) both_end

pull_all-last_example :
    ((pull_all (OutCallback.create 2) (
        (some (item item_finish 0) ∷ none ∷ some (item item_normal 0) ∷ [])
        ++ (some (item item_finish 1) ∷ []))).1
      ≡ kept (some (item item_finish 0) ∷ none ∷ some (item item_normal 0) ∷ [])
        ++ (item item_finish 1 ∷ []))
    × ((pull_all (OutCallback.create 2) (
          (some (item item_finish 0) ∷ none ∷ some (item item_normal 0) ∷ [])
          ++ (some (item item_finish 1) ∷ []))).2
        ≡ true)
unfolding OutCallback.create
pull_all-last_example =
    pull_all-last (OutCallback.create 2)
      (some (item item_finish 0) ∷ none ∷ some (item item_normal 0) ∷ []) (item item_finish 1) refl
      refl

-- an adapter over a list
abbrev read_list : List ℕ → Option ℕ × List ℕ
read_list [] = (none, [])
read_list (x ∷ xs) = (some x, xs)

-- the assignment of a number
abbrev overwrite : ℕ → ℕ → ℕ
overwrite old x = x

abbrev two_way : UpTrace.UpThreadTrace ℕ
two_way = UpTrace.add_out_queue (UpTrace.add_out_queue (UpTrace.create (new_router 2)))

main_handler_lem_example :
    (t' : UpTrace.UpThreadTrace ℕ) × (main_handler read_list overwrite
        (λ k. item item_normal 0)
        (item item_normal 0)
        9
        two_way
        (4 ∷ 6 ∷ 8 ∷ [])
      ≡ some t')
    × (t'.event ≡ two_way.event + 3)
    × ((i : ℕ) (q : OutQueue (WrapItem ℕ))
        → i < 2
        → get_elem? two_way.queues i ≡ some q
        → get_elem? t'.queues i
          ≡ some (
              flush (
                insert (item item_finish 0) (record q {
                  inserted =
                      q.inserted
                      ++ dealt 2 i 0 (
                          items read_list overwrite (λ k. item item_normal 0) 2 0 (4 ∷ 6 ∷ 8 ∷ []));
                }))))
unfolding UpTrace.create UpTrace.add_out_queue new_router ◌+ℤ◌
main_handler_lem_example =
    main_handler_lem read_list overwrite (λ k. item item_normal 0) 2 (item item_normal 0)
      (4 ∷ 6 ∷ 8 ∷ []) 9 two_way (4 ∷ 6 ∷ 8 ∷ [])
      (record { some_queue = omega arith; max_is = refl; all_queues = refl; turn = refl })
      (refl, (refl, (refl, refl))) (omega arith)

init_address_iff_example : (init_address (tcp ++ separator ++ (42 ∷ [])) ≡ ok (42 ∷ [])) ↔ (
    (tcp ++ separator ++ (42 ∷ []) ≡ tcp ++ separator ++ (42 ∷ [])) × (is_empty (42 ∷ []) ≡ false))
init_address_iff_example = init_address_iff (tcp ++ separator ++ (42 ∷ [])) (42 ∷ [])
