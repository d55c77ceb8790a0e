-- ===== src/Tests/Ring.antt =====
-- `ZeroRingBuffer` with room for two items and batches of one.
use af_stream.Prelude.{ℕ, ◌<◌, ◌≡◌, refl, List, [], ◌∷◌, ◌++◌, arith, length}
use af_stream.Queues.Ring.{create, next_val, insert, extract, ack, flush}
use af_stream.Queues.Ring.Schedule.{
  Turn, writes, reads, flushes, start, step, run, delivered_in_order, flush_then_drain,
}

abbrev late : List (Turn ℕ)
late = writes 7 ∷ reads ∷ []

abbrev flushed : List (Turn ℕ)
flushed = writes 7 ∷ flushes ∷ reads ∷ []

abbrev two : List (Turn ℕ)
two = writes 7 ∷ writes 8 ∷ []

abbrev turns : List (Turn ℕ)
turns = writes 7 ∷ writes 8 ∷ writes 9 ∷ reads ∷ writes 9 ∷ reads ∷ reads ∷ reads ∷ []

-- 9 waits until 7 is released.
run-turns :
    ((run 0 (start 0 3 1 0) turns).put ≡ 7 ∷ 8 ∷ 9 ∷ [])
    × ((run 0 (start 0 3 1 0) turns).got ≡ 7 ∷ 8 ∷ 9 ∷ [])
unfolding run step insert extract ack flush next_val create
run-turns = (refl, refl)

-- With a larger batch the reader sees nothing before a flush.
run_batched :
    ((run 0 (start 0 3 5 0) late).got ≡ []) × ((run 0 (start 0 3 5 0) flushed).got ≡ 7 ∷ [])
unfolding run step insert extract ack flush next_val create
run_batched = (refl, refl)

delivered_in_order_example :
    let t = run 0 (start 0 3 1 0) turns in
    (rest : List ℕ) × (t.put ≡ t.got ++ rest) × (length rest < 3)
delivered_in_order_example = delivered_in_order 0 3 1 0 turns (omega arith)

flush_then_drain_example :
    let t = step 0 (run 0 (start 0 3 5 0) two) flushes in
    (run 0 t (reads ∷ reads ∷ [])).got ≡ (run 0 t (reads ∷ reads ∷ [])).put
unfolding run step insert flush next_val create
flush_then_drain_example = flush_then_drain 0 3 5 0 two (omega arith)
