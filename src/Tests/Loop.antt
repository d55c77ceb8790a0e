-- ===== src/Tests/Loop.antt =====
-- A compute thread that counts its tuples, with an upstream and a downstream neighbour.
use af_stream.Prelude.{ℕ, ◌+◌, ◌≡◌, refl, some, false, List, [], ◌∷◌, arith, inl, inr}
use af_stream.Fault.Content.{blank}
use af_stream.Operators.MaxArray.{NumericArrayMax, max_array_ops}
use af_stream.Threads.Item.{ItemType, item_normal, item_finish, item_reverse, WrapItem}
use af_stream.Threads.Loop.{Thread, Round, create, loop, running, destinations, emit_reverse_finish}
use af_stream.Threads.Loop.Finish.{AreReady, neighbours_finished}

abbrev wrapped : ItemType → WrapItem ℕ
wrapped ty = record { item_type = ty; seq = 4; thr_source = 0; worker_source = 0; payload = 1 }

abbrev rounds : List (Round ℕ ℕ)
rounds =
    record { feedback = []; forward = some (wrapped item_normal) }
    ∷ record { feedback = wrapped item_reverse ∷ []; forward = some (wrapped item_finish) }
    ∷ record { feedback = wrapped item_finish ∷ []; forward = some (wrapped item_normal) }
    ∷ []

abbrev on_data : ℕ → ℕ → ℕ → ℕ → Thread ℕ NumericArrayMax → ℕ × List NumericArrayMax
on_data worker thread seq x t = (t.user + x, t.operators)

abbrev on_punc : Thread ℕ NumericArrayMax → ℕ × List NumericArrayMax
on_punc t = (t.user, t.operators)

abbrev on_answer : ℕ → ℕ → ℕ → Thread ℕ NumericArrayMax → ℕ × List NumericArrayMax
on_answer worker thread x t = (t.user + 10, t.operators)

rounds-AreReady : AreReady rounds
rounds-AreReady = (
  (tt, (wrapped item_normal, refl, inr (inr refl))),
  (
    ((inr refl, tt), (wrapped item_finish, refl, inl refl)),
    (((inl refl, tt), (wrapped item_normal, refl, inr (inr refl))), tt),
  ),
)

neighbours_finished_example :
    (t : Thread ℕ NumericArrayMax) × (loop max_array_ops 0 0 on_data on_punc on_answer
        (create 1 1 0 [] blank)
        rounds
      ≡ some t)
    × (running t ≡ false)
    × (t.finishes ≡ destinations 1)
    × ((emit_reverse_finish t).r_finishes ≡ destinations 1)
neighbours_finished_example =
    neighbours_finished max_array_ops 0 0 on_data on_punc on_answer 1 1 0 [] blank rounds
      rounds-AreReady (omega arith) (omega arith)
