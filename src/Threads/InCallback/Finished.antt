-- ===== src/Threads/InCallback/Finished.antt =====
-- How many sources have finished, and how many FINISH items a queue has got.
use af_stream.Prelude.{
  ℕ, zero, suc, ◌+◌, ◌≤◌, ◌<◌, ◌≡◌, refl, ap, some, Bool, true, false, List, [], ◌∷◌, ◌++◌,
  if◌then◌else◌, get_elem?, set, length, arith,
}
use af_stream.Threads.Item.{item_finish, WrapItem}
use af_stream.Threads.Loop.Moved.{finish_count}
use af_stream.Threads.OutQueue.{OutQueue, insert, flush}
use af_stream.Threads.InCallback.{InCallback, sent_to}

abbrev pub count_true : List Bool → ℕ
count_true [] = 0
count_true (b ∷ bs) = (if b then 1 else 0) + count_true bs

module _ {A : Type 0} where
  -- the FINISH items among some
  abbrev pub finishes_in : List (WrapItem A) → ℕ
  finishes_in [] = 0
  finishes_in (w ∷ ws) = finish_count w.item_type + finishes_in ws

  abbrev pub AllHave : ℕ → List (OutQueue (WrapItem A)) → Type 0
  AllHave n [] = Unit {0}
  AllHave n (q ∷ qs) = (finishes_in q.inserted ≡ n) × AllHave n qs

  -- Each source that has finished is counted once, and each queue has as many FINISH items.
  pub record IsCounting (c : InCallback A) : Type 0 where
    pub some_queue : 0 < length c.queues
    pub all_sources : length c.stopped ≡ c.num_in
    pub counted : c.num_stop ≡ count_true c.stopped
    pub queued : AllHave c.num_stop c.queues

  finishes_in-append :
      (ws : List (WrapItem A)) (w : WrapItem A)
      → finishes_in (ws ++ (w ∷ [])) ≡ finishes_in ws + finish_count w.item_type
  finishes_in-append [] w = omega arith
  finishes_in-append (v ∷ vs) w = omega (arith, finishes_in-append vs w)

  pub AllHave-sent_to :
      (n : ℕ) (w : WrapItem A) (qs : List (OutQueue (WrapItem A)))
      → w.item_type ≡ item_finish
      → AllHave n qs
      → AllHave (n + 1) (sent_to w qs)
  unfolding insert flush
  AllHave-sent_to n w [] e h = tt
  AllHave-sent_to n w (q ∷ qs) e (h, hs) = (
    omega (arith, finishes_in-append q.inserted w, ap finish_count e, h),
    AllHave-sent_to n w qs e hs,
  )

  pub AllHave-set :
      (n i : ℕ) (w : WrapItem A) (q : OutQueue (WrapItem A)) (qs : List (OutQueue (WrapItem A)))
      → finish_count w.item_type ≡ 0
      → get_elem? qs i ≡ some q
      → AllHave n qs
      → AllHave n (set qs i (insert w q))
  unfolding insert
  AllHave-set n i w q [] e g h = tt
  AllHave-set n zero w q (x ∷ xs) e g (h, hs) =
      let same : x ≡ q = cc in
      (
        omega (
          arith,
          finishes_in-append q.inserted w,
          e,
          h,
          ap (λ (y : OutQueue (WrapItem A)). finishes_in y.inserted) same,
        ),
        hs,
      )
  AllHave-set n (suc i) w q (x ∷ xs) e g (h, hs) = (h, AllHave-set n i w q xs e g hs)

count_true_le : (bs : List Bool) → count_true bs ≤ length bs
count_true_le [] = omega arith
count_true_le (true ∷ bs) = omega (arith, count_true_le bs)
count_true_le (false ∷ bs) = omega (arith, count_true_le bs)

pub count_true-set :
    (bs : List Bool) (i : ℕ)
    → get_elem? bs i ≡ some false
    → count_true (set bs i true) ≡ count_true bs + 1
count_true-set [] i e = absurd (cc)
count_true-set (b ∷ bs) zero e = let f : b ≡ false = cc in rw f (omega arith)
count_true-set (b ∷ bs) (suc i) e = omega (arith, count_true-set bs i e)

pub count_true_all :
    (bs : List Bool)
    → ((i : ℕ) → i < length bs → get_elem? bs i ≡ some true)
    → count_true bs ≡ length bs
count_true_all [] h = refl
count_true_all (b ∷ bs) h =
    let here : some b ≡ some true = h 0 (omega arith) in
    let f : b ≡ true = cc in
    let rest = count_true_all bs (λ i g. h (suc i) (omega arith)) in rw (f, rest) (omega arith)

pub get_elem?_in :
    {B : Type 0} (xs : List B) (i : ℕ) → i < length xs → (x : B) × (get_elem? xs i ≡ some x)
get_elem?_in [] i h = absurd (omega arith)
get_elem?_in (x ∷ xs) zero h = (x, refl)
get_elem?_in (x ∷ xs) (suc i) h = get_elem?_in xs i (omega arith)
