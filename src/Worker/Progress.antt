-- ===== src/Worker/Progress.antt =====
-- A worker does not deadlock.
use af_stream.Prelude.{
  ℕ, ◌+◌, ◌<◌, ◌≡◌, ◌≢◌, refl, sym, ap, ◌∙◌, subst, Bool, true, List, [], ◌∷◌, ◌++◌, map, ◌⊎◌, inl,
  inr, arith,
}
use af_stream.Fault.Item.{BackupItem}
use af_stream.Worker.{
  waiting_backup, type_of, Outcome, moved, Link, Command, CommandType, request, returns, ready,
  finish, waiting_clean, ended, ThreadKind, downstream, plain, wait_thread, wait_worker,
  thread_step,
}
use af_stream.Worker.Agreement.{
  Safely, link, born, begun, cleaned, IsBorn, preparing, announced, IsBegun, told, working, asked,
  answered, finished, IsCleaned, ordered, tidying, signed_off,
}
use af_stream.Worker.Start.{
  WorkerPc, creating, awaiting_ready, recovering, starting, polling, awaiting_down, cleaning,
  awaiting_finish, joining, leaving, left, Worker, num_threads, kind_of, each, item_of, then_at,
  poll, poll_finish, poll_backup, poll_case, poll_type, worker_case, worker_step, main_thread,
  thread, run_actor, new_worker, Reach,
}
use af_stream.Worker.Answers.{
  Moves, then_at-Moves, thread-Moves, WillPoll, Answered, waiter-Answered,
}
use af_stream.Worker.Sound.{stage_at, Holds, IsSound, move-Fits}
use af_stream.Worker.Opening.{can_recover}
use af_stream.Worker.Round.{polling_kept}
use af_stream.Worker.Kept.{new_worker-IsSound, Reach-IsSound}

-- the main thread, or thread k
abbrev One : Worker → WorkerPc → ℕ → Type 0
One s p k =
    Moves (worker_case s p) ⊎ Moves (thread_step (kind_of s.num_compute k) returns (s.links k))

born-Moves :
    (kind : ThreadKind) (l : Link)
    → IsBorn l
    → Moves (wait_thread ready l) ⊎ Moves (thread_step kind returns l)
unfolding wait_thread thread_step
born-Moves kind l (preparing e) = inr (subst (λ l. Moves (thread_step kind returns l)) (sym e) tt)
born-Moves kind l (announced e) = inl (subst (λ l. Moves (wait_thread ready l)) (sym e) tt)

cleaned-Moves :
    (kind : ThreadKind) (l : Link)
    → IsCleaned l
    → Moves (wait_thread finish l) ⊎ Moves (thread_step kind returns l)
unfolding wait_thread thread_step wait_worker
cleaned-Moves kind l (ordered e) = inr (subst (λ l. Moves (thread_step kind returns l)) (sym e) tt)
cleaned-Moves kind l (tidying e) = inr (subst (λ l. Moves (thread_step kind returns l)) (sym e) tt)
cleaned-Moves kind l (signed_off e) = inl (subst (λ l. Moves (wait_thread finish l)) (sym e) tt)

down-Moves :
    (l : Link)
    → IsBegun downstream l
    → Moves (wait_thread finish l) ⊎ Moves (thread_step downstream returns l)
unfolding wait_thread thread_step wait_worker
down-Moves l (told e) = inr (subst (λ l. Moves (thread_step downstream returns l)) (sym e) tt)
down-Moves l (working bs p e) =
    inr (subst (λ l. Moves (thread_step downstream returns l)) (sym e) tt)
down-Moves l (asked b q e) = absurd (cc)
down-Moves l (answered q e) = absurd (cc)
down-Moves l (finished bs p e) = inl (
    subst (λ l. Moves (wait_thread finish l))
      (sym (e ∙ ap (λ c. link waiting_clean (map request c ++ (plain finish ∷ [])) []) p)) tt)

poll_type-Moves :
    (s : Worker) (k : ℕ) (cs : List Command) (b : BackupItem) (ty : CommandType)
    → Safely IsSound (poll_type s k cs b ty)
    → Moves (poll_type s k cs b ty)
unfolding poll_finish poll_backup
poll_type-Moves s k cs b finish h = tt
poll_type-Moves s k cs b CommandType.backup h = tt
poll_type-Moves s k cs b CommandType.any h = h
poll_type-Moves s k cs b ready h = h
poll_type-Moves s k cs b CommandType.clean h = h
poll_type-Moves s k cs b CommandType.more h = h
poll_type-Moves s k cs b CommandType.done h = h

poll_case-Moves :
    (s : Worker) (k : ℕ) (cs : List Command)
    → Safely IsSound (poll_case s k cs)
    → Moves (poll_case s k cs)
poll_case-Moves s k [] h = tt
poll_case-Moves s k (c ∷ cs) h = poll_type-Moves s k cs (item_of (s.stray s.stop) c) (type_of c) h

at_link :
    (s : Worker) (k : ℕ) (p q : WorkerPc) (o : Outcome Link)
    → worker_case s p ≡ then_at s k q o
    → Moves o ⊎ Moves (thread_step (kind_of s.num_compute k) returns (s.links k))
    → One s p k
at_link s k p q o e (inl h) = inl (subst Moves (sym e) (then_at-Moves s k q o h))
at_link s k p q o e (inr h) = inr h

-- which thread the main thread may wait for
abbrev pub awaited : ℕ → WorkerPc → ℕ
awaited n (awaiting_ready k) = k
awaited n awaiting_down = n + 1
awaited n (awaiting_finish k) = k
awaited n (creating k) = 0
awaited n recovering = 0
awaited n (starting k) = 0
awaited n (polling k) = 0
awaited n (cleaning k) = 0
awaited n (joining k) = 0
awaited n leaving = 0
awaited n left = 0

One-Moves : (s : Worker) (p : WorkerPc) → Holds s p → p ≢ left → One s p (awaited s.num_compute p)
unfolding poll
One-Moves s (creating k) v h = inl tt
One-Moves s (awaiting_ready k) v h =
    at_link s k (awaiting_ready k) (each s k creating recovering) (wait_thread ready (s.links k))
      refl
      (born-Moves (kind_of s.num_compute k) (s.links k) (
        move-Fits (kind_of s.num_compute k) (stage_at s.num_compute (awaiting_ready k) k) born
          (s.links k) (ground arith) (v.fits k v.in_range)))
One-Moves s recovering v h = inl (
    subst Moves
      (sym (can_recover s.recovery s.has_client (moved (record s { pc = starting 0 })) v.client))
      tt)
One-Moves s (starting k) v h = inl tt
One-Moves s (polling k) v h = inl (poll_case-Moves s k (s.links k).to_main (polling_kept s k v))
One-Moves s awaiting_down v h =
    let e : kind_of s.num_compute (s.num_compute + 1) ≡ downstream = ground arith in
    let b : IsBegun downstream (s.links (s.num_compute + 1)) =
      subst (λ kind. IsBegun kind (s.links (s.num_compute + 1))) e
        (move-Fits (kind_of s.num_compute (s.num_compute + 1))
          (stage_at s.num_compute awaiting_down (s.num_compute + 1)) begun
          (s.links (s.num_compute + 1)) (ground arith)
          (v.fits (s.num_compute + 1) (ground (arith, v.in_range)))) in
    at_link s (s.num_compute + 1) awaiting_down (cleaning 0)
      (wait_thread finish (s.links (s.num_compute + 1))) refl
      (subst
        (λ kind.
          Moves (wait_thread finish (s.links (s.num_compute + 1)))
          ⊎ Moves (thread_step kind returns (s.links (s.num_compute + 1))))
        (sym e) (down-Moves (s.links (s.num_compute + 1)) b))
One-Moves s (cleaning k) v h = inl tt
One-Moves s (awaiting_finish k) v h =
    at_link s k (awaiting_finish k) (each s k cleaning (joining 0)) (wait_thread finish (s.links k))
      refl
      (cleaned-Moves (kind_of s.num_compute k) (s.links k) (
        move-Fits (kind_of s.num_compute k) (stage_at s.num_compute (awaiting_finish k) k) cleaned
          (s.links k) (ground arith) (v.fits k v.in_range)))
One-Moves s (joining k) v h =
    let e : (s.links k).pc ≡ ended = ap (λ l. l.pc) (v.fits k v.in_range) in inl (rw e tt)
One-Moves s leaving v h = inl tt
One-Moves s left v h = absurd (h refl)

awaited_in : (s : Worker) (p : WorkerPc) → Holds s p → awaited s.num_compute p < num_threads s
awaited_in s (awaiting_ready k) v = v.in_range
awaited_in s awaiting_down v = ground (arith, v.in_range)
awaited_in s (awaiting_finish k) v = v.in_range
awaited_in s (creating k) v = ground arith
awaited_in s recovering v = ground arith
awaited_in s (starting k) v = ground arith
awaited_in s (polling k) v = ground arith
awaited_in s (cleaning k) v = ground arith
awaited_in s (joining k) v = ground arith
awaited_in s leaving v = ground arith
awaited_in s left v = ground arith

-- A worker that is told to recover only if it has a backup server, in every state that an interleaving
-- leads to and in which `Start` has not returned: the main thread or the thread that it waits for can
-- take a step; and a compute thread that waits for the answer to its backup request has the answer, or
-- its request is in its mailbox, the polling loop is not over, and the poll of that thread answers.
pub no_deadlock :
    (n : ℕ) (down client recovery : Bool) (b : ℕ → BackupItem)
    → (recovery ≡ true → client ≡ true)
    → (s : Worker) → Reach (new_worker n down client recovery b) s
    → s.pc ≢ left
    → (Moves (run_actor s main_thread)
        ⊎ Moves (run_actor s (thread (awaited s.num_compute s.pc) returns)))
      × ((i : ℕ)
          → i < num_threads s
          → (s.links i).pc ≡ waiting_backup
          → Moves (run_actor s (thread i returns)) ⊎ (WillPoll s.pc × Answered s i))
unfolding run_actor worker_step
no_deadlock n down client recovery b h s r g =
    let v =
      Reach-IsSound (new_worker n down client recovery b) s
        (new_worker-IsSound n down client recovery b h) r in
    (
      elim (One-Moves s s.pc v g) [
        | inl m ↦ inl m
        | inr m ↦ inr (thread-Moves s (awaited s.num_compute s.pc) (awaited_in s s.pc v) m)
      ],
      λ i l w. waiter-Answered s i v l w,
    )
