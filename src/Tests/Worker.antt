-- ===== src/Tests/Worker.antt =====
-- A worker with two compute threads and one downstream, whose first compute thread asks for backups.
use af_stream.Prelude.{◌⊎◌, ◌<◌, ℕ, zero, suc, ◌<◌, ◌≡◌, ◌≢◌, refl, true, List, [], ◌∷◌, ◌++◌}
use af_stream.Fault.Content.{blank}
use af_stream.Worker.{
  waiting_backup, returns, Outcome, moved, blocked, failed, MainStep, asks, returns, ended,
  create_thread, notify_thread, notify_worker, wait_worker, thread_step, wait_thread,
}
use af_stream.Worker.Agreement.{link}
use af_stream.Worker.Start.{
  thread, main_thread, num_threads, Worker, num_threads, left, new_worker, worker_step, make_backup,
  poll, poll_finish, poll_backup, stop_notice, Actor, main_thread, thread, run_actor, Reach, here,
  next,
}
use af_stream.Worker.Sound.{IsDismissed}
use af_stream.Worker.Kept.{never_fails, left_clean}
use af_stream.Worker.Answers.{Moves, WillPoll, Answered}
use af_stream.Worker.Progress.{awaited, no_deadlock}

stepped : Worker → Outcome Worker → Worker
stepped s (moved t) = t
stepped s blocked = s
stepped s failed = s

-- the turns in order; a turn of an actor that waits is lost
unfoldable run_turns : Worker → List Actor → Worker
unfolding stepped
run_turns s [] = s
run_turns s (a ∷ turns) = run_turns (stepped s (run_actor s a)) turns

turns-Reach-case :
    (s t : Worker) (a : Actor) (o : Outcome Worker)
    → Reach s t
    → run_actor t a ≡ o
    → Reach s (stepped t o)
unfolding stepped
turns-Reach-case s t a (moved u) r e = next t u a r e
turns-Reach-case s t a blocked r e = r
turns-Reach-case s t a failed r e = r

run_turns-Reach : (s t : Worker) (turns : List Actor) → Reach s t → Reach s (run_turns t turns)
unfolding run_turns
run_turns-Reach s t [] r = r
run_turns-Reach s t (a ∷ turns) r =
    run_turns-Reach s (stepped t (run_actor t a)) turns
      (turns-Reach-case s t a (run_actor t a) r refl)

abbrev rounds : MainStep → ℕ → List Actor
rounds m zero = []
rounds m (suc k) =
    main_thread ∷ thread 0 returns ∷ thread 1 m ∷ thread 2 returns ∷ thread 3 returns ∷ rounds m k

abbrev at_first : Worker
at_first = new_worker 2 true true true (λ k. blank)

abbrev in_the_middle : Worker
in_the_middle = run_turns at_first (rounds (asks blank) 17)

abbrev at_last : Worker
at_last = run_turns at_first (rounds (asks blank) 17 ++ rounds returns 30)

returned : at_last.pc ≡ left
unfolding run_turns stepped run_actor new_worker worker_step thread_step create_thread notify_thread
    notify_worker wait_worker wait_thread poll poll_finish poll_backup make_backup stop_notice
returned = refl

not_returned : in_the_middle.pc ≢ left
unfolding run_turns stepped run_actor new_worker worker_step thread_step create_thread notify_thread
    notify_worker wait_worker wait_thread poll poll_finish poll_backup make_backup stop_notice
not_returned e = absurd (cc)

never_fails_example : run_actor in_the_middle main_thread ≢ failed
never_fails_example =
    never_fails 2 true true true (λ k. blank) (λ e. refl) in_the_middle
      (run_turns-Reach at_first at_first (rounds (asks blank) 17) here) main_thread

left_clean_example :
    ((i : ℕ) → i < num_threads at_last → at_last.links i ≡ link ended [] []) × IsDismissed at_last
left_clean_example =
    left_clean 2 true true true (λ k. blank) (λ e. refl) at_last
      (run_turns-Reach at_first at_first (rounds (asks blank) 17 ++ rounds returns 30) here)
      returned

no_deadlock_example :
    (Moves (run_actor in_the_middle main_thread)
      ⊎ Moves (
          run_actor in_the_middle
            (thread (awaited in_the_middle.num_compute in_the_middle.pc) returns)))
    × ((i : ℕ)
        → i < num_threads in_the_middle
        → (in_the_middle.links i).pc ≡ waiting_backup
        → Moves (run_actor in_the_middle (thread i returns))
          ⊎ (WillPoll in_the_middle.pc × Answered in_the_middle i))
no_deadlock_example =
    no_deadlock 2 true true true (λ k. blank) (λ e. refl) in_the_middle
      (run_turns-Reach at_first at_first (rounds (asks blank) 17) here) not_returned
