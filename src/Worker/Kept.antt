-- ===== src/Worker/Kept.antt =====
-- Every interleaving of a worker's threads keeps the invariant, and none fails.
use af_stream.Prelude.{
  ℕ, ◌+◌, ◌<◌, ◌≡◌, ◌≢◌, refl, sym, ◌∙◌, subst, [], Bool, true, inl, inr, ltb, Bool-cases, arith,
}
use af_stream.Fault.Item.{BackupItem}
use af_stream.Worker.{
  Outcome, moved, blocked, failed, Link, MainStep, ended, wait_worker, thread_step,
}
use af_stream.Worker.Agreement.{
  Safely, Stage, link, unborn, Fits, begun, prepared, gone, IsBegun, thread_step-Fits,
}
use af_stream.Worker.Start.{
  WorkerPc, creating, awaiting_ready, recovering, starting, polling, awaiting_down, cleaning,
  awaiting_finish, joining, leaving, left, Worker, num_threads, kind_of, with_link, then_at,
  new_worker, no_link, worker_case, worker_step, Actor, main_thread, thread, run_actor, Reach, here,
  next,
}
use af_stream.Worker.Polling.{Polled, is_quiet, begun_not_quiet, count_quiet-put_same}
use af_stream.Worker.Sound.{
  stage_at, Stands, InRange, Counted, IsDismissed, Holds, IsSound, move-Fits, put_all,
  then_at-Safely,
}
use af_stream.Worker.Opening.{creating_kept, awaiting_ready_kept, recovering_kept, starting_kept}
use af_stream.Worker.Round.{polling_kept}
use af_stream.Worker.Closing.{
  awaiting_down_kept, cleaning_kept, awaiting_finish_kept, joining_kept, leaving_kept,
}

worker_case_kept : (s : Worker) (p : WorkerPc) → Holds s p → Safely IsSound (worker_case s p)
worker_case_kept s (creating k) v = creating_kept s k v
worker_case_kept s (awaiting_ready k) v = awaiting_ready_kept s k v
worker_case_kept s recovering v = recovering_kept s v
worker_case_kept s (starting k) v = starting_kept s k v
worker_case_kept s (polling k) v = polling_kept s k v
worker_case_kept s awaiting_down v = awaiting_down_kept s v
worker_case_kept s (cleaning k) v = cleaning_kept s k v
worker_case_kept s (awaiting_finish k) v = awaiting_finish_kept s k v
worker_case_kept s (joining k) v = joining_kept s k v
worker_case_kept s leaving v = leaving_kept s v
worker_case_kept s left v = tt

-- What `stop` counts is not changed by a thread's step.
abbrev Steady : WorkerPc → Link → Link → Type 0
Steady (polling k) l l' = is_quiet l' ≡ is_quiet l
Steady (creating k) l l' = Unit {0}
Steady (awaiting_ready k) l l' = Unit {0}
Steady recovering l l' = Unit {0}
Steady (starting k) l l' = Unit {0}
Steady awaiting_down l l' = Unit {0}
Steady (cleaning k) l l' = Unit {0}
Steady (awaiting_finish k) l l' = Unit {0}
Steady (joining k) l l' = Unit {0}
Steady leaving l l' = Unit {0}
Steady left l l' = Unit {0}

Safely-map :
    {A : Type 0} (P Q : A → Type 0) (o : Outcome A)
    → ((a : A) → P a → Q a)
    → Safely P o
    → Safely Q o
Safely-map P Q (moved a) f p = f a p
Safely-map P Q blocked f p = tt
Safely-map P Q failed f p = p

Polled-step :
    (n i : ℕ) (m : MainStep) (l : Link)
    → Polled n i (kind_of n i) l
    → Safely
        (λ l'. Polled n i (kind_of n i) l' × (is_quiet l' ≡ is_quiet l))
        (thread_step (kind_of n i) m l)
unfolding thread_step wait_worker
Polled-step n i m l (inl b) =
    Safely-map (IsBegun (kind_of n i))
      (λ l'. Polled n i (kind_of n i) l' × (is_quiet l' ≡ is_quiet l))
      (thread_step (kind_of n i) m l)
      (λ l' b'.
        (inl b', begun_not_quiet (kind_of n i) l' b' ∙ sym (begun_not_quiet (kind_of n i) l b)))
      (thread_step-Fits (kind_of n i) begun m l b)
Polled-step n i m l (inr (h, e)) =
    subst
      (λ l.
        Safely (λ l'. Polled n i (kind_of n i) l' × (is_quiet l' ≡ is_quiet l))
          (thread_step (kind_of n i) m l))
      (sym e) tt

Fits-step :
    (n i : ℕ) (st : Stage) (m : MainStep) (l : Link)
    → Fits (kind_of n i) st l
    → Safely (λ l'. Fits (kind_of n i) st l' × Unit {0}) (thread_step (kind_of n i) m l)
Fits-step n i st m l f =
    Safely-map (Fits (kind_of n i) st) (λ l'. Fits (kind_of n i) st l' × Unit {0})
      (thread_step (kind_of n i) m l) (λ l' g. (g, tt)) (thread_step-Fits (kind_of n i) st m l f)

Stands-step :
    (n : ℕ) (p : WorkerPc) (i : ℕ) (m : MainStep) (l : Link)
    → Stands n p i l
    → Safely (λ l'. Stands n p i l' × Steady p l l') (thread_step (kind_of n i) m l)
Stands-step n (polling k) i m l f = Polled-step n i m l f
Stands-step n (creating k) i m l f = Fits-step n i (stage_at n (creating k) i) m l f
Stands-step n (awaiting_ready k) i m l f = Fits-step n i (stage_at n (awaiting_ready k) i) m l f
Stands-step n recovering i m l f = Fits-step n i prepared m l f
Stands-step n (starting k) i m l f = Fits-step n i (stage_at n (starting k) i) m l f
Stands-step n awaiting_down i m l f = Fits-step n i (stage_at n awaiting_down i) m l f
Stands-step n (cleaning k) i m l f = Fits-step n i (stage_at n (cleaning k) i) m l f
Stands-step n (awaiting_finish k) i m l f = Fits-step n i (stage_at n (awaiting_finish k) i) m l f
Stands-step n (joining k) i m l f = Fits-step n i gone m l f
Stands-step n leaving i m l f = Fits-step n i gone m l f
Stands-step n left i m l f = Fits-step n i gone m l f

InRange-step :
    (s : Worker) (p q : WorkerPc) (i : ℕ) (l : Link) → InRange s p → InRange (with_link s i q l) p
InRange-step s (polling k) q i l h = h
InRange-step s (creating k) q i l h = h
InRange-step s (awaiting_ready k) q i l h = h
InRange-step s recovering q i l h = h
InRange-step s (starting k) q i l h = h
InRange-step s awaiting_down q i l h = h
InRange-step s (cleaning k) q i l h = h
InRange-step s (awaiting_finish k) q i l h = h
InRange-step s (joining k) q i l h = h
InRange-step s leaving q i l h = h
InRange-step s left q i l h = h

Counted-step :
    (s : Worker) (p q : WorkerPc) (i : ℕ) (l : Link)
    → Counted s p
    → Steady p (s.links i) l
    → Counted (with_link s i q l) p
Counted-step s (polling k) q i l e f =
    e ∙ sym (count_quiet-put_same s.links i l (s.num_compute + 1) f)
Counted-step s (creating k) q i l e f = e
Counted-step s (awaiting_ready k) q i l e f = e
Counted-step s recovering q i l e f = e
Counted-step s (starting k) q i l e f = e
Counted-step s awaiting_down q i l e f = tt
Counted-step s (cleaning k) q i l e f = tt
Counted-step s (awaiting_finish k) q i l e f = tt
Counted-step s (joining k) q i l e f = tt
Counted-step s leaving q i l e f = tt
Counted-step s left q i l e f = e

thread_kept :
    (s : Worker) (i : ℕ) (m : MainStep)
    → IsSound s
    → i < num_threads s
    → Safely IsSound (then_at s i s.pc (thread_step (kind_of s.num_compute i) m (s.links i)))
thread_kept s i m v h =
    then_at-Safely (λ l. Stands s.num_compute s.pc i l × Steady s.pc (s.links i) l) IsSound s i s.pc
      (thread_step (kind_of s.num_compute i) m (s.links i))
      (Stands-step s.num_compute s.pc i m (s.links i) (v.fits i h))
      (λ l (f, g). record {
        fits =
            put_all (Stands s.num_compute s.pc) (Stands s.num_compute s.pc) (num_threads s) i l
              s.links (λ j hj ne q. q) f v.fits;
        in_range = InRange-step s s.pc s.pc i l v.in_range;
        counted = Counted-step s s.pc s.pc i l v.counted g;
        client = v.client;
      })

pub run_actor-IsSound : (s : Worker) (a : Actor) → IsSound s → Safely IsSound (run_actor s a)
unfolding run_actor worker_step
run_actor-IsSound s main_thread v = worker_case_kept s s.pc v
run_actor-IsSound s (thread i m) v = elim (Bool-cases (ltb i (num_threads s))) [
  | inl e ↦ rw e (thread_kept s i m v (ground arith))
  | inr e ↦ rw e tt
]

pub new_worker-IsSound :
    (n : ℕ) (down client recovery : Bool) (b : ℕ → BackupItem)
    → (recovery ≡ true → client ≡ true)
    → IsSound (new_worker n down client recovery b)
unfolding new_worker
new_worker-IsSound n down client recovery b h = record {
  fits =
      λ i g. move-Fits (kind_of n i) unborn (stage_at n (creating 0) i) no_link (ground arith) refl;
  in_range = ground arith;
  counted = refl;
  client = h;
}

pub Reach-IsSound : (s t : Worker) → IsSound s → Reach s t → IsSound t
Reach-IsSound s _ v here = v
Reach-IsSound s _ v (next u t a r e) =
    subst (Safely IsSound) e (run_actor-IsSound u a (Reach-IsSound s u v r))

-- A worker that is told to recover only if it has a backup server: whatever the order in which its
-- threads run and whatever they ask to be backed up, no assertion on a message fails.
pub never_fails :
    (n : ℕ) (down client recovery : Bool) (b : ℕ → BackupItem)
    → (recovery ≡ true → client ≡ true)
    → (s : Worker) → Reach (new_worker n down client recovery b) s
    → (a : Actor) → run_actor s a ≢ failed
never_fails n down client recovery b h s r a e = subst (Safely IsSound) e (
    run_actor-IsSound s a (
      Reach-IsSound (new_worker n down client recovery b) s
        (new_worker-IsSound n down client recovery b h) r))

-- When `Start` returns, in whichever order the threads ran, each has ended with its mailboxes empty,
-- and the last item for the backup server, if there is one, is the notice to stop.
pub left_clean :
    (n : ℕ) (down client recovery : Bool) (b : ℕ → BackupItem)
    → (recovery ≡ true → client ≡ true)
    → (s : Worker) → Reach (new_worker n down client recovery b) s
    → s.pc ≡ left
    → ((i : ℕ) → i < num_threads s → s.links i ≡ link ended [] []) × IsDismissed s
left_clean n down client recovery b h s r e =
    let v : Holds s left = subst (Holds s) e (
      Reach-IsSound (new_worker n down client recovery b) s
        (new_worker-IsSound n down client recovery b h) r) in
    (v.fits, v.counted)
