-- ===== src/Worker/Opening.antt =====
-- The invariant along the creation and the start of the threads.
use af_stream.Prelude.{
  ℕ, ◌+◌, ◌<◌, ◌≡◌, refl, sym, ap, ◌∙◌, Bool, true, false, inl, inr, ◌==◌, ltb, if◌then◌else◌,
  Bool-cases, arith, ◌&&◌, subst,
}
use af_stream.Worker.{
  ready, Link, Outcome, moved, failed, create_thread, notify_thread, wait_thread,
}
use af_stream.Worker.Agreement.{
  Safely, unborn, born, prepared, begun, Fits, preparing, told, wait_ready,
}
use af_stream.Worker.Start.{
  creating, awaiting_ready, recovering, starting, Worker, num_threads, kind_of, put, worker_case,
}
use af_stream.Worker.Polling.{begun_not_quiet, count_quiet_none}
use af_stream.Worker.Sound.{stage_at, Stands, Holds, IsSound, move-Fits, put_all, then_at-Safely}

pub creating_kept :
    (s : Worker) (k : ℕ) → Holds s (creating k) → Safely IsSound (worker_case s (creating k))
unfolding create_thread
creating_kept s k v = record {
  fits =
      put_all (Stands n (creating k)) (Stands n (awaiting_ready k)) (num_threads s) k
        (create_thread (s.links k)) s.links
        (λ i h ne f.
          move-Fits (kind_of n i) (stage_at n (creating k) i) (stage_at n (awaiting_ready k) i)
            (s.links i) (ground arith) f)
        (move-Fits (kind_of n k) born (stage_at n (awaiting_ready k) k) (create_thread (s.links k))
          (ground arith) (preparing (ap create_thread old)))
        v.fits;
  in_range = v.in_range;
  counted = v.counted;
  client = v.client;
}
  where
    n : ℕ
    n = s.num_compute

    old : Fits (kind_of n k) unborn (s.links k)
    old =
        move-Fits (kind_of n k) (stage_at n (creating k) k) unborn (s.links k) (ground arith)
          (v.fits k v.in_range)

-- After the answer of thread k: on to the next, or to the recovery.
prepared_all :
    (s : Worker) (k : ℕ) (l : Link)
    → Holds s (awaiting_ready k)
    → Fits (kind_of s.num_compute k) prepared l
    → (i : ℕ) → i < num_threads s
    → Fits
        (kind_of s.num_compute i)
        (if ltb i (k + 1) then prepared else unborn)
        (put k l s.links i)
prepared_all s k l v f =
    put_all (Stands n (awaiting_ready k)) (Stands n (creating (k + 1))) (num_threads s) k l s.links
      (λ i h ne g.
        move-Fits (kind_of n i) (stage_at n (awaiting_ready k) i) (stage_at n (creating (k + 1)) i)
          (s.links i) (ground arith) g)
      (move-Fits (kind_of n k) prepared (stage_at n (creating (k + 1)) k) l (ground arith) f) v.fits
  where
    n : ℕ
    n = s.num_compute

pub awaiting_ready_kept :
    (s : Worker) (k : ℕ)
    → Holds s (awaiting_ready k)
    → Safely IsSound (worker_case s (awaiting_ready k))
awaiting_ready_kept s k v = elim (Bool-cases (k + 1 == num_threads s)) [
  | inl e ↦ rw e (
      then_at-Safely (Fits (kind_of n k) prepared) IsSound s k recovering
        (wait_thread ready (s.links k)) waits
        (λ l f. record {
          fits = λ i h.
              move-Fits (kind_of n i) (stage_at n (creating (k + 1)) i) prepared (put k l s.links i)
                (ground arith) (prepared_all s k l v f i h);
          in_range = tt;
          counted = v.counted;
          client = v.client;
        }))
  | inr e ↦ rw e (
      then_at-Safely (Fits (kind_of n k) prepared) IsSound s k (creating (k + 1))
        (wait_thread ready (s.links k)) waits
        (λ l f. record {
          fits = prepared_all s k l v f;
          in_range = ground (arith, v.in_range);
          counted = v.counted;
          client = v.client;
        }))
]
  where
    n : ℕ
    n = s.num_compute

    waits : Safely (Fits (kind_of n k) prepared) (wait_thread ready (s.links k))
    waits = wait_ready (s.links k) (
        move-Fits (kind_of n k) (stage_at n (awaiting_ready k) k) born (s.links k) (ground arith)
          (v.fits k v.in_range))

pub can_recover :
    (r c : Bool) (o : Outcome Worker)
    → (r ≡ true → c ≡ true)
    → (if r && (if c then false else true) then failed else o) ≡ o
can_recover false c o h = refl
can_recover true true o h = refl
can_recover true false o h = absurd (cc (h refl))

pub recovering_kept : (s : Worker) → Holds s recovering → Safely IsSound (worker_case s recovering)
recovering_kept s v =
    subst (Safely IsSound)
      (sym (can_recover s.recovery s.has_client (moved (record s { pc = starting 0 })) v.client))
      (record {
        fits = λ i h.
            move-Fits (kind_of s.num_compute i) prepared (stage_at s.num_compute (starting 0) i)
              (s.links i) (ground arith) (v.fits i h);
        in_range = ground arith;
        counted = v.counted;
        client = v.client;
      })

begun_all :
    (s : Worker) (k : ℕ)
    → Holds s (starting k)
    → (i : ℕ) → i < num_threads s
    → Fits
        (kind_of s.num_compute i)
        (if ltb i (k + 1) then begun else prepared)
        (put k (notify_thread ready (s.links k)) s.links i)
unfolding notify_thread
begun_all s k v =
    put_all (Stands n (starting k)) (Stands n (starting (k + 1))) (num_threads s) k
      (notify_thread ready (s.links k)) s.links
      (λ i h ne g.
        move-Fits (kind_of n i) (stage_at n (starting k) i) (stage_at n (starting (k + 1)) i)
          (s.links i) (ground arith) g)
      (move-Fits (kind_of n k) begun (stage_at n (starting (k + 1)) k)
        (notify_thread ready (s.links k)) (ground arith)
        (told (
          ap (notify_thread ready) (
            move-Fits (kind_of n k) (stage_at n (starting k) k) prepared (s.links k) (ground arith)
              (v.fits k v.in_range)))))
      v.fits
  where
    n : ℕ
    n = s.num_compute

pub starting_kept :
    (s : Worker) (k : ℕ) → Holds s (starting k) → Safely IsSound (worker_case s (starting k))
starting_kept s k v = elim (Bool-cases (k + 1 == num_threads s)) [
  | inl e ↦
      let begun_link : (i : ℕ) → i < num_threads s → Fits (kind_of n i) begun (links' i) = λ i h.
        move-Fits (kind_of n i) (stage_at n (starting (k + 1)) i) begun (links' i) (ground arith)
          (begun_all s k v i h) in
      rw e (record {
        fits = λ i h. inl (begun_link i h);
        in_range = omega arith;
        counted =
            v.counted
            ∙ sym (
                count_quiet_none links' (n + 1)
                  (λ i h. begun_not_quiet (kind_of n i) (links' i) (begun_link i (ground arith))));
        client = v.client;
      })
  | inr e ↦ rw e (record {
    fits = begun_all s k v;
    in_range = ground (arith, v.in_range);
    counted = v.counted;
    client = v.client;
  })
]
  where
    n : ℕ
    n = s.num_compute

    links' : ℕ → Link
    links' = put k (notify_thread ready (s.links k)) s.links
