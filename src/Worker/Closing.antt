-- ===== src/Worker/Closing.antt =====
-- The invariant along the end of the program: the last FINISH, the cleaning and the joins.
use af_stream.Prelude.{
  ℕ, ◌+◌, ◌<◌, ◌≡◌, refl, ap, subst, inl, inr, ◌==◌, ltb, if◌then◌else◌, Bool-cases, arith,
}
use af_stream.Worker.{finish, clean, ended, Link, compute, downstream, notify_thread, wait_thread}
use af_stream.Worker.Agreement.{
  Safely, begun, quiet, cleaned, gone, Fits, ordered, wait_gone, wait_down,
}
use af_stream.Worker.Start.{
  awaiting_down, cleaning, awaiting_finish, joining, leaving, Worker, num_threads, kind_of, put,
  make_backup, worker_case,
}
use af_stream.Worker.Sound.{stage_at, Stands, Holds, IsSound, move-Fits, put_all, then_at-Safely}

pub awaiting_down_kept :
    (s : Worker) → Holds s awaiting_down → Safely IsSound (worker_case s awaiting_down)
awaiting_down_kept s v =
    then_at-Safely (Fits compute quiet) IsSound s (n + 1) (cleaning 0)
      (wait_thread finish (s.links (n + 1))) (wait_down (s.links (n + 1)) last)
      (λ l f. record {
        fits =
            put_all (Stands n awaiting_down) (Stands n (cleaning 0)) (num_threads s) (n + 1) l
              s.links
              (λ i h ne g.
                move-Fits (kind_of n i) (stage_at n awaiting_down i) (stage_at n (cleaning 0) i)
                  (s.links i) (ground (arith, v.in_range)) g)
              (move-Fits (kind_of n (n + 1)) quiet (stage_at n (cleaning 0) (n + 1)) l
                (ground arith) f)
              v.fits;
        in_range = ground arith;
        counted = tt;
        client = v.client;
      })
  where
    n : ℕ
    n = s.num_compute

    last : Fits downstream begun (s.links (n + 1))
    last =
        subst (λ k. Fits k begun (s.links (n + 1))) (the_kind)
          (move-Fits (kind_of n (n + 1)) (stage_at n awaiting_down (n + 1)) begun (s.links (n + 1))
            (ground arith) (v.fits (n + 1) (ground (arith, v.in_range))))
      where
        the_kind : kind_of n (n + 1) ≡ downstream
        the_kind = ground arith

pub cleaning_kept :
    (s : Worker) (k : ℕ) → Holds s (cleaning k) → Safely IsSound (worker_case s (cleaning k))
unfolding notify_thread
cleaning_kept s k v = record {
  fits =
      put_all (Stands n (cleaning k)) (Stands n (awaiting_finish k)) (num_threads s) k
        (notify_thread clean (s.links k)) s.links
        (λ i h ne f.
          move-Fits (kind_of n i) (stage_at n (cleaning k) i) (stage_at n (awaiting_finish k) i)
            (s.links i) (ground arith) f)
        (move-Fits (kind_of n k) cleaned (stage_at n (awaiting_finish k) k)
          (notify_thread clean (s.links k)) (ground arith)
          (ordered (
            ap (notify_thread clean) (
              move-Fits (kind_of n k) (stage_at n (cleaning k) k) quiet (s.links k) (ground arith)
                (v.fits k v.in_range)))))
        v.fits;
  in_range = v.in_range;
  counted = tt;
  client = v.client;
}
  where
    n : ℕ
    n = s.num_compute

gone_all :
    (s : Worker) (k : ℕ) (l : Link)
    → Holds s (awaiting_finish k)
    → Fits (kind_of s.num_compute k) gone l
    → (i : ℕ) → i < num_threads s
    → Fits (kind_of s.num_compute i) (if ltb i (k + 1) then gone else quiet) (put k l s.links i)
gone_all s k l v f =
    put_all (Stands n (awaiting_finish k)) (Stands n (cleaning (k + 1))) (num_threads s) k l s.links
      (λ i h ne g.
        move-Fits (kind_of n i) (stage_at n (awaiting_finish k) i) (stage_at n (cleaning (k + 1)) i)
          (s.links i) (ground arith) g)
      (move-Fits (kind_of n k) gone (stage_at n (cleaning (k + 1)) k) l (ground arith) f) v.fits
  where
    n : ℕ
    n = s.num_compute

pub awaiting_finish_kept :
    (s : Worker) (k : ℕ)
    → Holds s (awaiting_finish k)
    → Safely IsSound (worker_case s (awaiting_finish k))
awaiting_finish_kept s k v = elim (Bool-cases (k + 1 == num_threads s)) [
  | inl e ↦ rw e (
      then_at-Safely (Fits compute gone) IsSound s k (joining 0) (wait_thread finish (s.links k))
        waits
        (λ l f. record {
          fits = λ i h.
              move-Fits (kind_of n i) (stage_at n (cleaning (k + 1)) i) gone (put k l s.links i)
                (ground arith) (gone_all s k l v f i h);
          in_range = ground arith;
          counted = tt;
          client = v.client;
        }))
  | inr e ↦ rw e (
      then_at-Safely (Fits compute gone) IsSound s k (cleaning (k + 1))
        (wait_thread finish (s.links k)) waits
        (λ l f. record {
          fits = gone_all s k l v f;
          in_range = ground (arith, v.in_range);
          counted = tt;
          client = v.client;
        }))
]
  where
    n : ℕ
    n = s.num_compute

    waits : Safely (Fits compute gone) (wait_thread finish (s.links k))
    waits = wait_gone (s.links k) (
        move-Fits (kind_of n k) (stage_at n (awaiting_finish k) k) cleaned (s.links k)
          (ground arith) (v.fits k v.in_range))

pub joining_kept :
    (s : Worker) (k : ℕ) → Holds s (joining k) → Safely IsSound (worker_case s (joining k))
joining_kept s k v = elim (Bool-cases (k + 1 == num_threads s)) [
  | inl e ↦
      rw (at_end, e) (record { fits = v.fits; in_range = tt; counted = tt; client = v.client })
  | inr e ↦
      rw (at_end, e)
        (record {
          fits = v.fits;
          in_range = ground (arith, v.in_range);
          counted = tt;
          client = v.client;
        })
]
  where
    at_end : (s.links k).pc ≡ ended
    at_end = ap (λ l. l.pc) (v.fits k v.in_range)

pub leaving_kept : (s : Worker) → Holds s leaving → Safely IsSound (worker_case s leaving)
unfolding make_backup
leaving_kept s v = record {
  fits = v.fits;
  in_range = tt;
  counted = λ h. (s.backups, s.cmd, rw h refl);
  client = v.client;
}
