-- ===== src/Worker/Round.antt =====
-- The invariant along the polling loop.
use af_stream.Prelude.{
  ℕ, ◌+◌, ◌≤◌, ◌<◌, ◌≡◌, refl, sym, ap, ◌∙◌, subst, true, false, List, [], ◌∷◌, ◌++◌, map, inl, inr,
  ◌==◌, leb, if◌then◌else◌, Bool-cases, arith,
}
use mathlib.Core.List.{append-nil}
use af_stream.Fault.Item.{BackupItem}
use af_stream.Worker.{
  Command, plain, request, finish, backup, running, waiting_backup, waiting_clean, ThreadPc,
  ThreadKind, upstream, compute, downstream, Link, notify_thread,
}
use af_stream.Worker.Agreement.{
  Safely, begun, quiet, Fits, link, IsBegun, told, working, asked, answered, finished, ArePending,
}
use af_stream.Worker.Start.{
  polling, awaiting_down, cleaning, Worker, num_threads, kind_of, put, after_poll, make_backup,
  poll_answer, poll_finish, poll_backup, poll, worker_case,
}
use af_stream.Worker.Polling.{
  is_quiet, Polled, begun_not_quiet, quiet_Polled, begun_Polled, count_quiet_all,
  count_quiet-put_same, count_quiet-put_quiet,
}
use af_stream.Worker.Sound.{stage_at, Stands, Holds, IsSound, move-Fits, put_all}

-- At the end of a round the loop is left only when every thread but the downstream one is quiet.
all_quiet :
    (t : Worker) (k : ℕ)
    → Holds t (polling k)
    → t.stop ≡ t.num_compute + 1
    → (i : ℕ) → i < num_threads t
    → i ≤ t.num_compute
    → Fits (kind_of t.num_compute i) quiet (t.links i)
all_quiet t k v e i h g =
    quiet_Polled t.num_compute i (kind_of t.num_compute i) (t.links i)
      (count_quiet_all t.links (t.num_compute + 1) i (sym v.counted ∙ e) (omega arith)) (v.fits i h)

left_polling :
    (t : Worker) (k : ℕ)
    → Holds t (polling k)
    → t.stop ≡ t.num_compute + 1
    → IsSound (record t { pc = if t.has_down then awaiting_down else cleaning 0 })
left_polling t k v e = elim (Bool-cases t.has_down) [
  | inl d ↦
      subst (λ b. IsSound (record t { pc = if b then awaiting_down else cleaning 0 })) (sym d)
        (record {
          fits = λ i h. elim (Bool-cases (leb i n)) [
            | inl g ↦
                move-Fits (kind_of n i) quiet (stage_at n awaiting_down i) (t.links i)
                  (ground arith) (all_quiet t k v e i h (ground arith))
            | inr g ↦
                move-Fits (kind_of n i) begun (stage_at n awaiting_down i) (t.links i)
                  (ground arith)
                  (begun_Polled n i (kind_of n i) (t.links i) (ground arith) (v.fits i h))
          ];
          in_range = d;
          counted = tt;
          client = v.client;
        })
  | inr d ↦
      subst (λ b. IsSound (record t { pc = if b then awaiting_down else cleaning 0 })) (sym d)
        (record {
          fits = λ i h.
              move-Fits (kind_of n i) quiet (stage_at n (cleaning 0) i) (t.links i) (ground arith)
                (all_quiet t k v e i h (ground arith));
          in_range = ground arith;
          counted = tt;
          client = v.client;
        })
]
  where
    n : ℕ
    n = t.num_compute

after_poll_kept :
    (t : Worker) (k : ℕ) → Holds t (polling k) → IsSound (record t { pc = after_poll t t.stop k })
after_poll_kept t k v = elim (Bool-cases (k == t.num_compute)) [
  | inl e ↦ elim (Bool-cases (t.stop == t.num_compute + 1)) [
    | inl f ↦
        subst IsSound (ap (λ p. record t { pc = p }) (sym (choose e f)))
          (left_polling t k v (ground arith))
    | inr f ↦
        subst IsSound (ap (λ p. record t { pc = p }) (sym (again e f))) (polling_at 0 (omega arith))
  ]
  | inr e ↦
      subst IsSound (ap (λ p. record t { pc = p }) (sym (onward e)))
        (polling_at (k + 1) (ground (arith, v.in_range)))
]
  where
    polling_at : (j : ℕ) → j ≤ t.num_compute → IsSound (record t { pc = polling j })
    polling_at j h = record { fits = v.fits; in_range = h; counted = v.counted; client = v.client }

    choose :
        (k == t.num_compute) ≡ true
        → (t.stop == t.num_compute + 1) ≡ true
        → after_poll t t.stop k ≡ (if t.has_down then awaiting_down else cleaning 0)
    choose e f = rw (e, f) refl

    again :
        (k == t.num_compute) ≡ true
        → (t.stop == t.num_compute + 1) ≡ false
        → after_poll t t.stop k ≡ polling 0
    again e f = rw (e, f) refl

    onward : (k == t.num_compute) ≡ false → after_poll t t.stop k ≡ polling (k + 1)
    onward e = rw e refl

module _ (s : Worker) (k : ℕ) (v : Holds s (polling k)) where
  nothing_kept : (s.links k).to_main ≡ [] → Safely IsSound (poll s k)
  unfolding poll
  nothing_kept e = rw e (after_poll_kept s k v)

  put-Polled :
      (l : Link)
      → Polled s.num_compute k (kind_of s.num_compute k) l
      → (i : ℕ) → i < num_threads s
      → Polled s.num_compute i (kind_of s.num_compute i) (put k l s.links i)
  put-Polled l f =
      put_all (Stands s.num_compute (polling k)) (Stands s.num_compute (polling k)) (num_threads s)
        k l s.links (λ i h ne g. g) f v.fits

  finish_kept :
      (s.links k).to_main ≡ plain finish ∷ []
      → is_quiet (s.links k) ≡ false
      → record (s.links k) { to_main = [] } ≡ link waiting_clean [] []
      → Safely IsSound (poll s k)
  unfolding poll poll_finish
  finish_kept e q f = rw e (
      after_poll_kept
        (record s {
          stop = s.stop + 1;
          cmd = s.stray s.stop;
          links = put k (record (s.links k) { to_main = [] }) s.links;
        })
        k
        (record {
          fits = put-Polled (record (s.links k) { to_main = [] }) (inr (v.in_range, f));
          in_range = v.in_range;
          counted = omega (
            arith,
            v.counted,
            count_quiet-put_quiet s.links k (record (s.links k) { to_main = [] })
                (s.num_compute + 1) (omega (arith, v.in_range)) (ap is_quiet f) q,
          );
          client = v.client;
        }))

  request_kept :
      (b : BackupItem) (rest : List Command)
      → (s.links k).to_main ≡ request b ∷ rest
      → is_quiet (s.links k) ≡ false
      → IsBegun
          (kind_of s.num_compute k)
          (poll_answer (kind_of s.num_compute k) (record (s.links k) { to_main = rest }))
      → Safely IsSound (poll s k)
  unfolding poll poll_backup make_backup
  request_kept b rest e q f = rw e (
      after_poll_kept (record (make_backup b s) { links = put k l' s.links }) k
        (record {
          fits = put-Polled l' (inl f);
          in_range = v.in_range;
          counted =
              v.counted
              ∙ sym (
                  count_quiet-put_same s.links k l' (s.num_compute + 1)
                    (begun_not_quiet (kind_of s.num_compute k) l' f ∙ sym q));
          client = v.client;
        }))
    where
      l' : Link
      l' = poll_answer (kind_of s.num_compute k) (record (s.links k) { to_main = rest })

abbrev holding : List Command → Link → Link
holding cs l = record l { to_main = cs }

-- The state of a thread whose next request is read.
next_request :
    (kind : ThreadKind) (pc : ThreadPc) (b : BackupItem) (bs : List BackupItem) (cs : List Command)
    (l : Link)
    → ArePending kind (b ∷ bs)
    → l ≡ link pc (map request (b ∷ bs) ++ cs) []
    → poll_answer kind (record l { to_main = map request bs ++ cs })
      ≡ link pc (map request bs ++ cs) []
next_request upstream pc b bs cs l p e = ap (holding (map request bs ++ cs)) e
next_request compute pc b bs cs l p e = absurd (cc)
next_request downstream pc b bs cs l p e = absurd (cc)

next_pending :
    (kind : ThreadKind) (b : BackupItem) (bs : List BackupItem)
    → ArePending kind (b ∷ bs)
    → ArePending kind bs
next_pending upstream b bs p = tt
next_pending compute b bs p = absurd (cc)
next_pending downstream b bs p = absurd (cc)

asked_answer :
    (kind : ThreadKind) (b : BackupItem) (l : Link)
    → kind ≡ compute
    → l ≡ link waiting_backup (request b ∷ []) []
    → poll_answer kind (record l { to_main = [] }) ≡ link waiting_backup [] (backup ∷ [])
unfolding notify_thread
asked_answer compute b l q e = ap (λ x. notify_thread backup (holding [] x)) e
asked_answer upstream b l q e = absurd (cc)
asked_answer downstream b l q e = absurd (cc)

polled_begun :
    (s : Worker) (k : ℕ)
    → Holds s (polling k)
    → IsBegun (kind_of s.num_compute k) (s.links k)
    → is_quiet (s.links k) ≡ false
    → Safely IsSound (poll s k)
polled_begun s k v (told e) q = nothing_kept s k v (ap (λ l. l.to_main) e)
polled_begun s k v (working [] p e) q = nothing_kept s k v (ap (λ l. l.to_main) e)
polled_begun s k v (working (b ∷ bs) p e) q =
    let e' = e ∙ ap (λ c. link running c []) (sym (append-nil (map request (b ∷ bs)))) in
    request_kept s k v b (map request bs ++ []) (ap (λ l. l.to_main) e') q (
      working bs (next_pending (kind_of s.num_compute k) b bs p) (
        next_request (kind_of s.num_compute k) running b bs [] (s.links k) p e'
        ∙ ap (λ c. link running c []) (append-nil (map request bs))))
polled_begun s k v (asked b c e) q =
    request_kept s k v b [] (ap (λ l. l.to_main) e) q
      (answered c (asked_answer (kind_of s.num_compute k) b (s.links k) c e))
polled_begun s k v (answered c e) q = nothing_kept s k v (ap (λ l. l.to_main) e)
polled_begun s k v (finished [] p e) q =
    finish_kept s k v (ap (λ l. l.to_main) e) q (ap (holding []) e)
polled_begun s k v (finished (b ∷ bs) p e) q =
    request_kept s k v b (map request bs ++ (plain finish ∷ [])) (ap (λ l. l.to_main) e) q (
      finished bs (next_pending (kind_of s.num_compute k) b bs p) (
        next_request (kind_of s.num_compute k) waiting_clean b bs (plain finish ∷ []) (s.links k) p
          e))

pub polling_kept :
    (s : Worker) (k : ℕ) → Holds s (polling k) → Safely IsSound (worker_case s (polling k))
polling_kept s k v = elim (v.fits k (ground (arith, v.in_range))) [
  | inl b ↦ polled_begun s k v b (begun_not_quiet (kind_of s.num_compute k) (s.links k) b)
  | inr (h, e) ↦ nothing_kept s k v (ap (λ l. l.to_main) e)
]
