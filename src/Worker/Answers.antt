-- ===== src/Worker/Answers.antt =====
-- A compute thread that waits for the answer to its backup request gets it.
use af_stream.Prelude.{
  ℕ, ◌<◌, ◌≡◌, refl, sym, ap, ◌∙◌, true, false, ◌⊎◌, inl, inr, [], ◌∷◌, ◌≢◌, Bool, ◌==◌, ==_self,
  leb, ltb, if◌then◌else◌, Bool-cases, arith,
}
use Prim.{⊥}
use af_stream.Fault.Item.{BackupItem}
use af_stream.Worker.{
  waiting_backup, Outcome, moved, blocked, failed, Link, backup, request, returns, ThreadKind,
  compute, downstream, thread_step, wait_worker, notify_thread,
}
use af_stream.Worker.Agreement.{
  Stage, unborn, born, prepared, begun, quiet, cleaned, gone, Fits, link, preparing, announced,
  told, working, asked, answered, finished, ordered, tidying, signed_off,
}
use af_stream.Worker.Start.{
  WorkerPc, creating, awaiting_ready, recovering, starting, polling, awaiting_down, cleaning,
  awaiting_finish, joining, leaving, left, then_at, Worker, num_threads, kind_of, poll, poll_backup,
  poll_case, make_backup, with_link, after_poll, thread, run_actor,
}
use af_stream.Worker.Sound.{stage_at, Holds, IsSound}

abbrev pub Moves : {A : Type 0} → Outcome A → Type 0
Moves (moved a) = Unit {0}
Moves blocked = ⊥
Moves failed = ⊥

pub then_at-Moves :
    (s : Worker) (i : ℕ) (p : WorkerPc) (o : Outcome Link) → Moves o → Moves (then_at s i p o)
then_at-Moves s i p (moved l) h = tt
then_at-Moves s i p blocked h = h
then_at-Moves s i p failed h = h

pub thread-Moves :
    (s : Worker) (i : ℕ)
    → i < num_threads s
    → Moves (thread_step (kind_of s.num_compute i) returns (s.links i))
    → Moves (run_actor s (thread i returns))
unfolding run_actor
thread-Moves s i h m = elim (Bool-cases (ltb i (num_threads s))) [
  | inl e ↦
      rw e (then_at-Moves s i s.pc (thread_step (kind_of s.num_compute i) returns (s.links i)) m)
  | inr e ↦ absurd (ground arith)
]

-- What a thread that waits for an answer and its mailboxes are like.
data Awaiting (kind : ThreadKind) (l : Link) : Type 0 where
  unread :
      (b : BackupItem)
      → kind ≡ compute
      → l ≡ link waiting_backup (request b ∷ []) []
      → Awaiting kind l
  told_back : kind ≡ compute → l ≡ link waiting_backup [] (backup ∷ []) → Awaiting kind l

waiting_case :
    (kind : ThreadKind) (st : Stage) (l : Link)
    → Fits kind st l
    → l.pc ≡ waiting_backup
    → (st ≡ begun) × Awaiting kind l
waiting_case kind unborn l e w = absurd (cc (ap (λ l. l.pc) e, w))
waiting_case kind born l (preparing e) w = absurd (cc (ap (λ l. l.pc) e, w))
waiting_case kind born l (announced e) w = absurd (cc (ap (λ l. l.pc) e, w))
waiting_case kind prepared l e w = absurd (cc (ap (λ l. l.pc) e, w))
waiting_case kind begun l (told e) w = absurd (cc (ap (λ l. l.pc) e, w))
waiting_case kind begun l (working bs p e) w = absurd (cc (ap (λ l. l.pc) e, w))
waiting_case kind begun l (asked b k e) w = (refl, unread b k e)
waiting_case kind begun l (answered k e) w = (refl, told_back k e)
waiting_case kind begun l (finished bs p e) w = absurd (cc (ap (λ l. l.pc) e, w))
waiting_case kind quiet l e w = absurd (cc (ap (λ l. l.pc) e, w))
waiting_case kind cleaned l (ordered e) w = absurd (cc (ap (λ l. l.pc) e, w))
waiting_case kind cleaned l (tidying e) w = absurd (cc (ap (λ l. l.pc) e, w))
waiting_case kind cleaned l (signed_off e) w = absurd (cc (ap (λ l. l.pc) e, w))
waiting_case kind gone l e w = absurd (cc (ap (λ l. l.pc) e, w))

-- The main thread has its polling loop before it or is in it.
abbrev pub WillPoll : WorkerPc → Type 0
WillPoll (starting k) = Unit {0}
WillPoll (polling k) = Unit {0}
WillPoll (creating k) = ⊥
WillPoll (awaiting_ready k) = ⊥
WillPoll recovering = ⊥
WillPoll awaiting_down = ⊥
WillPoll (cleaning k) = ⊥
WillPoll (awaiting_finish k) = ⊥
WillPoll (joining k) = ⊥
WillPoll leaving = ⊥
WillPoll left = ⊥

neither : (b : Bool) {x y : Stage} → x ≢ begun → y ≢ begun → (if b then x else y) ≢ begun
neither true p q = p
neither false p q = q

-- At each stage of the main thread
module _ (s : Worker) (i : ℕ) (w : (s.links i).pc ≡ waiting_backup) where
  abbrev kind : ThreadKind
  kind = kind_of s.num_compute i

  at_stage : (st : Stage) → Fits kind st (s.links i) → st ≢ begun → ⊥
  at_stage st f ne = ne (waiting_case kind st (s.links i) f w).0

  down_not_begun : (n : ℕ) → Fits (kind_of n i) (stage_at n awaiting_down i) (s.links i) → ⊥
  down_not_begun n f =
      let (e, a) = waiting_case (kind_of n i) (stage_at n awaiting_down i) (s.links i) f w in
      let c : kind_of n i ≡ compute = is_compute a in
      elim (Bool-cases (leb i n)) [
        | inl g ↦ let q : quiet ≡ begun = sym (ap (λ b. if b then quiet else begun) g) ∙ e in cc
        | inr g ↦ let d : kind_of n i ≡ downstream = ground (arith, g) in absurd (cc (c, d))
      ]
    where
      is_compute : {k : ThreadKind} {l : Link} → Awaiting k l → k ≡ compute
      is_compute (unread b c e) = c
      is_compute (told_back c e) = c

  waits : (p : WorkerPc) → Holds s p → i < num_threads s → WillPoll p × Awaiting kind (s.links i)
  waits (creating k) v h = absurd (
      at_stage (stage_at s.num_compute (creating k) i) (v.fits i h)
        (neither (ltb i k) (λ e. cc) (λ e. cc)))
  waits (awaiting_ready k) v h = absurd (
      at_stage (stage_at s.num_compute (awaiting_ready k) i) (v.fits i h)
        (neither (ltb i k) (λ e. cc) (neither (i == k) (λ e. cc) (λ e. cc))))
  waits recovering v h = absurd (at_stage prepared (v.fits i h) (λ e. cc))
  waits (starting k) v h =
      (tt, (waiting_case kind (stage_at s.num_compute (starting k) i) (s.links i) (v.fits i h) w).1)
  waits (polling k) v h = elim (v.fits i h) [
    | inl b ↦ (tt, (waiting_case kind begun (s.links i) b w).1)
    | inr q ↦ (tt, (waiting_case kind quiet (s.links i) q.1 w).1)
  ]
  waits awaiting_down v h = absurd (down_not_begun s.num_compute (v.fits i h))
  waits (cleaning k) v h = absurd (
      at_stage (stage_at s.num_compute (cleaning k) i) (v.fits i h)
        (neither (ltb i k) (λ e. cc) (λ e. cc)))
  waits (awaiting_finish k) v h = absurd (
      at_stage (stage_at s.num_compute (awaiting_finish k) i) (v.fits i h)
        (neither (ltb i k) (λ e. cc) (neither (i == k) (λ e. cc) (λ e. cc))))
  waits (joining k) v h = absurd (at_stage gone (v.fits i h) (λ e. cc))
  waits leaving v h = absurd (at_stage gone (v.fits i h) (λ e. cc))
  waits left v h = absurd (at_stage gone (v.fits i h) (λ e. cc))

-- The poll of thread i succeeds, and the thread can go on after it.
abbrev pub Answered : Worker → ℕ → Type 0
Answered s i = (t : Worker) × (poll s i ≡ moved t) × Moves (run_actor t (thread i returns))

Answered-unread :
    (s : Worker) (i : ℕ) (b : BackupItem)
    → i < num_threads s
    → kind_of s.num_compute i ≡ compute
    → s.links i ≡ link waiting_backup (request b ∷ []) []
    → Answered s i
unfolding poll poll_backup make_backup thread_step notify_thread wait_worker
Answered-unread s i b h c e =
    let l' = notify_thread backup (record (s.links i) { to_main = [] }) in
    let t = with_link (make_backup b s) i (after_poll s s.stop i) l' in
    (
      t,
      ap (poll_case s i) (ap (λ l. l.to_main) e) ∙ rw c refl,
      thread-Moves t i h (rw (c, ==_self i, e) tt),
    )

pub waiter-Answered :
    (s : Worker) (i : ℕ)
    → IsSound s
    → i < num_threads s
    → (s.links i).pc ≡ waiting_backup
    → Moves (run_actor s (thread i returns)) ⊎ (WillPoll s.pc × Answered s i)
unfolding thread_step wait_worker
waiter-Answered s i v h w =
    let (before, a) = waits s i w s.pc v h in
    elim a [
      | unread b c e ↦ inr (before, Answered-unread s i b h c e)
      | told_back c e ↦ inl (thread-Moves s i h (rw (c, e) tt))
    ]
