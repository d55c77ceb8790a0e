-- ===== src/Worker/Sound.antt =====
-- The invariant of the main thread's program and its threads.
use af_stream.Prelude.{
  ℕ, ◌+◌, ◌≤◌, ◌<◌, ◌≡◌, ◌≢◌, sym, subst, true, inl, inr, ◌==◌, leb, ltb, if◌then◌else◌, eq_or_ne,
  List, [], ◌∷◌, ◌++◌,
}
use af_stream.Fault.Item.{BackupItem}
use af_stream.Worker.{ThreadKind, Outcome, moved, blocked, failed, Link}
use af_stream.Worker.Agreement.{
  Safely, Stage, unborn, born, prepared, begun, quiet, cleaned, gone, Fits,
}
use af_stream.Worker.Start.{
  WorkerPc, creating, awaiting_ready, recovering, starting, polling, awaiting_down, cleaning,
  awaiting_finish, joining, leaving, left, Worker, num_threads, kind_of, put, with_link, then_at,
  stop_notice,
}
use af_stream.Worker.Polling.{Polled, count_quiet, put_self, put_ne}

-- the stage of thread i where the main thread is not polling
abbrev pub stage_at : ℕ → WorkerPc → ℕ → Stage
stage_at n (creating k) i = if ltb i k then prepared else unborn
stage_at n (awaiting_ready k) i = if ltb i k then prepared else if i == k then born else unborn
stage_at n recovering i = prepared
stage_at n (starting k) i = if ltb i k then begun else prepared
stage_at n (polling k) i = begun
stage_at n awaiting_down i = if leb i n then quiet else begun
stage_at n (cleaning k) i = if ltb i k then gone else quiet
stage_at n (awaiting_finish k) i = if ltb i k then gone else if i == k then cleaned else quiet
stage_at n (joining k) i = gone
stage_at n leaving i = gone
stage_at n left i = gone

abbrev pub Stands : ℕ → WorkerPc → ℕ → Link → Type 0
Stands n (polling k) i l = Polled n i (kind_of n i) l
Stands n (creating k) i l = Fits (kind_of n i) (stage_at n (creating k) i) l
Stands n (awaiting_ready k) i l = Fits (kind_of n i) (stage_at n (awaiting_ready k) i) l
Stands n recovering i l = Fits (kind_of n i) prepared l
Stands n (starting k) i l = Fits (kind_of n i) (stage_at n (starting k) i) l
Stands n awaiting_down i l = Fits (kind_of n i) (stage_at n awaiting_down i) l
Stands n (cleaning k) i l = Fits (kind_of n i) (stage_at n (cleaning k) i) l
Stands n (awaiting_finish k) i l = Fits (kind_of n i) (stage_at n (awaiting_finish k) i) l
Stands n (joining k) i l = Fits (kind_of n i) gone l
Stands n leaving i l = Fits (kind_of n i) gone l
Stands n left i l = Fits (kind_of n i) gone l

-- The number in the position is that of a thread.
abbrev pub InRange : Worker → WorkerPc → Type 0
InRange s (creating k) = k < num_threads s
InRange s (awaiting_ready k) = k < num_threads s
InRange s recovering = Unit {0}
InRange s (starting k) = k < num_threads s
InRange s (polling k) = k ≤ s.num_compute
InRange s awaiting_down = s.has_down ≡ true
InRange s (cleaning k) = k < num_threads s
InRange s (awaiting_finish k) = k < num_threads s
InRange s (joining k) = k < num_threads s
InRange s leaving = Unit {0}
InRange s left = Unit {0}

-- The last item for the server is the notice to stop.
abbrev pub IsDismissed : Worker → Type 0
IsDismissed s =
    s.has_client ≡ true
    → (bs : List BackupItem) × (b : BackupItem) × (s.backups ≡ bs ++ (stop_notice b ∷ []))

-- `stop` before and in the polling loop, and the end
abbrev pub Counted : Worker → WorkerPc → Type 0
Counted s (creating k) = s.stop ≡ 0
Counted s (awaiting_ready k) = s.stop ≡ 0
Counted s recovering = s.stop ≡ 0
Counted s (starting k) = s.stop ≡ 0
Counted s (polling k) = s.stop ≡ count_quiet s.links (s.num_compute + 1)
Counted s awaiting_down = Unit {0}
Counted s (cleaning k) = Unit {0}
Counted s (awaiting_finish k) = Unit {0}
Counted s (joining k) = Unit {0}
Counted s leaving = Unit {0}
Counted s left = IsDismissed s

-- What holds of s when the main thread is at p; a worker is told to recover only with a client.
pub record Holds (s : Worker) (p : WorkerPc) : Type 0 where
  pub fits : (i : ℕ) → i < num_threads s → Stands s.num_compute p i (s.links i)
  pub in_range : InRange s p
  pub counted : Counted s p
  pub client : s.recovery ≡ true → s.has_client ≡ true

abbrev pub IsSound : Worker → Type 0
IsSound s = Holds s s.pc

pub move-Fits : (k : ThreadKind) (a b : Stage) (l : Link) → a ≡ b → Fits k a l → Fits k b l
move-Fits k a b l e f = subst (λ st. Fits k st l) e f

-- A change at link k, where the others keep what they need.
pub put_all :
    (P Q : ℕ → Link → Type 0) (m k : ℕ) (l : Link) (links : ℕ → Link)
    → ((i : ℕ) → i < m → i ≢ k → P i (links i) → Q i (links i))
    → Q k l
    → ((i : ℕ) → i < m → P i (links i))
    → (i : ℕ) → i < m
    → Q i (put k l links i)
put_all P Q m k l links others at all i h = elim (eq_or_ne k i) [
  | inl e ↦ subst (λ j. Q j (put k l links j)) e (subst (Q k) (sym (put_self k l links)) at)
  | inr ne ↦ subst (Q i) (sym (put_ne k i l links ne)) (others i h (λ e. ne (sym e)) (all i h))
]

pub then_at-Safely :
    (P : Link → Type 0) (Q : Worker → Type 0) (s : Worker) (i : ℕ) (next : WorkerPc)
    (o : Outcome Link)
    → Safely P o
    → ((l : Link) → P l → Q (with_link s i next l))
    → Safely Q (then_at s i next o)
then_at-Safely P Q s i next (moved l) p f = f l p
then_at-Safely P Q s i next blocked p f = tt
then_at-Safely P Q s i next failed p f = p
