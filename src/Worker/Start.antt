-- ===== src/Worker/Start.antt =====
-- worker.hpp, `Worker::Start`: the main thread of a worker, as a program over the links to its
-- threads: the upstream thread is link 0, the compute threads are links 1 to `num_compute`, and the
-- downstream thread, if there is one, is the link after them. `run_actor` runs one step of the main
-- thread or of one of the others. The addresses of the servers, the ids of the threads and their
-- processors are left out.
use af_stream.Prelude.{
  ℕ, ◌+◌, ◌≡◌, Bool, true, false, ◌&&◌, List, [], ◌∷◌, ◌++◌, ◌==◌, leb, ltb, if◌then◌else◌,
}
use af_stream.Fault.Item.{BackupItem}
use af_stream.Worker.{
  CommandType, any, ready, clean, finish, backup, more, done, Command, plain, request, type_of,
  Outcome, moved, blocked, failed, ThreadPc, absent, ended, ThreadKind, upstream, compute,
  downstream, MainStep, Link, create_thread, notify_thread, thread_step, wait_thread,
}

-- where the main thread is in `Start`; the number is that of the link it is at
pub data WorkerPc : Type 0 where
  creating : ℕ → WorkerPc
  awaiting_ready : ℕ → WorkerPc
  recovering : WorkerPc
  starting : ℕ → WorkerPc
  polling : ℕ → WorkerPc
  awaiting_down : WorkerPc
  cleaning : ℕ → WorkerPc
  awaiting_finish : ℕ → WorkerPc
  joining : ℕ → WorkerPc
  leaving : WorkerPc
  left : WorkerPc

-- `backups` are the items given to `MakeBackup`, in order; `cmd` is the item in the last command
-- received; `stray` is what a command sent without an item has there, after so many threads have
-- finished.
pub record Worker : Type 0 where
  pub num_compute : ℕ
  pub has_down : Bool
  pub has_client : Bool
  pub recovery : Bool
  pub pc : WorkerPc
  pub stop : ℕ
  pub cmd : BackupItem
  pub stray : ℕ → BackupItem
  pub backups : List BackupItem
  pub links : ℕ → Link

abbrev pub no_link : Link
no_link = record { pc = absent; to_main = []; to_thread = [] }

-- the constructor with the `Add` calls, before `Start`
unfoldable pub new_worker : ℕ → Bool → Bool → Bool → (ℕ → BackupItem) → Worker
new_worker n down client recovery indeterminate = record {
  num_compute = n;
  has_down = down;
  has_client = client;
  recovery = recovery;
  pc = creating 0;
  stop = 0;
  cmd = indeterminate 0;
  stray = λ k. indeterminate (k + 1);
  backups = [];
  links = λ _. no_link;
}

abbrev pub num_threads : Worker → ℕ
num_threads s = if s.has_down then s.num_compute + 2 else s.num_compute + 1

abbrev pub kind_of : ℕ → ℕ → ThreadKind
kind_of n i = if i == 0 then upstream else if leb i n then compute else downstream

abbrev pub put : ℕ → Link → (ℕ → Link) → ℕ → Link
put i l links j = if i == j then l else links j

abbrev pub with_link : Worker → ℕ → WorkerPc → Link → Worker
with_link s i next l = record s { pc = next; links = put i l s.links }

-- A step at link i that a wait can block.
abbrev pub then_at : Worker → ℕ → WorkerPc → Outcome Link → Outcome Worker
then_at s i next (moved l) = moved (with_link s i next l)
then_at s i next blocked = blocked
then_at s i next failed = failed

-- the loops over the threads: what comes after link i
abbrev pub each : Worker → ℕ → (ℕ → WorkerPc) → WorkerPc → WorkerPc
each s i again after = if i + 1 == num_threads s then after else again (i + 1)

-- The end of a round of the polling loop, after link `num_compute`.
abbrev pub after_poll : Worker → ℕ → ℕ → WorkerPc
after_poll s stop i =
    if i == s.num_compute
    then if stop == s.num_compute + 1
      then if s.has_down then awaiting_down else cleaning 0
      else polling 0
    else polling (i + 1)

unfoldable pub make_backup : BackupItem → Worker → Worker
make_backup b s = record s {
  cmd = b;
  backups = if s.has_client then s.backups ++ (b ∷ []) else s.backups;
}

-- the answer to a request: the upstream thread gets none
abbrev pub poll_answer : ThreadKind → Link → Link
poll_answer upstream l = l
poll_answer compute l = notify_thread backup l
poll_answer downstream l = l

-- The branches of the polling loop on the type of the command that a non-blocking `WaitThread` took
-- from link i; `rest` is what the mailbox still holds, and `b` the item in the command.
unfoldable pub poll_finish : Worker → ℕ → List Command → BackupItem → Outcome Worker
poll_finish s i rest b = moved (
    with_link (record s { stop = s.stop + 1; cmd = b }) i (after_poll s (s.stop + 1) i)
      (record (s.links i) { to_main = rest }))

unfoldable pub poll_backup : Worker → ℕ → List Command → BackupItem → Outcome Worker
poll_backup s i rest b = moved (
    with_link (make_backup b s) i (after_poll s s.stop i)
      (poll_answer (kind_of s.num_compute i) (record (s.links i) { to_main = rest })))

abbrev pub poll_type : Worker → ℕ → List Command → BackupItem → CommandType → Outcome Worker
poll_type s i rest b finish = poll_finish s i rest b
poll_type s i rest b backup = poll_backup s i rest b
poll_type s i rest b any = failed
poll_type s i rest b ready = failed
poll_type s i rest b clean = failed
poll_type s i rest b more = failed
poll_type s i rest b done = failed

-- `recv` overwrites the whole of `cmd`.
abbrev pub item_of : BackupItem → Command → BackupItem
item_of stray (plain ty) = stray
item_of stray (request b) = b

abbrev pub poll_case : Worker → ℕ → List Command → Outcome Worker
poll_case s i [] = moved (record s { pc = after_poll s s.stop i })
poll_case s i (c ∷ rest) = poll_type s i rest (item_of (s.stray s.stop) c) (type_of c)

unfoldable pub poll : Worker → ℕ → Outcome Worker
unfolding poll_finish poll_backup
poll s i = poll_case s i (s.links i).to_main

-- `Destroy`: the join returns when the thread has ended
abbrev pub join_case : Worker → ℕ → ThreadPc → Outcome Worker
join_case s i ended = moved (record s { pc = each s i joining leaving })
join_case s i absent = blocked
join_case s i ThreadPc.initialising = blocked
join_case s i ThreadPc.waiting_start = blocked
join_case s i ThreadPc.running = blocked
join_case s i ThreadPc.waiting_backup = blocked
join_case s i ThreadPc.waiting_clean = blocked
join_case s i ThreadPc.cleaning = blocked

-- `memset` of the header of the last item: for the server, the end of its loop
unfoldable pub stop_notice : BackupItem → BackupItem
stop_notice b = record {
  info = record { backup_op = 0; worker_id = 0; thread_id = 0; op_index = 0; seq = 0 };
  payload = record b.payload { meta = record { len = 0; key = 0 } };
}

-- What RetriveBackups and RecoverOps do is the recovery of the operators; here, whether there is a
-- client to ask.
abbrev pub worker_case : Worker → WorkerPc → Outcome Worker
worker_case s (creating i) = moved (with_link s i (awaiting_ready i) (create_thread (s.links i)))
worker_case s (awaiting_ready i) =
    then_at s i (each s i creating recovering) (wait_thread ready (s.links i))
worker_case s recovering =
    if s.recovery && (if s.has_client then false else true)
    then failed
    else moved (record s { pc = starting 0 })
worker_case s (starting i) =
    moved (with_link s i (each s i starting (polling 0)) (notify_thread ready (s.links i)))
worker_case s (polling i) = poll s i
worker_case s awaiting_down =
    then_at s (s.num_compute + 1) (cleaning 0) (wait_thread finish (s.links (s.num_compute + 1)))
worker_case s (cleaning i) =
    moved (with_link s i (awaiting_finish i) (notify_thread clean (s.links i)))
worker_case s (awaiting_finish i) =
    then_at s i (each s i cleaning (joining 0)) (wait_thread finish (s.links i))
worker_case s (joining i) = join_case s i (s.links i).pc
worker_case s leaving = moved (record (make_backup (stop_notice s.cmd) s) { pc = left })
worker_case s left = blocked

unfoldable pub worker_step : Worker → Outcome Worker
worker_step s = worker_case s s.pc

-- whose turn it is
pub data Actor : Type 0 where
  main_thread : Actor
  thread : ℕ → MainStep → Actor

unfoldable pub run_actor : Worker → Actor → Outcome Worker
run_actor s main_thread = worker_step s
run_actor s (thread i m) =
    if ltb i (num_threads s)
    then then_at s i s.pc (thread_step (kind_of s.num_compute i) m (s.links i))
    else blocked

-- The states that an interleaving of the main thread with the others leads to.
pub data Reach (s : Worker) : Worker → Type 0 where
  here : Reach s s
  next : (t u : Worker) (a : Actor) → Reach s t → run_actor t a ≡ moved u → Reach s u
