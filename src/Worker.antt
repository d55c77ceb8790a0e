-- ===== src/Worker.antt =====
-- thread.cpp and command.hpp: a thread of a worker and the two mailboxes between it and the main
-- thread. A mailbox delivers in order; a blocking `recv` on an empty one waits.
pub mod Start
pub mod Agreement
pub mod Polling
pub mod Sound
pub mod Opening
pub mod Closing
pub mod Kept
pub mod Answers
pub mod Progress
pub mod Round
use af_stream.Prelude.{ℕ, Bool, List, [], ◌∷◌, ◌++◌, ◌==◌, if◌then◌else◌}
use af_stream.Fault.Item.{BackupItem}

pub data CommandType : Type 0 where
  any : CommandType
  ready : CommandType
  clean : CommandType
  finish : CommandType
  backup : CommandType
  more : CommandType
  done : CommandType

-- the value of the enumerator
abbrev pub code : CommandType → ℕ
code any = 0
code ready = 1
code clean = 2
code finish = 3
code backup = 4
code more = 5
code done = 6

-- `backup_item` is indeterminate in all but a backup request, where it is set.
pub data Command : Type 0 where
  plain : CommandType → Command
  request : BackupItem → Command

abbrev pub type_of : Command → CommandType
type_of (plain ty) = ty
type_of (request b) = backup

-- A step of a thread: to a new state, waiting for a message, or the end of the process by
-- an assertion or a NULL pointer.
pub data Outcome (A : Type 0) : Type 0 where
  moved : A → Outcome A
  blocked : Outcome A
  failed : Outcome A

-- where a thread is in `thread_fun`
pub data ThreadPc : Type 0 where
  absent : ThreadPc
  initialising : ThreadPc
  waiting_start : ThreadPc
  running : ThreadPc
  waiting_backup : ThreadPc
  waiting_clean : ThreadPc
  cleaning : ThreadPc
  ended : ThreadPc

pub data ThreadKind : Type 0 where
  upstream : ThreadKind
  compute : ThreadKind
  downstream : ThreadKind

-- `ThreadBase`: the thread with `thread_to_main_` and `main_to_thread_`
pub record Link : Type 0 where
  pub pc : ThreadPc
  pub to_main : List Command
  pub to_thread : List CommandType

-- What `ThreadMainHandler` does next: a backup request, or its return.
pub data MainStep : Type 0 where
  asks : BackupItem → MainStep
  returns : MainStep

unfoldable pub create_thread : Link → Link
create_thread l = record l { pc = initialising }

unfoldable pub notify_thread : CommandType → Link → Link
notify_thread ty l = record l { to_thread = l.to_thread ++ (ty ∷ []) }

unfoldable pub notify_worker : Command → Link → Link
notify_worker c l = record l { to_main = l.to_main ++ (c ∷ []) }

abbrev pub wait_worker_case : CommandType → ThreadPc → Link → List CommandType → Outcome Link
wait_worker_case ty next l [] = blocked
wait_worker_case ty next l (c ∷ cs) =
    if code c == code ty then moved (record l { pc = next; to_thread = cs }) else failed

-- The blocking `WaitWorker`, after which the thread is at `next`.
unfoldable pub wait_worker : CommandType → ThreadPc → Link → Outcome Link
wait_worker ty next l = wait_worker_case ty next l l.to_thread

-- A compute thread waits for the answer to its request; an upstream thread would not, and a
-- downstream thread makes none.
abbrev pub main_step : ThreadKind → MainStep → Link → Outcome Link
main_step kind returns l = moved (record (notify_worker (plain finish) l) { pc = waiting_clean })
main_step upstream (asks b) l = moved (notify_worker (request b) l)
main_step compute (asks b) l = moved (record (notify_worker (request b) l) { pc = waiting_backup })
main_step downstream (asks b) l = blocked

abbrev pub thread_case : ThreadKind → MainStep → Link → ThreadPc → Outcome Link
thread_case kind m l absent = blocked
thread_case kind m l initialising =
    moved (record (notify_worker (plain ready) l) { pc = waiting_start })
thread_case kind m l waiting_start = wait_worker ready running l
thread_case kind m l running = main_step kind m l
thread_case kind m l waiting_backup = wait_worker backup running l
thread_case kind m l waiting_clean = wait_worker clean cleaning l
thread_case kind m l cleaning = moved (record (notify_worker (plain finish) l) { pc = ended })
thread_case kind m l ended = blocked

-- `thread_fun` up to its next message to or from the main thread
unfoldable pub thread_step : ThreadKind → MainStep → Link → Outcome Link
thread_step kind m l = thread_case kind m l l.pc

abbrev pub wait_thread_case : CommandType → Link → List Command → Outcome Link
wait_thread_case ty l [] = blocked
wait_thread_case ty l (c ∷ cs) =
    if code (type_of c) == code ty then moved (record l { to_main = cs }) else failed

-- `WaitThread(type)`
unfoldable pub wait_thread : CommandType → Link → Outcome Link
wait_thread ty l = wait_thread_case ty l l.to_main
