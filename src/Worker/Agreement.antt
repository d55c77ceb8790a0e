-- ===== src/Worker/Agreement.antt =====
-- What each thread and its two mailboxes are like at each stage of the main thread's program.
use af_stream.Prelude.{◌≡◌, refl, sym, ap, ◌∙◌, subst, List, [], ◌∷◌, ◌++◌, map}
use Prim.{⊥}
use af_stream.Fault.Item.{BackupItem}
use af_stream.Worker.{
  CommandType, ready, clean, finish, backup, Command, plain, request, Outcome, moved, blocked,
  failed, ThreadPc, absent, initialising, waiting_start, running, waiting_backup, waiting_clean,
  cleaning, ended, ThreadKind, upstream, compute, downstream, MainStep, asks, returns, Link,
  notify_worker, wait_worker, thread_step, wait_thread,
}

-- An outcome that is no failure, and where it is a step, one into P.
abbrev pub Safely : {A : Type 0} → (A → Type 0) → Outcome A → Type 0
Safely P (moved a) = P a
Safely P blocked = Unit {0}
Safely P failed = ⊥

-- how far the main thread has come with a thread
pub data Stage : Type 0 where
  unborn : Stage
  born : Stage
  prepared : Stage
  begun : Stage
  quiet : Stage
  cleaned : Stage
  gone : Stage

abbrev pub link : ThreadPc → List Command → List CommandType → Link
link p c d = record { pc = p; to_main = c; to_thread = d }

-- Only an upstream thread goes on before its requests are read.
abbrev pub ArePending : ThreadKind → List BackupItem → Type 0
ArePending upstream bs = Unit {0}
ArePending compute bs = bs ≡ []
ArePending downstream bs = bs ≡ []

-- between the order to start and the main thread's reading of FINISH
pub data IsBegun (k : ThreadKind) (l : Link) : Type 0 where
  told : l ≡ link waiting_start [] (ready ∷ []) → IsBegun k l
  working :
      (bs : List BackupItem) → ArePending k bs → l ≡ link running (map request bs) [] → IsBegun k l
  asked : (b : BackupItem) → k ≡ compute → l ≡ link waiting_backup (request b ∷ []) [] → IsBegun k l
  answered : k ≡ compute → l ≡ link waiting_backup [] (backup ∷ []) → IsBegun k l
  finished :
      (bs : List BackupItem)
      → ArePending k bs
      → l ≡ link waiting_clean (map request bs ++ (plain finish ∷ [])) []
      → IsBegun k l

pub data IsBorn (l : Link) : Type 0 where
  preparing : l ≡ link initialising [] [] → IsBorn l
  announced : l ≡ link waiting_start (plain ready ∷ []) [] → IsBorn l

pub data IsCleaned (l : Link) : Type 0 where
  ordered : l ≡ link waiting_clean [] (clean ∷ []) → IsCleaned l
  tidying : l ≡ link cleaning [] [] → IsCleaned l
  signed_off : l ≡ link ended (plain finish ∷ []) [] → IsCleaned l

abbrev pub Fits : ThreadKind → Stage → Link → Type 0
Fits k unborn l = l ≡ link absent [] []
Fits k born l = IsBorn l
Fits k prepared l = l ≡ link waiting_start [] []
Fits k begun l = IsBegun k l
Fits k quiet l = l ≡ link waiting_clean [] []
Fits k cleaned l = IsCleaned l
Fits k gone l = l ≡ link ended [] []

pub none_pending : (k : ThreadKind) → ArePending k []
none_pending upstream = tt
none_pending compute = refl
none_pending downstream = refl

map-request :
    (bs : List BackupItem) (b : BackupItem)
    → map request bs ++ (request b ∷ []) ≡ map request (bs ++ (b ∷ []))
map-request [] b = refl
map-request (x ∷ xs) b = ap (◌∷◌ (request x)) (map-request xs b)

working_step :
    (k : ThreadKind) (m : MainStep) (bs : List BackupItem)
    → ArePending k bs
    → Safely (IsBegun k) (thread_step k m (link running (map request bs) []))
unfolding thread_step notify_worker
working_step k returns bs p = finished bs p refl
working_step upstream (asks b) bs p =
    working (bs ++ (b ∷ [])) tt (ap (λ c. link running c []) (map-request bs b))
working_step compute (asks b) bs p =
    asked b refl (ap (λ c. link waiting_backup (map request c ++ (request b ∷ [])) []) p)
working_step downstream (asks b) bs p = tt

begun_step :
    (k : ThreadKind) (m : MainStep) (l : Link)
    → IsBegun k l
    → Safely (IsBegun k) (thread_step k m l)
unfolding thread_step wait_worker
begun_step k m l (told e) =
    subst (λ l. Safely (IsBegun k) (thread_step k m l)) (sym e) (working [] (none_pending k) refl)
begun_step k m l (working bs p e) =
    subst (λ l. Safely (IsBegun k) (thread_step k m l)) (sym e) (working_step k m bs p)
begun_step k m l (asked b q e) = subst (λ l. Safely (IsBegun k) (thread_step k m l)) (sym e) tt
begun_step k m l (answered q e) =
    subst (λ l. Safely (IsBegun k) (thread_step k m l)) (sym e) (working [] (none_pending k) refl)
begun_step k m l (finished bs p e) = subst (λ l. Safely (IsBegun k) (thread_step k m l)) (sym e) tt

-- A thread fails no assertion, and its steps keep it at its stage.
pub thread_step-Fits :
    (k : ThreadKind) (st : Stage) (m : MainStep) (l : Link)
    → Fits k st l
    → Safely (Fits k st) (thread_step k m l)
unfolding thread_step notify_worker wait_worker
thread_step-Fits k unborn m l e = subst (λ l. Safely (Fits k unborn) (thread_step k m l)) (sym e) tt
thread_step-Fits k born m l (preparing e) =
    subst (λ l. Safely IsBorn (thread_step k m l)) (sym e) (announced refl)
thread_step-Fits k born m l (announced e) =
    subst (λ l. Safely IsBorn (thread_step k m l)) (sym e) tt
thread_step-Fits k prepared m l e =
    subst (λ l. Safely (Fits k prepared) (thread_step k m l)) (sym e) tt
thread_step-Fits k begun m l b = begun_step k m l b
thread_step-Fits k quiet m l e = subst (λ l. Safely (Fits k quiet) (thread_step k m l)) (sym e) tt
thread_step-Fits k cleaned m l (ordered e) =
    subst (λ l. Safely IsCleaned (thread_step k m l)) (sym e) (tidying refl)
thread_step-Fits k cleaned m l (tidying e) =
    subst (λ l. Safely IsCleaned (thread_step k m l)) (sym e) (signed_off refl)
thread_step-Fits k cleaned m l (signed_off e) =
    subst (λ l. Safely IsCleaned (thread_step k m l)) (sym e) tt
thread_step-Fits k gone m l e = subst (λ l. Safely (Fits k gone) (thread_step k m l)) (sym e) tt

-- The three messages that the main thread waits for.
pub wait_ready : (l : Link) → IsBorn l → Safely (Fits compute prepared) (wait_thread ready l)
unfolding wait_thread
wait_ready l (preparing e) =
    subst (λ l. Safely (Fits compute prepared) (wait_thread ready l)) (sym e) tt
wait_ready l (announced e) =
    subst (λ l. Safely (Fits compute prepared) (wait_thread ready l)) (sym e) refl

pub wait_gone : (l : Link) → IsCleaned l → Safely (Fits compute gone) (wait_thread finish l)
unfolding wait_thread
wait_gone l (ordered e) = subst (λ l. Safely (Fits compute gone) (wait_thread finish l)) (sym e) tt
wait_gone l (tidying e) = subst (λ l. Safely (Fits compute gone) (wait_thread finish l)) (sym e) tt
wait_gone l (signed_off e) =
    subst (λ l. Safely (Fits compute gone) (wait_thread finish l)) (sym e) refl

pub wait_down :
    (l : Link) → IsBegun downstream l → Safely (Fits compute quiet) (wait_thread finish l)
unfolding wait_thread
wait_down l (told e) = subst (λ l. Safely (Fits compute quiet) (wait_thread finish l)) (sym e) tt
wait_down l (working bs p e) =
    subst (λ l. Safely (Fits compute quiet) (wait_thread finish l))
      (sym (e ∙ ap (λ c. link running (map request c) []) p)) tt
wait_down l (asked b q e) = absurd (cc)
wait_down l (answered q e) =
    subst (λ l. Safely (Fits compute quiet) (wait_thread finish l)) (sym e) tt
wait_down l (finished bs p e) =
    subst (λ l. Safely (Fits compute quiet) (wait_thread finish l))
      (sym (e ∙ ap (λ c. link waiting_clean (map request c ++ (plain finish ∷ [])) []) p)) refl
