-- ===== src/Fault/Server.antt =====
-- backup_server.cpp, the main loop: backups are kept by operator, and a worker asks for all of its
-- own. The contents that `new` makes are numbered in order, and a pointer is such a number. The two
-- `std::unordered_map` are functions: a key that is missing has the value that `operator[]` makes,
-- NULL (`none`) or an empty vector.
pub mod Saving
pub mod Recovery
use Prim.Native.Nat.{bit_or}
use af_stream.Prelude.{
  ℕ, ◌+◌, ◌*◌, ◌%◌, ◌^◌, ◌≤◌, ◌<◌, ◌≡◌, Option, none, some, List, [], ◌∷◌, ◌++◌, ◌==◌,
  if◌then◌else◌, Bool, ◌&&◌, length, get_or, set,
}
use af_stream.Fault.Item.{BackupInfo, BackupItem}
use af_stream.Fault.Content
use af_stream.Fault.Content.{
  BackupContent, blank, copy_backup_item, save_backup, get_count, append_recovery_item,
}
use af_stream.Fault.RecoveryItem
use af_stream.Fault.RecoveryItem.{RecoveryItem, allocate}

-- The worker and the thread keep 16 bits each.
unfoldable pub make_op_key : ℕ → ℕ → ℕ → ℕ
make_op_key worker thread op =
    bit_or (bit_or (worker % 2 ^ 16 * 2 ^ 32) (thread % 2 ^ 16 * 2 ^ 16)) op

abbrev pub op_key_of : BackupInfo → ℕ
op_key_of i = make_op_key i.worker_id i.thread_id i.op_index

-- a sender's notice that it has stopped
abbrev pub is_stop : BackupItem → Bool
is_stop item = (item.info.backup_op == 0) && (item.payload.meta.len == 0)

-- The globals, with `cnt` and `cur_stop` of `main`; `backup_item` is the buffer for requests.
pub record Server : Type 0 where
  pub contents : List BackupContent
  pub ops : ℕ → Option ℕ
  pub worker_ops : ℕ → List ℕ
  pub backup_item : BackupItem
  pub cnt : ℕ
  pub cur_stop : ℕ

-- What `ZWrite` sends back: nothing to say, a count, or the recovery data.
pub data Reply : Type 0 where
  no_reply : Reply
  empty : Reply
  count : ℕ → Reply
  items : RecoveryItem → Reply

abbrev pub content_in : List BackupContent → ℕ → BackupContent
content_in cs i = get_or cs i Content.create

abbrev pub content_at : Server → ℕ → BackupContent
content_at s = content_in s.contents

abbrev pub updated {ℓ} : {A : Type ℓ} → (ℕ → A) → ℕ → A → ℕ → A
updated f k v j = if k == j then v else f j

unfoldable pub start : Server
start = record {
  contents = [];
  ops = λ _. none;
  worker_ops = λ _. [];
  backup_item = blank;
  cnt = 0;
  cur_stop = 0;
}

-- A message holds an item up to the end of its data, and overwrites that much of the buffer.
unfoldable pub received : Server → BackupItem → Server
received s sent = record s { backup_item = copy_backup_item s.backup_item sent }

-- The pointer at `ops[op_key]`, where a new content is made if it is NULL.
abbrev pub pointer_or_new : Server → BackupInfo → Option ℕ → ℕ × Server
pointer_or_new s info (some i) = (i, s)
pointer_or_new s info none =
    let i = length s.contents in
    let w = info.worker_id % 2 ^ 16 in
    (
      i,
      record s {
        contents = s.contents ++ (Content.create ∷ []);
        ops = updated s.ops (op_key_of info) (some i);
        worker_ops = updated s.worker_ops w (s.worker_ops w ++ (i ∷ []));
      },
    )

unfoldable pub content_for : Server → BackupInfo → ℕ × Server
content_for s info = pointer_or_new s info (s.ops (op_key_of info))

abbrev pub total : List BackupContent → List ℕ → ℕ → ℕ
total cs [] sum = sum
total cs (i ∷ is) sum = total cs is ((sum + get_count (content_in cs i)) % 2 ^ 32)

-- the loop that sums `GetCount` over the contents of a worker
unfoldable pub tot_count : Server → ℕ → ℕ
tot_count s worker_id = total s.contents (s.worker_ops (worker_id % 2 ^ 16)) 0

unfoldable pub append_all : List BackupContent → List ℕ → List BackupItem → ℕ → List BackupItem
append_all cs [] ret cur_count = ret
append_all cs (i ∷ is) ret cur_count =
    append_all cs is (append_recovery_item (content_in cs i) ret cur_count)
      ((cur_count + get_count (content_in cs i)) % 2 ^ 32)

-- `fill` is what `realloc` and `malloc` leave in memory.
module _ (fill : ℕ → BackupItem) where
  unfoldable pub save : Server → BackupItem → Server
  save s item =
      let (i, s') = content_for s item.info in
      record s' {
        cnt = s'.cnt + 1;
        contents = set s'.contents i (save_backup fill (content_at s' i) item);
      }

  unfoldable pub recovery_item : Server → ℕ → RecoveryItem
  recovery_item s worker_id =
      let r = allocate fill (tot_count s worker_id) in
      record r { slots = append_all s.contents (s.worker_ops (worker_id % 2 ^ 16)) r.slots 0 }

  -- One round, with the request in the buffer.
  unfoldable pub answer : Server → Server × Reply
  unfolding save recovery_item
  answer s =
      let item = s.backup_item in
      if item.info.backup_op == 0
      then (if item.payload.meta.len == 0
          then (record s { cur_stop = s.cur_stop + 1 }, empty)
          else (save s item, empty))
      else if item.info.backup_op == 1
      then (s, count (tot_count s item.info.worker_id))
      else if item.info.backup_op == 2
      then (s, items (recovery_item s item.info.worker_id))
      else (s, no_reply)

  unfoldable pub handle : Server → BackupItem → Server × Reply
  unfolding answer received
  handle s sent = answer (received s sent)

  -- The loop, over the requests in the order of their arrival. It ends when every sender has
  -- stopped, and the requests after that are not served.
  unfoldable pub serve : ℕ → Server → List BackupItem → Server × List Reply
  unfolding handle
  serve num_sender s [] = (s, [])
  serve num_sender s (sent ∷ rest) =
      let (s', reply) = handle s sent in
      let (s'', replies) = serve num_sender s' rest in
      if is_stop s'.backup_item && (s'.cur_stop == num_sender)
      then (s', reply ∷ [])
      else (s'', reply ∷ replies)
