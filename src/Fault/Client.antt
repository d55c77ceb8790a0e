-- ===== src/Fault/Client.antt =====
-- backup_client.cpp: how a worker fetches its backups before it starts. It first asks for their
-- number, makes a `RecoveryItem` of that size, and then asks for the data. Requests and replies
-- travel over a ZeroMQ REQ/REP pair, which delivers each whole; a reply longer than the buffer of
-- `zmq_recv` is cut.
use af_stream.Prelude.{ℕ, List, [], ◌∷◌}
use af_stream.Fault.Item.{BackupItem}
use af_stream.Fault.RecoveryItem.{RecoveryItem, allocate}
use af_stream.Fault.Server.{Server, Reply, no_reply, empty, count, items, handle}

-- The request of `RetriveBackups`; the fields that it leaves unset are those of `rest`.
unfoldable pub request : BackupItem → ℕ → ℕ → BackupItem
request rest op worker_id = record {
  info = record rest.info { backup_op = op; worker_id = worker_id };
  payload = record rest.payload { meta = record rest.payload.meta { len = 0 } };
}

-- The number in the reply; anything else leaves the variable 0.
abbrev pub count_in : Reply → ℕ
count_in no_reply = 0
count_in empty = 0
count_in (count n) = n
count_in (items r) = 0

-- The first items of the reply go over those of the buffer, as far as the buffer reaches.
abbrev pub overlay : List BackupItem → List BackupItem → List BackupItem
overlay [] xs = []
overlay (b ∷ bs) [] = b ∷ bs
overlay (b ∷ bs) (x ∷ xs) = x ∷ overlay bs xs

abbrev pub filled_by : RecoveryItem → Reply → RecoveryItem
filled_by r no_reply = r
filled_by r empty = r
filled_by r (count n) = record r { count = n }
filled_by r (items r') = record { count = r'.count; slots = overlay r.slots r'.slots }

module _ (fill : ℕ → BackupItem) where
  unfoldable pub retrive_backups : BackupItem → ℕ → Server → Server × RecoveryItem
  unfolding request
  retrive_backups rest worker_id s =
      let (s', reply) = handle fill s (request rest 1 worker_id) in
      let (s'', reply') = handle fill s' (request rest 2 worker_id) in
      (s'', filled_by (allocate fill (count_in reply)) reply')
