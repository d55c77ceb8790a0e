-- ===== src/Queues/Channel/Moves.antt =====
-- The calls of writers and readers as moves of a system, and where its slots are.
use af_stream.Prelude.{
  ℕ, ◌+◌, ◌<◌, ◌≡◌, Option, none, some, ◌&&◌, List, [], ◌∷◌, ltb, if◌then◌else◌, ◌>>=◌,
}
use af_stream.Queues.LockFree.Contents.{Contains}
use af_stream.Queues.Channel.{Mesh, null, get_slot, write, read, ack, flush_writer, flush_reader}
use af_stream.Queues.Channel.Counting.{count, without, grand}

-- The mesh, with the slots that writers have got and not written, and those that readers have read and
-- not given back.
pub record System : Type 0 where
  pub mesh : Mesh
  pub held : List ℕ
  pub taken : List ℕ

pub data Move : Type 0 where
  gets : ℕ → Move
  writes : ℕ → ℕ → ℕ → Move
  reads : ℕ → Move
  acks : ℕ → ℕ → ℕ → Move
  flushes_readers : Move
  flushes_writers : Move

abbrev pub taken_in : List ℕ → Option ℕ → List ℕ
taken_in xs none = xs
taken_in xs (some a) = a ∷ xs

module _ (indeterminate : ℕ) where
  -- One call; `none` where it waits, or is for a peer or a slot that its caller does not have.
  unfoldable pub move : System → Move → Option System
  move s (gets w) =
      if ltb w s.mesh.num_writers
      then (get_slot indeterminate s.mesh w
          >>= (λ p. some (record s { mesh = p.1; held = p.0 ∷ s.held })))
      else none
  move s (writes w r a) =
      if ltb w s.mesh.num_writers && ltb r s.mesh.num_readers && ltb 0 (count a s.held)
      then (write indeterminate s.mesh w r a
          >>= (λ m. some (record s { mesh = m; held = without a s.held })))
      else none
  move s (reads r) =
      if ltb r s.mesh.num_readers
      then some (record s {
        mesh = (read indeterminate s.mesh r).1;
        taken = taken_in s.taken (read indeterminate s.mesh r).0;
      })
      else none
  move s (acks r w a) =
      if ltb w s.mesh.num_writers && ltb r s.mesh.num_readers && ltb 0 (count a s.taken)
      then (ack indeterminate s.mesh r w a
          >>= (λ m. some (record s { mesh = m; taken = without a s.taken })))
      else none
  move s flushes_readers = some (record s { mesh = flush_writer s.mesh })
  move s flushes_writers = some (record s { mesh = flush_reader s.mesh })

  abbrev pub moves : System → List Move → Option System
  moves s [] = some s
  moves s (c ∷ cs) = move s c >>= λ s'. moves s' cs

  -- What is in each ring of each queue.
  pub record IsAccounted (s : System) : Type 0 where
    pub in_writers : ℕ → ℕ → List ℕ
    pub in_readers : ℕ → ℕ → List ℕ
    pub some_writer : 0 < s.mesh.num_writers
    pub some_reader : 0 < s.mesh.num_readers
    pub of_writers :
        (w : ℕ)
        → w < s.mesh.num_writers
        → Contains null indeterminate (s.mesh.writers w) s.mesh.num_readers (in_writers w)
    pub of_readers :
        (r : ℕ)
        → r < s.mesh.num_readers
        → Contains null indeterminate (s.mesh.readers r) s.mesh.num_writers (in_readers r)

  -- how often the slot a is anywhere
  abbrev everywhere : (s : System) → IsAccounted s → ℕ → ℕ
  everywhere s v a =
      grand a s.mesh.num_writers s.mesh.num_readers v.in_writers
      + grand a s.mesh.num_readers s.mesh.num_writers v.in_readers
      + count a s.held
      + count a s.taken

  abbrev pub Conserves : (s : System) → IsAccounted s → System → Type 0
  Conserves s v s' = (v' : IsAccounted s') × ((a : ℕ) → everywhere s' v' a ≡ everywhere s v a)
