-- ===== src/Queues/Ring.antt =====
-- zerocopy_ringbuffer.hpp, `ZeroRingBuffer<T>`: a ring between one writer and one reader that
-- publish their positions once in a batch. Each side works on its own fields and on a stale copy
-- of the other side's published position; `readIndex` and `writeIndex` are the two shared words.
-- A call that spins is `none`: it waits for the other side.
pub mod Represents
pub mod Fifo
pub mod Reading
pub mod Schedule
use af_stream.Prelude.{
  ℕ, ◌+◌, ◌-◌, Option, none, some, List, ◌==◌, leb, ltb, if◌then◌else◌, get_or, set, replicate,
  ◌>>=◌,
}

pub record Ring {ℓ} (A : Type ℓ) : Type ℓ where
  pub read_index : ℕ
  pub write_index : ℕ
  pub local_write_index : ℕ
  pub next_read_index : ℕ
  pub r_batch_count : ℕ
  pub local_read_index : ℕ
  pub next_write_index : ℕ
  pub after_next_write_index : ℕ
  pub w_batch_count : ℕ
  pub max : ℕ
  pub batch_size : ℕ
  pub buffer : List A

abbrev pub rb_size : ℕ
rb_size = 2000

abbrev pub rb_batch : ℕ
rb_batch = 50

module _ {ℓ} {A : Type ℓ} where
  -- The constructor, over a capacity and a batch size; `ZeroRingBuffer` takes `rb_size` and
  -- `rb_batch`. `blank` is a zeroed T, and `after_next_write_index` starts indeterminate.
  unfoldable pub create : ℕ → ℕ → A → ℕ → Ring A
  create capacity batch blank indeterminate = record {
    read_index = 0;
    write_index = 0;
    local_write_index = 0;
    next_read_index = 0;
    r_batch_count = 0;
    local_read_index = 0;
    next_write_index = 0;
    after_next_write_index = indeterminate;
    w_batch_count = 0;
    max = capacity;
    batch_size = batch;
    buffer = replicate capacity blank;
  }

  unfoldable pub next_val : Ring A → ℕ → ℕ
  next_val r x = if leb r.max (x + 1) then 0 else x + 1

  -- The `+ RB_SIZE` of the source is done first, since the difference alone may be negative.
  unfoldable pub size : Ring A → ℕ
  size r =
      if ltb r.after_next_write_index r.local_read_index
      then r.after_next_write_index + rb_size - r.local_read_index
      else r.after_next_write_index - r.local_read_index

  -- `GetSlot`: room for one item. The slot returned is the one at `next_write_index`.
  unfoldable pub get_slot : Ring A → Option (Ring A)
  get_slot r =
      let after = next_val r r.next_write_index in
      if after == r.local_read_index
      then (if after == r.read_index
          then none
          else some (record r { after_next_write_index = after; local_read_index = r.read_index }))
      else some (record r { after_next_write_index = after })

  -- what the caller writes through the slot
  unfoldable pub fill_slot : Ring A → A → Ring A
  fill_slot r x = record r { buffer = set r.buffer r.next_write_index x }

  unfoldable pub complete_write : Ring A → Ring A
  complete_write r =
      if leb r.batch_size (r.w_batch_count + 1)
      then record r {
        next_write_index = r.after_next_write_index;
        write_index = r.after_next_write_index;
        w_batch_count = 0;
      }
      else record r {
        next_write_index = r.after_next_write_index;
        w_batch_count = r.w_batch_count + 1;
      }

  -- `Insert` runs the statements of `GetSlot`, the write and those of `CompleteWrite`.
  unfoldable pub insert : Ring A → A → Option (Ring A)
  unfolding get_slot fill_slot complete_write
  insert r x = get_slot r >>= λ r'. some (complete_write (fill_slot r' x))

  -- The slot at `next_read_index`, or `none` for NULL; the second part is the ring after the call.
  unfoldable pub extract : A → Ring A → Option A × Ring A
  extract blank r =
      if r.next_read_index == r.local_write_index
      then (if r.next_read_index == r.write_index then (none, r) else (
        some (get_or r.buffer r.next_read_index blank),
        record r { local_write_index = r.write_index },
      ))
      else (some (get_or r.buffer r.next_read_index blank), r)

  unfoldable pub ack : Ring A → Ring A
  ack r =
      let next = next_val r r.next_read_index in
      if leb r.batch_size (r.r_batch_count + 1)
      then record r { next_read_index = next; read_index = next; r_batch_count = 0 }
      else record r { next_read_index = next; r_batch_count = r.r_batch_count + 1 }

  unfoldable pub flush : Ring A → Ring A
  flush r = record r { write_index = r.next_write_index; read_index = r.next_read_index }
