-- ===== src/Fault/AdapterRecovery.antt =====
-- adapter_recovery.hpp, `AdapterRecovery`: replays the tuples that were saved before a crash, from
-- the start of the last unbroken run of sequence numbers. The two files are their contents: the
-- bytes of the data, and the sequence numbers. `calloc` makes the rest of a block zero, which is what
-- `read_at` reads there; what `fread` writes past the end of its block is left out.
pub mod Start
pub mod Replayed
use af_stream.Prelude.{
  ℕ, zero, suc, ◌+◌, ◌-◌, ◌*◌, ◌/◌, ◌%◌, ◌^◌, take, Option, none, some, List, [], ◌∷◌, ◌==◌,
  if◌then◌else◌, length,
}
use af_stream.Memory.Copy.{read_at}
use af_stream.Memory.Integers.{of_bytes}

pub record AdapterRecovery : Type 0 where
  pub data_buf : List ℕ
  pub data_size : ℕ
  pub ptr : ℕ

-- The loop over the sequence numbers that are left; the difference is taken in 64 bits.
unfoldable pub find_start : List ℕ → ℕ → ℕ → ℕ → ℕ
find_start [] i last_seq start = start
find_start (cur_seq ∷ rest) i last_seq start =
    find_start rest (i + 1) cur_seq
      (if (cur_seq + 2 ^ 64 - last_seq) % 2 ^ 64 == 1 then start else i)

unfoldable pub start_of : List ℕ → ℕ
start_of [] = 0
start_of (first ∷ rest) = find_start rest 1 first 0

-- The loop that skips the first n records.
unfoldable pub skip : ℕ → List ℕ → ℕ → ℕ
skip zero buf ptr = ptr
skip (suc n) buf ptr = skip n buf (ptr + (4 + of_bytes (read_at buf ptr 4)))

-- `align`, of a uint32_t
unfoldable pub align : ℕ → ℕ → ℕ
align orig_size blk_size =
    let n = orig_size % 2 ^ 32 in
    if n % blk_size == 0 then n else blk_size * (n / blk_size + 1) % 2 ^ 32

abbrev pub blk_size : ℕ
blk_size = 4096

-- `num`: the size of the sequence file in an int, which is not negative below 2 ^ 28 numbers
abbrev pub num_seqs : List ℕ → ℕ
num_seqs seqs = 8 * length seqs % 2 ^ 32 / 8

unfoldable pub init : List ℕ → List ℕ → AdapterRecovery
init bytes seqs =
    if length bytes == 0
    then record { data_buf = []; data_size = 0; ptr = 0 }
    else (let buf = take (align (length bytes) blk_size) bytes in
        record {
          data_buf = buf;
          data_size = length bytes;
          ptr = skip (start_of (take (num_seqs seqs) seqs)) buf 0;
        })

unfoldable pub read_record : AdapterRecovery → Option (List ℕ) × AdapterRecovery
read_record a =
    if a.ptr == a.data_size
    then (none, a)
    else (let len = of_bytes (read_at a.data_buf a.ptr 4) in
        (some (read_at a.data_buf (a.ptr + 4) len), record a { ptr = a.ptr + 4 + len }))
