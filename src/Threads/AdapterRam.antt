-- ===== src/Threads/AdapterRam.antt =====
-- adapter_ram.hpp, `AdapterRAM`: the lines of a trace file are loaded into one buffer, each behind
-- its length, and read back one at a time. The lines are what `fgets` gives, as the bytes before the
-- terminator; the counters of bytes and the throughput messages are left out.
pub mod RoundTrip
use af_stream.Prelude.{
  ℕ, zero, suc, ◌+◌, ◌-◌, Option, none, some, Bool, false, ◌&&◌, List, [], ◌∷◌, ◌==◌, ltb,
  if◌then◌else◌, length, replicate,
}
use af_stream.Memory.Copy.{write_at, read_at}
use af_stream.Memory.Integers.{le_bytes, of_bytes}

pub record AdapterRam : Type 0 where
  pub buf : List ℕ
  pub ptr : ℕ
  pub tot_cnt : ℕ
  pub cur_cnt : ℕ

-- the buffer after the copy of one line, and the end of the line in it
unfoldable pub store_line : AdapterRam → List ℕ → AdapterRam
store_line a line = record a {
  buf = write_at (write_at a.buf a.ptr (le_bytes 4 (length line))) (a.ptr + 4) line;
  ptr = a.ptr + 4 + length line;
  tot_cnt = a.tot_cnt + 1;
}

-- The loop of `Init` over the lines that are left; a `max` of 0 is no limit.
unfoldable pub load : ℕ → ℕ → AdapterRam → List (List ℕ) → AdapterRam
unfolding store_line
load buf_size max a [] = a
load buf_size max a (line ∷ lines) =
    let a' = store_line a line in
    let rest = load buf_size max a' lines in
    if ltb (buf_size - a.ptr) (4 + length line)
    then a
    else if ltb 0 max && (a'.tot_cnt == max)
    then a'
    else rest

unfoldable pub init : ℕ → ℕ → List (List ℕ) → AdapterRam
unfolding load
init buf_size max lines =
    let a =
      load buf_size max (record { buf = replicate buf_size 0; ptr = 0; tot_cnt = 0; cur_cnt = 0 })
        lines in
    record a { ptr = 0 }

-- The record, `none` where `*data` is NULL, and the adapter after the call.
unfoldable pub read_record : AdapterRam → Option (List ℕ) × AdapterRam
read_record a =
    if a.cur_cnt == a.tot_cnt
    then (none, a)
    else (let len = of_bytes (read_at a.buf a.ptr 4) in
        (
          some (read_at a.buf (a.ptr + 4) len),
          record a { ptr = a.ptr + 4 + len; cur_cnt = a.cur_cnt + 1 },
        ))
