-- ===== src/Fault/AdapterRecovery/Replayed.antt =====
-- What is replayed: the records from the start on.
use native.Mathlib.Nat.{zero-add}
use af_stream.Prelude.{
  ℕ, zero, suc, ◌+◌, ◌-◌, ◌^◌, ◌≤◌, ◌<◌, take, ◌≡◌, refl, ap, ◌∙◌, Option, none, some, List, [],
  ◌∷◌, ◌++◌, length, map, subst, arith, ==_ne, ==_self,
}
use af_stream.Memory.Copy.{read_at}
use af_stream.Memory.Integers.{of_bytes}
use af_stream.Threads.AdapterRam.RoundTrip.{Holds, extent}
use af_stream.Fault.AdapterRecovery.{
  AdapterRecovery, start_of, skip, align, blk_size, num_seqs, init, read_record,
}

-- n calls of `ReadRecord`
abbrev pub read_all : ℕ → AdapterRecovery → List (Option (List ℕ)) × AdapterRecovery
read_all zero a = ([], a)
read_all (suc n) a = let (o, a') = read_record a in let (os, a'') = read_all n a' in (o ∷ os, a'')

extent-append : (xs ys : List (List ℕ)) → extent (xs ++ ys) ≡ extent xs + extent ys
extent-append [] ys = omega arith
extent-append (x ∷ xs) ys = omega (arith, extent-append xs ys)

skip_held :
    (buf : List ℕ) (p : ℕ) (pre post : List (List ℕ))
    → Holds buf p (pre ++ post)
    → (skip (length pre) buf p ≡ p + extent pre) × Holds buf (p + extent pre) post
unfolding skip
skip_held buf p [] post w = (omega arith, subst (λ q. Holds buf q post) (omega arith) w)
skip_held buf p (l ∷ pre) post (a, b, w) =
    let (e, h) = skip_held buf (p + 4 + length l) pre post w in
    let next : p + (4 + of_bytes (read_at buf p 4)) ≡ p + 4 + length l = omega (arith, a) in
    (
      ap (skip (length pre) buf) next ∙ (e ∙ omega arith),
      subst (λ q. Holds buf q post) (omega arith) h,
    )

read_one :
    (l : List ℕ) (a : AdapterRecovery) (n : ℕ)
    → of_bytes (read_at a.data_buf a.ptr 4) ≡ length l
    → read_at a.data_buf (a.ptr + 4) (length l) ≡ l
    → a.data_size ≡ a.ptr + (4 + length l + n)
    → read_record a ≡ (some l, record a { ptr = a.ptr + 4 + length l })
unfolding read_record
read_one l a n b c e = rw (==_ne a.ptr a.data_size (λ q. omega (arith, q, e))) (
    ap (λ m. (some (read_at a.data_buf (a.ptr + 4) m), record a { ptr = a.ptr + 4 + m })) b
    ∙ ap (λ x. (some x, record a { ptr = a.ptr + 4 + length l })) c)

read_rest :
    (ls : List (List ℕ)) (a : AdapterRecovery)
    → Holds a.data_buf a.ptr ls
    → a.data_size ≡ a.ptr + extent ls
    → ((read_all (length ls) a).0 ≡ map some ls)
      × ((read_record (read_all (length ls) a).1).0 ≡ none)
unfolding read_record
read_rest [] a w e =
    let done : a.ptr ≡ a.data_size = omega (arith, e) in (refl, rw (done, ==_self a.data_size) refl)
read_rest (l ∷ ls) a (b, c, w) e =
    let a' = record a { ptr = a.ptr + 4 + length l } in
    let one = read_one l a (extent ls) b c e in
    let (more, last) = read_rest ls a' w (omega (arith, e)) in
    (
      ap (λ r. r.0 ∷ (read_all (length ls) r.1).0) one ∙ ap (◌∷◌ (some l)) more,
      ap (λ r. (read_record (read_all (length ls) r.1).1).0) one ∙ last,
    )

take_whole : (n : ℕ) (xs : List ℕ) → length xs ≤ n → take n xs ≡ xs
take_whole zero [] h = refl
take_whole zero (x ∷ xs) h = absurd (omega arith)
take_whole (suc n) [] h = refl
take_whole (suc n) (x ∷ xs) h = ap (◌∷◌ x) (take_whole n xs (omega arith))

-- The block is as large as the file, below 4 GiB less a page.
align_room : (n : ℕ) → n ≤ 2 ^ 32 - 4096 → n ≤ align n blk_size
unfolding align
align_room n h = ground arith

-- If the data file is no longer than 2 ^ 32 - 4096 bytes and holds the records `pre` and then the record l
-- and those of `post`, with nothing after them, there are fewer than 2 ^ 28 sequence numbers, and the
-- replay starts at record number `length pre`, then the calls of `ReadRecord` give l and the records of
-- `post`, in order, and then NULL.
pub replayed_records :
    (bytes seqs : List ℕ) (pre : List (List ℕ)) (l : List ℕ) (post : List (List ℕ))
    → Holds bytes 0 (pre ++ (l ∷ post))
    → length bytes ≡ extent (pre ++ (l ∷ post))
    → start_of seqs ≡ length pre
    → length bytes ≤ 2 ^ 32 - 4096
    → length seqs < 2 ^ 28
    → let (records, a) = read_all (suc (length post)) (init bytes seqs) in
      (records ≡ map some (l ∷ post)) × ((read_record a).0 ≡ none)
unfolding init
replayed_records bytes seqs pre l post w size from small few =
    let (e, h) = skip_held bytes 0 pre (l ∷ post) w in
    let more : length bytes ≡ extent pre + extent (l ∷ post) =
      size ∙ extent-append pre (l ∷ post) in
    let at_start : AdapterRecovery = record {
      data_buf = bytes;
      data_size = length bytes;
      ptr = extent pre;
    } in
    let there : skip (start_of seqs) bytes 0 ≡ extent pre =
      ap (λ n. skip n bytes 0) from ∙ (e ∙ zero-add (extent pre)) in
    rw
      (
        ==_ne (length bytes) 0 (λ q. omega (arith, q, more)),
        take_whole (align (length bytes) blk_size) bytes (align_room (length bytes) small),
        take_whole (num_seqs seqs) seqs (omega (arith, few)),
        there,
      )
      (read_rest (l ∷ post) at_start
        (subst (λ q. Holds bytes q (l ∷ post)) (zero-add (extent pre)) h) more)
