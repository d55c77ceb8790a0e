-- ===== src/Threads/AdapterRam/RoundTrip.antt =====
-- `AdapterRAM` gives back the lines that it loaded.
use af_stream.Prelude.{
  ℕ, zero, suc, ◌+◌, ◌-◌, ◌^◌, ◌≤◌, ◌<◌, ◌≡◌, refl, sym, ap, ◌∙◌, inl, inr, Option, none, some,
  ◌&&◌, List, [], ◌∷◌, ◌++◌, ◌==◌, ltb, if◌then◌else◌, length, replicate, Bool-cases, map, arith,
  subst, length-append, length-replicate, ==_ne, ==_self,
}
use native.Mathlib.Nat.{zero-add}
use af_stream.Memory.Copy.{
  write_at, read_at, length-write_at, read_at-write_at_self, read_at-write_at_apart,
}
use af_stream.Memory.Integers.{le_bytes, of_bytes, length-le_bytes, of_bytes-le_bytes}
use af_stream.Threads.AdapterRam.{AdapterRam, store_line, load, init, read_record}

-- The buffer holds the lines, each behind its length, from p on.
abbrev pub Holds : List ℕ → ℕ → List (List ℕ) → Type 0
Holds buf p [] = Unit {0}
Holds buf p (l ∷ ls) =
    (of_bytes (read_at buf p 4) ≡ length l)
    × (read_at buf (p + 4) (length l) ≡ l)
    × Holds buf (p + 4 + length l) ls

-- the bytes that lines take
abbrev pub extent : List (List ℕ) → ℕ
extent [] = 0
extent (l ∷ ls) = 4 + length l + extent ls

-- The lines that fit: the longest start of the file whose lines find room, `max` of them at most.
abbrev pub fitting : ℕ → ℕ → ℕ → List (List ℕ) → List (List ℕ)
fitting max room cnt [] = []
fitting max room cnt (l ∷ ls) =
    let rest = fitting max (room - (4 + length l)) (cnt + 1) ls in
    if ltb room (4 + length l)
    then []
    else if ltb 0 max && (cnt + 1 == max)
    then l ∷ []
    else l ∷ rest

abbrev pub AreShort : List (List ℕ) → Type 0
AreShort [] = Unit {0}
AreShort (l ∷ ls) = (length l < 2 ^ 32) × AreShort ls

-- A write behind the lines leaves them.
Holds-write_at :
    (buf : List ℕ) (p off : ℕ) (bs : List ℕ) (ls : List (List ℕ))
    → p + extent ls ≤ off
    → Holds buf p ls
    → Holds (write_at buf off bs) p ls
Holds-write_at buf p off bs [] h w = tt
Holds-write_at buf p off bs (l ∷ ls) h (a, b, c) = (
  ap of_bytes (read_at-write_at_apart buf off bs p 4 (inl (omega arith))) ∙ a,
  read_at-write_at_apart buf off bs (p + 4) (length l) (inl (omega arith)) ∙ b,
  Holds-write_at buf (p + 4 + length l) off bs ls (omega arith) c,
)

Holds-append :
    (buf : List ℕ) (p : ℕ) (ls : List (List ℕ)) (l : List ℕ)
    → Holds buf p ls
    → Holds buf (p + extent ls) (l ∷ [])
    → Holds buf p (ls ++ (l ∷ []))
Holds-append buf p [] l w h = subst (λ q. Holds buf q (l ∷ [])) (omega arith) h
Holds-append buf p (k ∷ ks) l (a, b, c) h = (
  a,
  b,
  Holds-append buf (p + 4 + length k) ks l c (subst (λ q. Holds buf q (l ∷ [])) (omega arith) h),
)

-- a + b, read back after both writes
line-Holds :
    (buf : List ℕ) (p : ℕ) (l : List ℕ)
    → length l < 2 ^ 32
    → p + 4 + length l ≤ length buf
    → Holds (write_at (write_at buf p (le_bytes 4 (length l))) (p + 4) l) p (l ∷ [])
line-Holds buf p l short h = (
  ap of_bytes (
        read_at-write_at_apart first (p + 4) l p 4 (inl (omega arith))
        ∙ subst (λ n. read_at first p n ≡ le_bytes 4 (length l)) (length-le_bytes 4 (length l))
            (read_at-write_at_self buf p (le_bytes 4 (length l))
              (omega (arith, length-le_bytes 4 (length l)))))
      ∙ of_bytes-le_bytes 4 (length l) (omega arith),
  read_at-write_at_self first (p + 4) l
      (omega (arith, length-write_at buf p (le_bytes 4 (length l)))),
  tt,
)
  where
    first : List ℕ
    first = write_at buf p (le_bytes 4 (length l))

append_nil : (xs : List (List ℕ)) → xs ++ [] ≡ xs
append_nil [] = refl
append_nil (x ∷ xs) = ap (◌∷◌ x) (append_nil xs)

append_one : (xs ys : List (List ℕ)) (y : List ℕ) → xs ++ (y ∷ []) ++ ys ≡ xs ++ (y ∷ ys)
append_one [] ys y = refl
append_one (x ∷ xs) ys y = ap (◌∷◌ x) (append_one xs ys y)

-- What the loop has stored after the lines `pre`.
record IsLoaded (n : ℕ) (pre : List (List ℕ)) (a : AdapterRam) : Type 0 where
  held : Holds a.buf 0 pre
  at_end : a.ptr ≡ extent pre
  room : a.ptr ≤ n
  buf_len : length a.buf ≡ n
  counted : a.tot_cnt ≡ length pre
  unread : a.cur_cnt ≡ 0

extent-append :
    (ls : List (List ℕ)) (l : List ℕ) → extent (ls ++ (l ∷ [])) ≡ extent ls + 4 + length l
extent-append [] l = omega arith
extent-append (k ∷ ks) l = omega (arith, extent-append ks l)

store_line-IsLoaded :
    (n : ℕ) (pre : List (List ℕ)) (a : AdapterRam) (l : List ℕ)
    → IsLoaded n pre a
    → length l < 2 ^ 32
    → 4 + length l ≤ n - a.ptr
    → IsLoaded n (pre ++ (l ∷ [])) (store_line a l)
unfolding store_line
store_line-IsLoaded n pre a l v short h = record {
  held =
      Holds-append new 0 pre l
        (Holds-write_at first 0 (a.ptr + 4) l pre (omega (arith, v.at_end)) (
          Holds-write_at a.buf 0 a.ptr (le_bytes 4 (length l)) pre (omega (arith, v.at_end))
            v.held))
        (subst (λ q. Holds new q (l ∷ [])) (v.at_end ∙ sym (zero-add (extent pre)))
          (line-Holds a.buf a.ptr l short (omega (arith, v.buf_len, v.room))));
  at_end = omega (arith, extent-append pre l, v.at_end);
  room = omega (arith, v.room);
  buf_len =
      length-write_at first (a.ptr + 4) l
      ∙ (length-write_at a.buf a.ptr (le_bytes 4 (length l)) ∙ v.buf_len);
  counted = omega (arith, length-append {0} pre (l ∷ []), v.counted);
  unread = v.unread;
}
  where
    first : List ℕ
    first = write_at a.buf a.ptr (le_bytes 4 (length l))

    new : List ℕ
    new = write_at first (a.ptr + 4) l

load-IsLoaded :
    (n max : ℕ) (ls pre : List (List ℕ)) (a : AdapterRam)
    → IsLoaded n pre a
    → AreShort ls
    → IsLoaded n (pre ++ fitting max (n - a.ptr) a.tot_cnt ls) (load n max a ls)
unfolding load store_line
load-IsLoaded n max [] pre a v k = subst (λ xs. IsLoaded n xs a) (sym (append_nil pre)) v
load-IsLoaded n max (l ∷ ls) pre a v k = elim (Bool-cases (ltb (n - a.ptr) (4 + length l))) [
  | inl e ↦ rw e (subst (λ xs. IsLoaded n xs a) (sym (append_nil pre)) v)
  | inr e ↦
      let a' = store_line a l in
      let v' = store_line-IsLoaded n pre a l v k.0 (ground (arith, e)) in
      rw e (elim (Bool-cases (ltb 0 max && (a.tot_cnt + 1 == max))) [
        | inl f ↦ rw f v'
        | inr f ↦
            let left : n - (a.ptr + 4 + length l) ≡ n - a.ptr - (4 + length l) = omega arith in
            rw f (
              subst (λ xs. IsLoaded n xs (load n max a' ls))
                (ap (λ r. pre ++ (l ∷ []) ++ fitting max r (a.tot_cnt + 1) ls) left
                  ∙ append_one pre (fitting max (n - a.ptr - (4 + length l)) (a.tot_cnt + 1) ls) l)
                (load-IsLoaded n max ls (pre ++ (l ∷ [])) a' v' k.1))
      ])
]

-- n calls of `ReadRecord`
abbrev pub read_all : ℕ → AdapterRam → List (Option (List ℕ)) × AdapterRam
read_all zero a = ([], a)
read_all (suc n) a = let (o, a') = read_record a in let (os, a'') = read_all n a' in (o ∷ os, a'')

pub read_one :
    (l : List ℕ) (a : AdapterRam) (n : ℕ)
    → of_bytes (read_at a.buf a.ptr 4) ≡ length l
    → read_at a.buf (a.ptr + 4) (length l) ≡ l
    → a.tot_cnt ≡ a.cur_cnt + suc n
    → read_record a ≡ (some l, record a { ptr = a.ptr + 4 + length l; cur_cnt = a.cur_cnt + 1 })
unfolding read_record
read_one l a n b c e = rw (==_ne a.cur_cnt a.tot_cnt (λ q. omega (arith, q, e))) (
    ap
      (λ m. (
        some (read_at a.buf (a.ptr + 4) m),
        record a { ptr = a.ptr + 4 + m; cur_cnt = a.cur_cnt + 1 },
      ))
      b
    ∙ ap (λ x. (some x, record a { ptr = a.ptr + 4 + length l; cur_cnt = a.cur_cnt + 1 })) c)

read_held :
    (ls : List (List ℕ)) (a : AdapterRam)
    → Holds a.buf a.ptr ls
    → a.tot_cnt ≡ a.cur_cnt + length ls
    → ((read_all (length ls) a).0 ≡ map some ls)
      × ((read_record (read_all (length ls) a).1).0 ≡ none)
unfolding read_record
read_held [] a w e =
    let done : a.cur_cnt ≡ a.tot_cnt = omega (arith, e) in (refl, rw (done, ==_self a.tot_cnt) refl)
read_held (l ∷ ls) a (b, c, w) e =
    let a' = record a { ptr = a.ptr + 4 + length l; cur_cnt = a.cur_cnt + 1 } in
    let one = read_one l a (length ls) b c e in
    let (more, last) = read_held ls a' w (omega (arith, e)) in
    (
      ap (λ r. r.0 ∷ (read_all (length ls) r.1).0) one ∙ ap (◌∷◌ (some l)) more,
      ap (λ r. (read_record (read_all (length ls) r.1).1).0) one ∙ last,
    )

-- The lines that `Init` keeps are in the buffer from its start on, and none is read.
pub init-Holds :
    (buf_size max : ℕ) (lines : List (List ℕ))
    → AreShort lines
    → let stored = fitting max buf_size 0 lines in
      let a = init buf_size max lines in
      Holds a.buf a.ptr stored × (a.tot_cnt ≡ a.cur_cnt + length stored)
unfolding init
init-Holds buf_size max lines k =
    let empty : AdapterRam = record {
      buf = replicate buf_size 0;
      ptr = 0;
      tot_cnt = 0;
      cur_cnt = 0;
    } in
    let v =
      load-IsLoaded buf_size max lines [] empty
        (record {
          held = tt;
          at_end = refl;
          room = omega arith;
          buf_len = length-replicate {0} buf_size 0;
          counted = refl;
          unread = refl;
        })
        k in
    let whole : buf_size - 0 ≡ buf_size = omega arith in
    let a : AdapterRam = load buf_size max empty lines in
    (
      subst (λ r. Holds a.buf 0 (fitting max r 0 lines)) whole v.held,
      subst (λ r. a.tot_cnt ≡ a.cur_cnt + length (fitting max r 0 lines)) whole
          (omega (arith, v.counted, v.unread)),
    )

-- For lines shorter than 2 ^ 32 bytes, after `Init` the calls of `ReadRecord` give, in the order of
-- the file, the lines that found room in the buffer, up to the maximum if there is one; and then
-- NULL.
pub read_back :
    (buf_size max : ℕ) (lines : List (List ℕ))
    → AreShort lines
    → let stored = fitting max buf_size 0 lines in
      let (records, a) = read_all (length stored) (init buf_size max lines) in
      (records ≡ map some stored) × ((read_record a).0 ≡ none)
read_back buf_size max lines k =
    let (held, unread) = init-Holds buf_size max lines k in
    read_held (fitting max buf_size 0 lines) (init buf_size max lines) held unread
