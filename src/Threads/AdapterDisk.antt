-- ===== src/Threads/AdapterDisk.antt =====
-- adapter_disk.hpp, `AdapterDisk`: the lines of a file, one at a call. The lines are what `fgets`
-- gives, as the bytes before the terminator.
use af_stream.Prelude.{
  ℕ, zero, suc, ◌+◌, ◌<◌, ◌≡◌, refl, ap, ◌∙◌, ◌⊎◌, Option, none, some, false, ◌&&◌, List, [], ◌∷◌,
  ◌==◌, ltb, if◌then◌else◌, arith,
}

-- `rest` are the lines of the file that are not read; `cnt` starts indeterminate.
pub record AdapterDisk : Type 0 where
  pub rest : List (List ℕ)
  pub buf : List ℕ
  pub max : ℕ
  pub cnt : ℕ

unfoldable pub init : ℕ → List (List ℕ) → List ℕ → ℕ → AdapterDisk
init max lines buf cnt = record { rest = lines; buf = buf; max = max; cnt = cnt }

abbrev pub fgets : AdapterDisk → List (List ℕ) → AdapterDisk
fgets a [] = a
fgets a (l ∷ ls) = record a { rest = ls; buf = l }

-- The record, `none` where `*data` is NULL at the end: the second test sets it in both branches,
-- whatever the first one did.
unfoldable pub read_record : AdapterDisk → Option (List ℕ) × AdapterDisk
read_record a =
    let a' = fgets a a.rest in
    if ltb 0 a'.max && (a'.cnt == a'.max)
    then (none, a')
    else (some a'.buf, record a' { cnt = a'.cnt + 1 })

-- the adapter after n calls
abbrev pub after : ℕ → AdapterDisk → AdapterDisk
after zero a = a
after (suc n) a = after n (read_record a).1

-- line n of those that are left, or the last line if there are fewer
abbrev pub line_or_last : List ℕ → List (List ℕ) → ℕ → List ℕ
line_or_last buf [] n = buf
line_or_last buf (l ∷ ls) zero = l
line_or_last buf (l ∷ ls) (suc n) = line_or_last l ls n

next_line :
    (a : AdapterDisk) (n : ℕ) (ls : List (List ℕ))
    → a.rest ≡ ls
    → line_or_last (fgets a ls).buf (fgets a ls).rest n ≡ line_or_last a.buf ls (suc n)
next_line a n [] e = ap (λ ls. line_or_last a.buf ls n) e
next_line a n (l ∷ ls) e = refl

this_line : (a : AdapterDisk) (ls : List (List ℕ)) → (fgets a ls).buf ≡ line_or_last a.buf ls 0
this_line a [] = refl
this_line a (l ∷ ls) = refl

same_max : (a : AdapterDisk) (ls : List (List ℕ)) → (fgets a ls).max ≡ a.max
same_max a [] = refl
same_max a (l ∷ ls) = refl

same_cnt : (a : AdapterDisk) (ls : List (List ℕ)) → (fgets a ls).cnt ≡ a.cnt
same_cnt a [] = refl
same_cnt a (l ∷ ls) = refl

goes_on :
    (a : AdapterDisk) (n : ℕ)
    → (a.max ≡ 0) ⊎ (a.cnt + n < a.max)
    → (ltb 0 (fgets a a.rest).max && ((fgets a a.rest).cnt == (fgets a a.rest).max)) ≡ false
goes_on a n h = rw (same_max a a.rest, same_cnt a a.rest) (ground arith)

-- Below the maximum, and with none at all, call number n gives line n of the file, and after the end
-- of the file its last line again and again; it never gives NULL.
pub record_after :
    (n : ℕ) (a : AdapterDisk)
    → (a.max ≡ 0) ⊎ (a.cnt + n < a.max)
    → (read_record (after n a)).0 ≡ some (line_or_last a.buf a.rest n)
unfolding read_record
record_after zero a h = rw (goes_on a 0 h) (ap some (this_line a a.rest))
record_after (suc n) a h =
    let f = fgets a a.rest in
    let a' : AdapterDisk = record f { cnt = f.cnt + 1 } in
    let moved : (read_record a).1 ≡ a' = rw (goes_on a (suc n) h) refl in
    let h' : (a'.max ≡ 0) ⊎ (a'.cnt + n < a'.max) =
      omega (arith, h, same_max a a.rest, same_cnt a a.rest) in
    ap (λ b. (read_record (after n b)).0) moved
    ∙ record_after n a' h'
    ∙ ap some (next_line a n a.rest refl)
