-- ===== src/Window/Item.antt =====
-- What is appended to an item is read back from it.
use af_stream.Prelude.{
  ℕ, suc, ◌+◌, ◌*◌, ◌%◌, ◌^◌, ◌≤◌, ◌<◌, ◌≡◌, refl, ap, ◌∙◌, subst, inl, Option, some, List, [], ◌∷◌,
  ◌++◌, true, leb, ◌>>=◌, length, length-append, arith,
}
use af_stream.Prelude.Int.{ℤ}
use af_stream.Memory.Copy.{
  write_at, read_at, length-write_at, read_at-write_at_self, read_at-write_at_apart,
}
use af_stream.Memory.Integers.{
  le_bytes, of_bytes, i64_bytes, i64_of_bytes, InI64, length-le_bytes, of_bytes-le_bytes,
  length-i64_bytes, i64_of_bytes-i64_bytes,
}
use af_stream.Window.{CmItem, append_counter, append_hh}

abbrev pub append_all : List (ℕ × ℤ) → CmItem → Option CmItem
append_all [] it = some it
append_all (c ∷ cs) it = append_counter it c.0 c.1 >>= append_all cs

-- The indices and values are in the range of their types.
abbrev pub AreCounters : List (ℕ × ℤ) → Type 0
AreCounters [] = Unit {0}
AreCounters (c ∷ cs) = (c.0 < 2 ^ 32) × InI64 c.1 × AreCounters cs

abbrev pub AreKeys : List ℕ → Type 0
AreKeys [] = Unit {0}
AreKeys (k ∷ ks) = (k < 2 ^ 64) × AreKeys ks

-- The counters, or the keys, that the bytes from p on are.
abbrev pub CountersAt : List ℕ → ℕ → List (ℕ × ℤ) → Type 0
CountersAt raw p [] = Unit {0}
CountersAt raw p (c ∷ cs) =
    (of_bytes (read_at raw p 4) ≡ c.0)
    × (i64_of_bytes (read_at raw (p + 4) 8) ≡ c.1)
    × CountersAt raw (p + 12) cs

abbrev pub KeysAt : List ℕ → ℕ → List ℕ → Type 0
KeysAt raw p [] = Unit {0}
KeysAt raw p (k ∷ ks) = (of_bytes (read_at raw p 8) ≡ k) × KeysAt raw (p + 8) ks

pub record IsHolding (it : CmItem) (cs : List (ℕ × ℤ)) (ks : List ℕ) : Type 0 where
  pub counters : CountersAt it.raw 0 cs
  pub keys : KeysAt it.raw (12 * length cs) ks
  pub num_counter : it.num_counter ≡ length cs
  pub num_hh : it.num_hh ≡ length ks
  pub at_end : it.start ≡ 12 * length cs + 8 * length ks

CountersAt-write_at :
    (raw : List ℕ) (p off : ℕ) (bs : List ℕ) (cs : List (ℕ × ℤ))
    → p + 12 * length cs ≤ off
    → CountersAt raw p cs
    → CountersAt (write_at raw off bs) p cs
CountersAt-write_at raw p off bs [] h w = tt
CountersAt-write_at raw p off bs (c ∷ cs) h (a, b, d) = (
  ap of_bytes (read_at-write_at_apart raw off bs p 4 (inl (omega arith))) ∙ a,
  ap i64_of_bytes (read_at-write_at_apart raw off bs (p + 4) 8 (inl (omega arith))) ∙ b,
  CountersAt-write_at raw (p + 12) off bs cs (omega arith) d,
)

KeysAt-write_at :
    (raw : List ℕ) (p off : ℕ) (bs : List ℕ) (ks : List ℕ)
    → p + 8 * length ks ≤ off
    → KeysAt raw p ks
    → KeysAt (write_at raw off bs) p ks
KeysAt-write_at raw p off bs [] h w = tt
KeysAt-write_at raw p off bs (k ∷ ks) h (a, d) = (
  ap of_bytes (read_at-write_at_apart raw off bs p 8 (inl (omega arith))) ∙ a,
  KeysAt-write_at raw (p + 8) off bs ks (omega arith) d,
)

CountersAt-append :
    (raw : List ℕ) (p : ℕ) (cs : List (ℕ × ℤ)) (c : ℕ × ℤ)
    → CountersAt raw p cs
    → CountersAt raw (p + 12 * length cs) (c ∷ [])
    → CountersAt raw p (cs ++ (c ∷ []))
CountersAt-append raw p [] c w h = subst (λ q. CountersAt raw q (c ∷ [])) (omega arith) h
CountersAt-append raw p (d ∷ ds) c (a, b, w) h = (
  a,
  b,
  CountersAt-append raw (p + 12) ds c w (subst (λ q. CountersAt raw q (c ∷ [])) (omega arith) h),
)

KeysAt-append :
    (raw : List ℕ) (p : ℕ) (ks : List ℕ) (k : ℕ)
    → KeysAt raw p ks
    → of_bytes (read_at raw (p + 8 * length ks) 8) ≡ k
    → KeysAt raw p (ks ++ (k ∷ []))
KeysAt-append raw p [] k w h = (subst (λ q. of_bytes (read_at raw q 8) ≡ k) (omega arith) h, tt)
KeysAt-append raw p (d ∷ ds) k (a, w) h = (
  a,
  KeysAt-append raw (p + 8) ds k w (subst (λ q. of_bytes (read_at raw q 8) ≡ k) (omega arith) h),
)

read_word :
    (raw : List ℕ) (p n x : ℕ)
    → p + n ≤ length raw
    → x < 256 ^ n
    → of_bytes (read_at (write_at raw p (le_bytes n x)) p n) ≡ x
read_word raw p n x h b =
    ap of_bytes (
      subst (λ m. read_at (write_at raw p (le_bytes n x)) p m ≡ le_bytes n x) (length-le_bytes n x)
        (read_at-write_at_self raw p (le_bytes n x) (omega (arith, length-le_bytes n x))))
    ∙ of_bytes-le_bytes n x b

read_i64 :
    (raw : List ℕ) (p : ℕ) (v : ℤ)
    → p + 8 ≤ length raw
    → InI64 v
    → i64_of_bytes (read_at (write_at raw p (i64_bytes v)) p 8) ≡ v
read_i64 raw p v h b =
    ap i64_of_bytes (
      subst (λ m. read_at (write_at raw p (i64_bytes v)) p m ≡ i64_bytes v) (length-i64_bytes v)
        (read_at-write_at_self raw p (i64_bytes v) (omega (arith, length-i64_bytes v))))
    ∙ i64_of_bytes-i64_bytes v b

counter-CountersAt :
    (raw : List ℕ) (p : ℕ) (c : ℕ × ℤ)
    → p + 12 ≤ length raw
    → c.0 < 2 ^ 32
    → InI64 c.1
    → CountersAt (write_at (write_at raw p (le_bytes 4 c.0)) (p + 4) (i64_bytes c.1)) p (c ∷ [])
counter-CountersAt raw p c h a b = (
  ap of_bytes (
        read_at-write_at_apart (write_at raw p (le_bytes 4 c.0)) (p + 4) (i64_bytes c.1) p 4
          (inl (omega arith)))
      ∙ read_word raw p 4 c.0 (omega arith) (omega (arith, a)),
  read_i64 (write_at raw p (le_bytes 4 c.0)) (p + 4) c.1
      (omega (arith, length-write_at raw p (le_bytes 4 c.0))) b,
  tt,
)

-- An item after one more counter, or one more key, has it at the end.
pub append_counter-IsHolding :
    (it : CmItem) (cs : List (ℕ × ℤ)) (c : ℕ × ℤ)
    → IsHolding it cs []
    → 12 * suc (length cs) ≤ length it.raw
    → length it.raw < 2 ^ 32
    → c.0 < 2 ^ 32
    → InI64 c.1
    → (it' : CmItem) × (append_counter it c.0 c.1 ≡ some it')
      × IsHolding it' (cs ++ (c ∷ [])) []
      × (length it'.raw ≡ length it.raw)
unfolding append_counter
append_counter-IsHolding it cs c v room short a b = (
  record it { num_counter = (it.num_counter + 1) % 2 ^ 32; raw = new; start = it.start + 12 },
  rw fits refl,
  record {
    counters =
        CountersAt-append new 0 cs c
          (CountersAt-write_at first 0 (it.start + 4) (i64_bytes c.1) cs (omega (arith, v.at_end)) (
            CountersAt-write_at it.raw 0 it.start (le_bytes 4 c.0) cs (omega (arith, v.at_end))
              v.counters))
          (subst (λ q. CountersAt new q (c ∷ [])) (omega (arith, v.at_end))
            (counter-CountersAt it.raw it.start c (omega (arith, v.at_end)) a b));
    keys = tt;
    num_counter = omega (arith, v.num_counter, len);
    num_hh = v.num_hh;
    at_end = omega (arith, v.at_end, len);
  },
  length-write_at first (it.start + 4) (i64_bytes c.1)
      ∙ length-write_at it.raw it.start (le_bytes 4 c.0),
)
  where
    first : List ℕ
    first = write_at it.raw it.start (le_bytes 4 c.0)

    new : List ℕ
    new = write_at first (it.start + 4) (i64_bytes c.1)

    len : length (cs ++ (c ∷ [])) ≡ length cs + 1
    len = length-append {0} cs (c ∷ [])

    fits : leb (it.start + 12) (length it.raw) ≡ true
    fits = ground (arith, v.at_end)

pub append_hh-IsHolding :
    (it : CmItem) (cs : List (ℕ × ℤ)) (ks : List ℕ) (k : ℕ)
    → IsHolding it cs ks
    → 12 * length cs + 8 * suc (length ks) ≤ length it.raw
    → length it.raw < 2 ^ 32
    → k < 2 ^ 64
    → (it' : CmItem) × (append_hh it k ≡ some it')
      × IsHolding it' cs (ks ++ (k ∷ []))
      × (length it'.raw ≡ length it.raw)
unfolding append_hh
append_hh-IsHolding it cs ks k v room short a = (
  record it { num_hh = (it.num_hh + 1) % 2 ^ 32; raw = new; start = it.start + 8 },
  rw fits refl,
  record {
    counters =
        CountersAt-write_at it.raw 0 it.start (le_bytes 8 k) cs (omega (arith, v.at_end))
          v.counters;
    keys =
        KeysAt-append new (12 * length cs) ks k
          (KeysAt-write_at it.raw (12 * length cs) it.start (le_bytes 8 k) ks
            (omega (arith, v.at_end)) v.keys)
          (subst (λ q. of_bytes (read_at new q 8) ≡ k) v.at_end
            (read_word it.raw it.start 8 k (omega (arith, v.at_end)) (omega (arith, a))));
    num_counter = v.num_counter;
    num_hh = omega (arith, v.num_hh, len);
    at_end = omega (arith, v.at_end, len);
  },
  length-write_at it.raw it.start (le_bytes 8 k),
)
  where
    new : List ℕ
    new = write_at it.raw it.start (le_bytes 8 k)

    len : length (ks ++ (k ∷ [])) ≡ length ks + 1
    len = length-append {0} ks (k ∷ [])

    fits : leb (it.start + 8) (length it.raw) ≡ true
    fits = ground (arith, v.at_end)
