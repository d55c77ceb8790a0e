-- ===== src/Memory/Copy.antt =====
-- `memcpy` into and out of a byte buffer. An address is an offset into its buffer; what is written
-- past the end of a buffer is dropped here, so a caller states that its access is in range.
use af_stream.Prelude.{
  ℕ, zero, suc, ◌+◌, ◌≤◌, ◌<◌, ◌≡◌, refl, ◌∙◌, ◌⊎◌, inl, ap, ap₂, List, [], ◌∷◌, arith, length,
  get_or, set, length-set, get_or-set_self, get_or-set_ne,
}

-- memcpy(buf + off, bs, length bs)
unfoldable pub write_at : List ℕ → ℕ → List ℕ → List ℕ
write_at buf off [] = buf
write_at buf off (b ∷ bs) = write_at (set buf off b) (suc off) bs

-- the n bytes at buf + off
unfoldable pub read_at : List ℕ → ℕ → ℕ → List ℕ
read_at buf off zero = []
read_at buf off (suc n) = get_or buf off 0 ∷ read_at buf (suc off) n

pub length-write_at :
    (buf : List ℕ) (off : ℕ) (bs : List ℕ) → length (write_at buf off bs) ≡ length buf
unfolding write_at
length-write_at buf off [] = refl
length-write_at buf off (b ∷ bs) =
    length-write_at (set buf off b) (suc off) bs ∙ length-set buf off b

pub length-read_at : (buf : List ℕ) (off n : ℕ) → length (read_at buf off n) ≡ n
unfolding read_at
length-read_at buf off zero = refl
length-read_at buf off (suc n) = ap suc (length-read_at buf (suc off) n)

-- A byte outside the written range keeps its value.
pub get_or-write_at_outside :
    (buf : List ℕ) (off : ℕ) (bs : List ℕ) (j : ℕ)
    → (j < off) ⊎ (off + length bs ≤ j)
    → get_or (write_at buf off bs) j 0 ≡ get_or buf j 0
unfolding write_at
get_or-write_at_outside buf off [] j h = refl
get_or-write_at_outside buf off (b ∷ bs) j h =
    get_or-write_at_outside (set buf off b) (suc off) bs j shifted
    ∙ get_or-set_ne buf off j b 0 (omega arith)
  where
    shifted : (j < suc off) ⊎ (suc off + length bs ≤ j)
    shifted = omega arith

-- What is read from a range is what was last written there.
pub read_at-write_at_self :
    (buf : List ℕ) (off : ℕ) (bs : List ℕ)
    → off + length bs ≤ length buf
    → read_at (write_at buf off bs) off (length bs) ≡ bs
unfolding write_at read_at
read_at-write_at_self buf off [] h = refl
read_at-write_at_self buf off (b ∷ bs) h =
    ap₂ ◌∷◌
      (get_or-write_at_outside (set buf off b) (suc off) bs off (inl (omega arith))
        ∙ get_or-set_self buf off b 0 (omega arith))
      (read_at-write_at_self (set buf off b) (suc off) bs (omega (arith, length-set buf off b)))

-- A range that a write does not touch reads as before.
pub read_at-write_at_apart :
    (buf : List ℕ) (off : ℕ) (bs : List ℕ) (at n : ℕ)
    → (at + n ≤ off) ⊎ (off + length bs ≤ at)
    → read_at (write_at buf off bs) at n ≡ read_at buf at n
unfolding read_at
read_at-write_at_apart buf off bs at zero h = refl
read_at-write_at_apart buf off bs at (suc n) h =
    ap₂ ◌∷◌ (get_or-write_at_outside buf off bs at (omega arith))
      (read_at-write_at_apart buf off bs (suc at) n (omega arith))

get_or-read_at :
    (buf : List ℕ) (off n i : ℕ) → i < n → get_or (read_at buf off n) i 0 ≡ get_or buf (off + i) 0
unfolding read_at
get_or-read_at buf off zero i h = absurd (omega arith)
get_or-read_at buf off (suc n) zero h = ap (λ k. get_or buf k 0) (omega arith)
get_or-read_at buf off (suc n) (suc i) h =
    get_or-read_at buf (suc off) n i (omega arith) ∙ ap (λ k. get_or buf k 0) (omega arith)

-- A range of a range that starts the buffer is that range of the buffer.
pub read_at-read_at :
    (buf : List ℕ) (m at n : ℕ) → at + n ≤ m → read_at (read_at buf 0 m) at n ≡ read_at buf at n
unfolding read_at
read_at-read_at buf m at zero h = refl
read_at-read_at buf m at (suc n) h =
    ap₂ ◌∷◌ (get_or-read_at buf 0 m at (omega arith) ∙ ap (λ k. get_or buf k 0) (omega arith))
      (read_at-read_at buf m (suc at) n (omega arith))
