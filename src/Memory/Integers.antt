-- ===== src/Memory/Integers.antt =====
-- Little-endian integers: `uint32_t`, `uint64_t` and the two's complement `long long`.
use af_stream.Prelude.{
  ℕ, zero, suc, ◌+◌, ◌-◌, ◌*◌, ◌/◌, ◌%◌, ◌^◌, ◌<◌, ◌≡◌, refl, ap, ◌∙◌, List, [], ◌∷◌, arith, length,
  ltb, if◌then◌else◌,
}
use af_stream.Prelude.Int.{ℤ, pos, negsuc}
use native.Mathlib.Nat.{pow-suc}

-- the n bytes of x, lowest first
unfoldable pub le_bytes : ℕ → ℕ → List ℕ
le_bytes zero x = []
le_bytes (suc n) x = (x % 256) ∷ le_bytes n (x / 256)

unfoldable pub of_bytes : List ℕ → ℕ
of_bytes [] = 0
of_bytes (b ∷ bs) = b + 256 * of_bytes bs

pub length-le_bytes : (n x : ℕ) → length (le_bytes n x) ≡ n
unfolding le_bytes
length-le_bytes zero x = refl
length-le_bytes (suc n) x = ap suc (length-le_bytes n (x / 256))

pub of_bytes-le_bytes : (n x : ℕ) → x < 256 ^ n → of_bytes (le_bytes n x) ≡ x
unfolding le_bytes of_bytes
of_bytes-le_bytes zero x h = omega arith
of_bytes-le_bytes (suc n) x h =
    omega (arith, of_bytes-le_bytes n (x / 256) (omega (arith, pow-suc 256 n)))

-- the bit pattern of a `long long`
abbrev pub i64_word : ℤ → ℕ
i64_word (pos n) = n
i64_word (negsuc n) = 2 ^ 64 - 1 - n

abbrev pub i64_of_word : ℕ → ℤ
i64_of_word u = if ltb u (2 ^ 63) then pos u else negsuc (2 ^ 64 - 1 - u)

-- the integers that a `long long` holds
abbrev pub InI64 : ℤ → Type 0
InI64 (pos n) = n < 2 ^ 63
InI64 (negsuc n) = n < 2 ^ 63

unfoldable pub i64_bytes : ℤ → List ℕ
i64_bytes v = le_bytes 8 (i64_word v)

unfoldable pub i64_of_bytes : List ℕ → ℤ
i64_of_bytes bs = i64_of_word (of_bytes bs)

i64_word_lt : (v : ℤ) → InI64 v → i64_word v < 256 ^ 8
i64_word_lt (pos n) h = omega arith
i64_word_lt (negsuc n) h = omega arith

i64_of_word-i64_word : (v : ℤ) → InI64 v → i64_of_word (i64_word v) ≡ v
i64_of_word-i64_word (pos n) h = ground arith
i64_of_word-i64_word (negsuc n) h = ground arith

pub i64_of_bytes-i64_bytes : (v : ℤ) → InI64 v → i64_of_bytes (i64_bytes v) ≡ v
unfolding i64_bytes i64_of_bytes
i64_of_bytes-i64_bytes v h =
    ap i64_of_word (of_bytes-le_bytes 8 (i64_word v) (i64_word_lt v h)) ∙ i64_of_word-i64_word v h

pub length-i64_bytes : (v : ℤ) → length (i64_bytes v) ≡ 8
unfolding i64_bytes
length-i64_bytes v = length-le_bytes 8 (i64_word v)
