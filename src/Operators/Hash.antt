-- ===== src/Operators/Hash.antt =====
-- hash.cpp: `AwareHash`, a multiplicative hash of bytes in 32-bit arithmetic, and `Hash`, which takes
-- its constants from the seed of the operator tracker. The lines that would make the three constants
-- differ are commented out in the source.
use Prim.Native.Nat.{bit_xor}
use native.Mathlib.Nat.{mod-add-mod, mod-add-div', add-mul-mod_self_right, mod-lt}
use af_stream.Prelude.{
  ℕ, ◌+◌, ◌*◌, ◌/◌, ◌%◌, ◌^◌, ◌<◌, ◌≡◌, refl, sym, ap, ◌∙◌, List, [], ◌∷◌, arith,
}
use af_stream.Memory.Integers.{le_bytes}

unfoldable pub hash_bytes : List ℕ → ℕ → ℕ → ℕ
hash_bytes [] hash scale = hash
hash_bytes (b ∷ bs) hash scale = hash_bytes bs ((hash * scale % 2 ^ 32 + b) % 2 ^ 32) scale

unfoldable pub aware_hash : List ℕ → ℕ → ℕ → ℕ → ℕ
aware_hash bytes hash scale hardener = bit_xor (hash_bytes bytes hash scale) hardener

-- with the default arguments
abbrev pub seeded : List ℕ → ℕ
seeded key = aware_hash key 388650253 388650319 1176845762

pub record Hash : Type 0 where
  pub hash : ℕ
  pub scale : ℕ
  pub hardener : ℕ
  pub max_value : ℕ

-- The constructor, given what `GetSeed` returns.
unfoldable pub create : ℕ → ℕ → Hash
create afs_seed max_value = record {
  hash = seeded (le_bytes 8 afs_seed);
  scale = seeded (le_bytes 8 afs_seed);
  hardener = seeded (le_bytes 8 afs_seed);
  max_value = max_value;
}

-- `AwareHash` takes the three constants as `unsigned int`.
unfoldable pub get_hash_value : Hash → List ℕ → ℕ
get_hash_value h key =
    aware_hash key (h.hash % 2 ^ 32) (h.scale % 2 ^ 32) (h.hardener % 2 ^ 32) % h.max_value

-- the polynomial in `scale` whose coefficients are the bytes
abbrev pub polynomial : List ℕ → ℕ → ℕ → ℕ
polynomial [] hash scale = hash
polynomial (b ∷ bs) hash scale = polynomial bs (hash * scale + b) scale

-- A factor can be reduced first.
mod-mul-add : (a s b m : ℕ) → (a % m * s % m + b) % m ≡ (a * s + b) % m
mod-mul-add a s b m =
    mod-add-mod (a % m * s) m b
    ∙ sym (add-mul-mod_self_right (a % m * s + b) (a / m * s) m)
    ∙ ap (λ k. k % m) whole
  where
    whole : a % m * s + b + a / m * s * m ≡ a * s + b
    whole = omega (arith, ap (λ (t : ℕ). t * s) (mod-add-div' a m))

hash_bytes_mod : (bs : List ℕ) (h s : ℕ) → hash_bytes bs (h % 2 ^ 32) s ≡ polynomial bs h s % 2 ^ 32
unfolding hash_bytes
hash_bytes_mod [] h s = refl
hash_bytes_mod (b ∷ bs) h s =
    ap (λ k. hash_bytes bs k s) (mod-mul-add h s b (2 ^ 32)) ∙ hash_bytes_mod bs (h * s + b) s

pub get_hash_value_lem :
    (h : Hash) (key : List ℕ)
    → 0 < h.max_value
    → (get_hash_value h key < h.max_value)
      × (get_hash_value h key
          ≡ bit_xor (polynomial key h.hash (h.scale % 2 ^ 32) % 2 ^ 32) (h.hardener % 2 ^ 32)
            % h.max_value)
unfolding get_hash_value aware_hash
get_hash_value_lem h key pos = (
  mod-lt _ pos,
  ap (λ k. bit_xor k (h.hardener % 2 ^ 32) % h.max_value)
      (hash_bytes_mod key h.hash (h.scale % 2 ^ 32)),
)
