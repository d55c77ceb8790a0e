-- ===== src/Memory/Double.antt =====
-- The conversion of a `long long` to a `double`, by which divergences are returned: to the nearest
-- integer with 53 significant bits, and of two equally near ones to that with an even significand.
use af_stream.Prelude.{
  ℕ, zero, suc, ◌+◌, ◌-◌, ◌*◌, ◌/◌, ◌%◌, ◌^◌, ◌≤◌, ◌<◌, ◌≡◌, refl, true, false, ◌&&◌, ◌||◌, ◌==◌,
  ltb, if◌then◌else◌, Bool-cases, inl, inr, arith,
}
use af_stream.Prelude.Int.{ℤ, pos, negsuc, ltb_ℤ, ◌≤ℤ◌}

-- The number is m * u + r, with r below u. The significand is halved until it has 53 bits, which is so
-- after 11 rounds for the absolute value of a `long long`; then r decides.
unfoldable pub round_from : ℕ → ℕ → ℕ → ℕ → ℕ
round_from zero m u r = m * u
round_from (suc n) m u r =
    let half = round_from n (m / 2) (u + u) (r + m % 2 * u) in
    if ltb m (2 ^ 53)
    then (if ltb u (r + r) || (r + r == u && m % 2 == 1) then m * u + u else m * u)
    else half

abbrev pub round_nat : ℕ → ℕ
round_nat n = round_from 64 n 1 0

unfoldable pub to_double : ℤ → ℤ
to_double (pos n) = pos (round_nat n)
to_double (negsuc n) = if round_nat (suc n) == 0 then pos 0 else negsuc (round_nat (suc n) - 1)

scaled_mono : (a b u : ℕ) → a ≤ b → a * u ≤ b * u
scaled_mono a b u h = grind arith

-- A significand of 53 bits or fewer is not rounded down.
round_below : (n m u r : ℕ) → m < 2 ^ 53 → m * u ≤ round_from n m u r
unfolding round_from
round_below zero m u r h = omega arith
round_below (suc n) m u r h =
    let e : ltb m (2 ^ 53) ≡ true = ground arith in
    rw e (elim (Bool-cases (ltb u (r + r) || (r + r == u && m % 2 == 1))) [
      | inl f ↦ rw f (omega arith)
      | inr f ↦ rw f (omega arith)
    ])

-- A longer one keeps the 54th bit.
round_above : (n m u r : ℕ) → 2 ^ 53 ≤ m → 2 ^ 53 * u ≤ round_from n m u r
unfolding round_from
round_above zero m u r h = scaled_mono (2 ^ 53) m u h
round_above (suc n) m u r h =
    let e : ltb m (2 ^ 53) ≡ false = ground arith in
    rw e (elim (Bool-cases (ltb (m / 2) (2 ^ 53))) [
      | inl f ↦
          let low = round_below n (m / 2) (u + u) (r + m % 2 * u) (ground arith) in
          let half = scaled_mono (2 ^ 52) (m / 2) (u + u) (omega arith) in omega (arith, low, half)
      | inr f ↦
          let more = round_above n (m / 2) (u + u) (r + m % 2 * u) (ground arith) in
          omega (arith, more)
    ])

round_exact : (n m : ℕ) → m < 2 ^ 53 → round_from (suc n) m 1 0 ≡ m
unfolding round_from
round_exact n m h = let e : ltb m (2 ^ 53) ≡ true = ground arith in rw e (omega arith)

round_small : (n : ℕ) → n < 2 ^ 53 → round_nat n ≡ n
round_small n h = round_exact 63 n h

-- The conversion does not change how a number compares with a threshold that has 53 bits.
pub ltb_ℤ-to_double :
    (t d : ℤ) → pos 0 ≤ℤ t → t ≤ℤ pos (2 ^ 53 - 1) → ltb_ℤ t (to_double d) ≡ ltb_ℤ t d
unfolding to_double
ltb_ℤ-to_double (negsuc t) d h k = absurd (omega arith)
ltb_ℤ-to_double (pos t) (pos n) h k = elim (Bool-cases (ltb n (2 ^ 53))) [
  | inl e ↦ rw (round_small n (ground arith)) refl
  | inr e ↦ let high = round_above 64 n 1 0 (ground arith) in ground (arith, high, e, k)
]
ltb_ℤ-to_double (pos t) (negsuc n) h k = elim (Bool-cases (round_nat (suc n) == 0)) [
  | inl e ↦ rw e (ground arith)
  | inr e ↦ rw e (ground arith)
]
