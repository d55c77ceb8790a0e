-- ===== src/Threads/Address/Accepted.antt =====
-- Which addresses are accepted.
use af_stream.Prelude.{
  take, ℕ, zero, suc, ◌+◌, ◌≡◌, refl, sym, ap, ap₂, ◌∙◌, subst, ◌↔◌, inl, inr, some, Bool, true,
  false, ◌&&◌, ◌||◌, List, [], ◌∷◌, ◌++◌, ◌==◌, if◌then◌else◌, Bool-cases, Option-cases, length,
  arith,
}
use af_stream.Threads.Address.{
  einval, eprotonosupport, Result, ok, err, then_ok, separator, tcp, drop, starts_with, is_empty,
  equal, find, parse_at, parse_uri, check_protocol, init_address,
}

and_true : (a b : Bool) → (a && b) ≡ true → (a ≡ true) × (b ≡ true)
and_true true true e = (refl, refl)
and_true true false e = absurd (cc)
and_true false b e = absurd (cc)

or_false : (a b : Bool) → (a || b) ≡ false → (a ≡ false) × (b ≡ false)
or_false false false e = (refl, refl)
or_false true b e = absurd (cc)
or_false false true e = absurd (cc)

equal-true : (xs ys : List ℕ) → equal xs ys ≡ true → xs ≡ ys
equal-true [] [] e = refl
equal-true [] (y ∷ ys) e = absurd (cc)
equal-true (x ∷ xs) [] e = absurd (cc)
equal-true (x ∷ xs) (y ∷ ys) e =
    let (a, b) = and_true (x == y) (equal xs ys) e in
    let same : x ≡ y = ground arith in ap₂ ◌∷◌ same (equal-true xs ys b)

-- A text that starts with another is that one and the rest.
starts_split :
    (ps xs : List ℕ) (n : ℕ) → starts_with ps xs ≡ true → length ps ≡ n → xs ≡ ps ++ drop n xs
starts_split [] xs zero e h = refl
starts_split [] xs (suc n) e h = absurd (omega arith)
starts_split (p ∷ ps) [] n e h = absurd (cc)
starts_split (p ∷ ps) (x ∷ xs) zero e h = absurd (omega arith)
starts_split (p ∷ ps) (x ∷ xs) (suc n) e h =
    let (a, b) = and_true (p == x) (starts_with ps xs) e in
    let same : x ≡ p = ground arith in ap₂ ◌∷◌ same (starts_split ps xs n b (omega arith))

find_split :
    (xs : List ℕ) (n : ℕ) → find xs ≡ some n → xs ≡ take n xs ++ separator ++ drop (n + 3) xs
unfolding find
find_split [] n e = absurd (cc)
find_split (x ∷ xs) n e = elim (Bool-cases (starts_with separator (x ∷ xs))) [
  | inl s ↦ let zeroth : n ≡ 0 = cc (e, s) in rw zeroth (starts_split separator (x ∷ xs) 3 s refl)
  | inr s ↦ elim (Option-cases (find xs)) [
    | inl f ↦ absurd (cc (e, s, f))
    | inr (m, f) ↦
        let next : n ≡ suc m = cc (e, s, f) in
        let move : suc m + 3 ≡ suc (m + 3) = omega arith in
        rw (next, move) (ap (◌∷◌ x) (find_split xs m f))
  ]
]

abbrev judged : List ℕ × List ℕ → Result (List ℕ)
judged p = then_ok (if equal p.0 tcp then ok tt else err eprotonosupport) (λ _. ok p.1)

judged_ok : (p q a : List ℕ) → judged (p, q) ≡ ok a → (p ≡ tcp) × (q ≡ a)
judged_ok p q a e = elim (Bool-cases (equal p tcp)) [
  | inl s ↦
      let e' : ok q ≡ ok a =
        subst (λ b. then_ok (if b then ok tt else err eprotonosupport) (λ _. ok q) ≡ ok a) s e in
      (equal-true p tcp s, cc)
  | inr s ↦
      let e' : err eprotonosupport ≡ ok a =
        subst (λ b. then_ok (if b then ok tt else err eprotonosupport) (λ _. ok q) ≡ ok a) s e in
      absurd (cc)
]

at_split :
    (uri a : List ℕ) (n : ℕ)
    → uri ≡ take n uri ++ separator ++ drop (n + 3) uri
    → then_ok (parse_at uri (some n)) judged ≡ ok a
    → (uri ≡ tcp ++ separator ++ a) × (is_empty a ≡ false)
at_split uri a n h e = elim (Bool-cases (is_empty (take n uri) || is_empty (drop (n + 3) uri))) [
  | inl s ↦
      let e' : err einval ≡ ok a =
        subst
          (λ b. then_ok (if b then err einval else ok (take n uri, drop (n + 3) uri)) judged ≡ ok a)
          s e in
      absurd (cc)
  | inr s ↦
      let e' : judged (take n uri, drop (n + 3) uri) ≡ ok a =
        subst
          (λ b. then_ok (if b then err einval else ok (take n uri, drop (n + 3) uri)) judged ≡ ok a)
          s e in
      let (p, q) = judged_ok (take n uri) (drop (n + 3) uri) a e' in
      let (_, full) = or_false (is_empty (take n uri)) (is_empty (drop (n + 3) uri)) s in
      (h ∙ ap₂ (λ xs ys. xs ++ separator ++ ys) p q, ap is_empty (sym q) ∙ full)
]

accepted :
    (uri a : List ℕ)
    → init_address uri ≡ ok a
    → (uri ≡ tcp ++ separator ++ a) × (is_empty a ≡ false)
unfolding init_address parse_uri check_protocol
accepted uri a e = elim (Option-cases (find uri)) [
  | inl f ↦ absurd (cc (e, f))
  | inr (n, f) ↦
      let e' : then_ok (parse_at uri (some n)) judged ≡ ok a =
        subst (λ o. then_ok (parse_at uri o) judged ≡ ok a) f e in
      at_split uri a n (find_split uri n f) e'
]

full_address : (a : List ℕ) → is_empty a ≡ false → init_address (tcp ++ separator ++ a) ≡ ok a
unfolding init_address parse_uri check_protocol find
full_address [] h = absurd (cc)
full_address (x ∷ xs) h = refl

-- A listen address is accepted exactly if it is "tcp://" and something behind it, which is what the
-- listener is given; every other one is an error.
pub init_address_iff :
    (uri a : List ℕ)
    → (init_address uri ≡ ok a) ↔ ((uri ≡ tcp ++ separator ++ a) × (is_empty a ≡ false))
init_address_iff uri a = (accepted uri a, λ (e, h). ap init_address e ∙ full_address a h)
