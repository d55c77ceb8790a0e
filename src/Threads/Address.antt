-- ===== src/Threads/Address.antt =====
-- up_thread_net.hpp, the start of `ThreadInitHandler`: the listen address is parsed and its protocol is
-- checked. A string is its bytes; an error is the value of `errno`, at which the handler's assertions
-- end the process.
pub mod Accepted
use af_stream.Prelude.{
  take, ℕ, zero, suc, ◌+◌, Option, none, some, Bool, true, false, ◌&&◌, ◌||◌, List, [], ◌∷◌, ◌==◌,
  if◌then◌else◌,
}

pub data Errno : Type 0 where
  einval : Errno
  eprotonosupport : Errno

pub data Result (A : Type 0) : Type 0 where
  ok : A → Result A
  err : Errno → Result A

abbrev pub then_ok : {A B : Type 0} → Result A → (A → Result B) → Result B
then_ok (ok a) f = f a
then_ok (err e) f = err e

abbrev pub separator : List ℕ
separator = 58 ∷ 47 ∷ 47 ∷ []

abbrev pub tcp : List ℕ
tcp = 116 ∷ 99 ∷ 112 ∷ []

abbrev pub drop : ℕ → List ℕ → List ℕ
drop zero xs = xs
drop (suc n) [] = []
drop (suc n) (x ∷ xs) = drop n xs

abbrev pub starts_with : List ℕ → List ℕ → Bool
starts_with [] xs = true
starts_with (p ∷ ps) [] = false
starts_with (p ∷ ps) (x ∷ xs) = (p == x) && starts_with ps xs

abbrev pub is_empty : List ℕ → Bool
is_empty [] = true
is_empty (x ∷ xs) = false

abbrev pub equal : List ℕ → List ℕ → Bool
equal [] [] = true
equal [] (y ∷ ys) = false
equal (x ∷ xs) [] = false
equal (x ∷ xs) (y ∷ ys) = (x == y) && equal xs ys

abbrev pub plus_one : Option ℕ → Option ℕ
plus_one none = none
plus_one (some n) = some (suc n)

-- the first position of the separator, `none` for `npos`
unfoldable pub find : List ℕ → Option ℕ
find [] = none
find (x ∷ xs) =
    let rest = find xs in if starts_with separator (x ∷ xs) then some 0 else plus_one rest

abbrev pub parse_at : List ℕ → Option ℕ → Result (List ℕ × List ℕ)
parse_at uri none = err einval
parse_at uri (some n) =
    if is_empty (take n uri) || is_empty (drop (n + 3) uri)
    then err einval
    else ok (take n uri, drop (n + 3) uri)

unfoldable pub parse_uri : List ℕ → Result (List ℕ × List ℕ)
parse_uri uri = parse_at uri (find uri)

unfoldable pub check_protocol : List ℕ → Result (Unit {0})
check_protocol protocol = if equal protocol tcp then ok tt else err eprotonosupport

-- the address that the listener is given
unfoldable pub init_address : List ℕ → Result (List ℕ)
init_address uri = then_ok (parse_uri uri) (λ p. then_ok (check_protocol p.0) (λ _. ok p.1))
