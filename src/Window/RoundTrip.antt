-- ===== src/Window/RoundTrip.antt =====
-- A receiver reads from an item the counters and the keys that its sender appended.
use af_stream.Prelude.{
  ℕ, zero, suc, ◌+◌, ◌*◌, ◌^◌, ◌≤◌, ◌<◌, ◌≡◌, refl, sym, ◌∙◌, subst, some, List, [], ◌∷◌, ◌++◌,
  ◌>>=◌, bind_some, length, length-append, get_elem?, arith,
}
use mathlib.Core.List.{append_assoc, append-nil}
use af_stream.Prelude.Int.{ℤ}
use af_stream.Memory.Copy.{read_at}
use af_stream.Memory.Integers.{of_bytes, i64_of_bytes}
use af_stream.Window.{CmItem, new_item, append_keys, get_counter, get_key}
use af_stream.Window.Item.{
  append_all, AreCounters, AreKeys, CountersAt, KeysAt, IsHolding, append_counter-IsHolding,
  append_hh-IsHolding,
}

pub append_all-IsHolding :
    (cs pre : List (ℕ × ℤ)) (it : CmItem)
    → IsHolding it pre []
    → 12 * (length pre + length cs) ≤ length it.raw
    → length it.raw < 2 ^ 32
    → AreCounters cs
    → (it' : CmItem) × (append_all cs it ≡ some it')
      × IsHolding it' (pre ++ cs) []
      × (length it'.raw ≡ length it.raw)
append_all-IsHolding [] pre it v h b a =
    (it, refl, subst (λ xs. IsHolding it xs []) (sym (append-nil pre)) v, refl)
append_all-IsHolding (c ∷ cs) pre it v h b (a0, a1, a) =
    let (it', e, v', l) = append_counter-IsHolding it pre c v (omega arith) b a0 a1 in
    let (it'', e', v'', l') =
      append_all-IsHolding cs (pre ++ (c ∷ [])) it' v'
        (omega (arith, l, length-append {0} pre (c ∷ []))) (omega (arith, l)) a in
    (
      it'',
      bind_some (append_all cs) e e',
      subst (λ xs. IsHolding it'' xs []) (append_assoc pre (c ∷ []) cs) v'',
      l' ∙ l,
    )

pub append_keys-IsHolding :
    (ks pre : List ℕ) (cs : List (ℕ × ℤ)) (it : CmItem)
    → IsHolding it cs pre
    → 12 * length cs + 8 * (length pre + length ks) ≤ length it.raw
    → length it.raw < 2 ^ 32
    → AreKeys ks
    → (it' : CmItem) × (append_keys ks it ≡ some it') × IsHolding it' cs (pre ++ ks)
unfolding append_keys
append_keys-IsHolding [] pre cs it v h b a =
    (it, refl, subst (IsHolding it cs) (sym (append-nil pre)) v)
append_keys-IsHolding (k ∷ ks) pre cs it v h b (a0, a) =
    let (it', e, v', l) = append_hh-IsHolding it cs pre k v (omega arith) b a0 in
    let (it'', e', v'') =
      append_keys-IsHolding ks (pre ++ (k ∷ [])) cs it' v'
        (omega (arith, l, length-append {0} pre (k ∷ []))) (omega (arith, l)) a in
    (
      it'',
      bind_some (append_keys ks) e e',
      subst (IsHolding it'' cs) (append_assoc pre (k ∷ []) ks) v'',
    )

pub CountersAt-get :
    (raw : List ℕ) (p n : ℕ) (cs : List (ℕ × ℤ)) (c : ℕ × ℤ)
    → CountersAt raw p cs
    → get_elem? cs n ≡ some c
    → (of_bytes (read_at raw (p + n * 12) 4), i64_of_bytes (read_at raw (p + n * 12 + 4) 8)) ≡ c
CountersAt-get raw p n [] c w e = absurd (cc)
CountersAt-get raw p zero (d ∷ ds) c (a, b, w) e =
    let here : p + zero * 12 ≡ p = omega arith in rw (here, a, b) (cc)
CountersAt-get raw p (suc n) (d ∷ ds) c (a, b, w) e =
    let there : p + suc n * 12 ≡ p + 12 + n * 12 = omega arith in
    rw there (CountersAt-get raw (p + 12) n ds c w e)

pub KeysAt-get :
    (raw : List ℕ) (p n : ℕ) (ks : List ℕ) (k : ℕ)
    → KeysAt raw p ks
    → get_elem? ks n ≡ some k
    → of_bytes (read_at raw (p + n * 8) 8) ≡ k
KeysAt-get raw p n [] k w e = absurd (cc)
KeysAt-get raw p zero (d ∷ ds) k (a, w) e =
    let here : p + zero * 8 ≡ p = omega arith in rw (here, a) (cc)
KeysAt-get raw p (suc n) (d ∷ ds) k (a, w) e =
    let there : p + suc n * 8 ≡ p + 8 + n * 8 = omega arith in
    rw there (KeysAt-get raw (p + 8) n ds k w e)

pub get_counter-at :
    (it : CmItem) (n : ℕ) (cs : List (ℕ × ℤ)) (ks : List ℕ) (c : ℕ × ℤ)
    → IsHolding it cs ks
    → get_elem? cs n ≡ some c
    → get_counter it n ≡ c
unfolding get_counter
get_counter-at it n cs ks c v e =
    let here : 0 + n * 12 ≡ n * 12 = omega arith in
    subst (λ q. (of_bytes (read_at it.raw q 4), i64_of_bytes (read_at it.raw (q + 4) 8)) ≡ c) here
      (CountersAt-get it.raw 0 n cs c v.counters e)

pub get_key-at :
    (it : CmItem) (n : ℕ) (cs : List (ℕ × ℤ)) (ks : List ℕ) (k : ℕ)
    → IsHolding it cs ks
    → get_elem? ks n ≡ some k
    → get_key it n ≡ k
unfolding get_key
get_key-at it n cs ks k v e =
    let here : 12 * length cs + n * 8 ≡ it.num_counter * 12 + n * 8 =
      omega (arith, v.num_counter) in
    subst (λ q. of_bytes (read_at it.raw q 8) ≡ k) here
      (KeysAt-get it.raw (12 * length cs) n ks k v.keys e)

-- Counters and keys that are in the range of their types and fit into the bytes of an item together
-- are all appended, and `GetCounter` and `GetKey` give each of them back at its position.
pub read_appended :
    (raw : List ℕ) (cs : List (ℕ × ℤ)) (ks : List ℕ)
    → 12 * length cs + 8 * length ks ≤ length raw
    → length raw < 2 ^ 32
    → AreCounters cs
    → AreKeys ks
    → (it : CmItem) × ((append_all cs (new_item raw) >>= append_keys ks) ≡ some it)
      × (it.num_counter ≡ length cs)
      × (it.num_hh ≡ length ks)
      × ((n : ℕ) (c : ℕ × ℤ) → get_elem? cs n ≡ some c → get_counter it n ≡ c)
      × ((n k : ℕ) → get_elem? ks n ≡ some k → get_key it n ≡ k)
unfolding new_item
read_appended raw cs ks h b a a' =
    let start : IsHolding (new_item raw) [] [] = record {
      counters = tt;
      keys = tt;
      num_counter = refl;
      num_hh = refl;
      at_end = refl;
    } in
    let (it, e, v, l) = append_all-IsHolding cs [] (new_item raw) start (omega arith) b a in
    let (it', e', v') =
      append_keys-IsHolding ks [] cs it v (omega (arith, l)) (omega (arith, l)) a' in
    (
      it',
      bind_some (append_keys ks) e e',
      v'.num_counter,
      v'.num_hh,
      λ n c g. get_counter-at it' n cs ks c v' g,
      λ n k g. get_key-at it' n cs ks k v' g,
    )
