-- ===== src/Operators/MaxArray/Recovery.antt =====
-- What `RecoveryState` makes of the items of a recovery, one after another.
use af_stream.Prelude.{
  ℕ, zero, suc, ◌%◌, ◌^◌, ◌<◌, ◌≡◌, refl, ◌∙◌, inl, inr, List, [], ◌∷◌, ◌==◌, if◌then◌else◌, arith,
  length, set, length-set, get_or-set_self, get_or-set_ne, eq_or_ne, subst, ==_self, ==_ne,
}
use af_stream.Prelude.Int.{ℤ, pos}
use af_stream.Memory.Copy.{read_at}
use af_stream.Memory.Integers.{i64_of_bytes}
use af_stream.Fault.Item.{BackupItem}
use af_stream.Fault.Content.{slot}
use af_stream.Operators.MaxArray.{NumericArrayMax, at, recovery_state}

-- the counter that an item restores, and the value that it restores it to
abbrev pub index_of : BackupItem → ℕ
index_of item = item.payload.meta.key % 2 ^ 32

abbrev pub value_of : BackupItem → ℤ
value_of item = i64_of_bytes (read_at item.payload.bytes 4 8)

-- `RecoverOps` at one operator
unfoldable pub recover : NumericArrayMax → List BackupItem → NumericArrayMax
recover a [] = a
recover a (x ∷ xs) = recover (recovery_state a x.payload) xs

abbrev pub last_value : ℕ → List BackupItem → ℤ → ℤ
last_value j [] d = d
last_value j (x ∷ xs) d = last_value j xs (if index_of x == j then value_of x else d)

recovery_state-len :
    (a : NumericArrayMax) (x : BackupItem)
    → length (recovery_state a x.payload).array ≡ length a.array
unfolding recovery_state
recovery_state-len a x = length-set a.array (index_of x) (value_of x)

recovery_state-at :
    (a : NumericArrayMax) (x : BackupItem) (j : ℕ)
    → j < length a.array
    → at (recovery_state a x.payload).array j
      ≡ (if index_of x == j then value_of x else at a.array j)
unfolding recovery_state
recovery_state-at a x j h = elim (eq_or_ne (index_of x) j) [
  | inl e ↦
      subst
        (λ k.
          at (set a.array (index_of x) (value_of x)) k
          ≡ (if index_of x == k then value_of x else at a.array k))
        e
        (rw (==_self (index_of x))
          (get_or-set_self a.array (index_of x) (value_of x) (pos 0) (rw e h)))
  | inr ne ↦
      rw (==_ne (index_of x) j ne) (get_or-set_ne a.array (index_of x) j (value_of x) (pos 0) ne)
]

-- Each counter ends with the value of the last item for it.
pub recover-at :
    (a : NumericArrayMax) (xs : List BackupItem) (j : ℕ)
    → j < length a.array
    → at (recover a xs).array j ≡ last_value j xs (at a.array j)
unfolding recover
recover-at a [] j h = refl
recover-at a (x ∷ xs) j h =
    recover-at (recovery_state a x.payload) xs j (rw (recovery_state-len a x) h)
    ∙ rw (recovery_state-at a x j h)

-- If all items for a counter agree on a value, and so does what was there, that value stands.
pub last_value_agreed :
    (j : ℕ) (xs : List BackupItem) (d v : ℤ)
    → ((i : ℕ) → i < length xs → index_of (slot xs i) ≡ j → value_of (slot xs i) ≡ v)
    → d ≡ v
    → last_value j xs d ≡ v
last_value_agreed j [] d v h e = e
last_value_agreed j (x ∷ xs) d v h e =
    last_value_agreed j xs (if index_of x == j then value_of x else d) v
      (λ i l. h (suc i) (omega arith))
      (elim (eq_or_ne (index_of x) j) [
        | inl s ↦ ground (arith, s, h 0 (omega arith) s)
        | inr ne ↦ rw (==_ne (index_of x) j ne) e
      ])

-- One item for the counter is enough.
pub last_value_found :
    (j r : ℕ) (xs : List BackupItem) (d v : ℤ)
    → ((i : ℕ) → i < length xs → index_of (slot xs i) ≡ j → value_of (slot xs i) ≡ v)
    → r < length xs
    → index_of (slot xs r) ≡ j
    → last_value j xs d ≡ v
last_value_found j r [] d v h lt e = absurd (omega arith)
last_value_found j zero (x ∷ xs) d v h lt e =
    last_value_agreed j xs (if index_of x == j then value_of x else d) v
      (λ i l. h (suc i) (omega arith))
      (subst (λ k. (if index_of x == k then value_of x else d) ≡ v) e
        (rw (==_self (index_of x)) (h 0 lt e)))
last_value_found j (suc r) (x ∷ xs) d v h lt e =
    last_value_found j r xs (if index_of x == j then value_of x else d) v
      (λ i l. h (suc i) (omega arith)) (omega arith) e
