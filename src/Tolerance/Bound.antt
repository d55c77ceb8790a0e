-- ===== src/Tolerance/Bound.antt =====
-- What a crash costs: the counters that recovery restores, against those that were lost.
use af_stream.Prelude.{
  ℕ, ◌^◌, ◌≤◌, ◌<◌, ◌≡◌, sym, ap, ◌∙◌, inl, inr, some, List, [], ◌∷◌, arith, length, subst,
  Option-cases, length-replicate, get_or-replicate,
}
use native.Mathlib.Nat.{zero-add}
use af_stream.Prelude.Int.{ℤ, pos, negsuc}
use af_stream.Memory.Copy.{read_at-read_at}
use af_stream.Memory.Integers.{i64_of_bytes}
use af_stream.Fault.Item.{BackupItem}
use af_stream.Fault.Content
use af_stream.Fault.Content.{BackupContent, slot, find, append_from, append_recovery_item}
use af_stream.Fault.Content.Slots.{IsSized, key_of, create-IsValid}
use af_stream.Fault.Content.Stored.{Stored, stored, carried, carried_slot}
use af_stream.Fault.Content.Append.{length-append_from, append_from_inside}
use af_stream.Operators.MaxArray
use af_stream.Operators.MaxArray.{NumericArrayMax, at}
use af_stream.Operators.MaxArray.Tracking.{create-IsValid as array-IsValid}
use af_stream.Operators.MaxArray.Recovery.{
  recover, recover-at, last_value, last_value_agreed, last_value_found, index_of, value_of,
}
use af_stream.Tolerance.{Tracked, Update}
use af_stream.Tolerance.Sync.{IsSynced, restored, restored_or_zero}

-- a fresh operator after `RecoverOps` with the server's answer in the buffer `ret`
unfoldable pub recovered : ℕ → ℤ → BackupContent → List BackupItem → NumericArrayMax
recovered size theta c ret = recover (MaxArray.create size theta) (append_recovery_item c ret 0)

module _ (size : ℕ) (theta : ℤ) (s : Tracked) (ret : List BackupItem) (v : IsSynced size theta s)
    (small : size ≤ 2 ^ 32) (ret_len : length ret ≡ s.content.used_slots)
    (ret-IsSized : (i : ℕ) → IsSized (slot ret i)) where
  out : List BackupItem
  out = append_recovery_item s.content ret 0

  out-len : length out ≡ s.content.used_slots
  unfolding out append_recovery_item
  out-len = length-append_from ret 0 s.content.used_slots s.content.slots ∙ ret_len

  abbrev item : ℕ → BackupItem
  item i = slot s.content.slots i

  stored-item :
      (i : ℕ)
      → i < s.content.used_slots
      → stored s.content (key_of (item i)) ≡ some (carried (item i))
  stored-item i h = ap (carried_slot s.content) (v.content.listed i h)

  item_shape :
      (i : ℕ)
      → i < s.content.used_slots
      → ((item i).payload.meta.len ≡ 12) × (key_of (item i) < size)
  item_shape i h =
      let p = v.shaped (key_of (item i)) (carried (item i)) (stored-item i h) in (p.0, p.2)

  out-carried : (i : ℕ) → i < s.content.used_slots → carried (slot out i) ≡ carried (item i)
  unfolding out append_recovery_item
  out-carried i h =
      subst
        (λ k.
          carried (slot (append_from ret 0 s.content.used_slots s.content.slots) k)
          ≡ carried (item i))
        (zero-add i)
        (append_from_inside ret 0 s.content.used_slots s.content.slots i (omega (arith, ret_len))
          (omega (arith, v.content.slots_len, v.content.room)) ret-IsSized
          (λ j l. omega (arith, item_shape j l)) h)

  restored-carried : (b : BackupItem) → b.payload.meta.len ≡ 12 → restored (carried b) ≡ value_of b
  restored-carried b h =
      rw h (ap i64_of_bytes (read_at-read_at b.payload.bytes 12 4 8 (omega arith)))

  out_meta :
      (i : ℕ)
      → i < s.content.used_slots
      → (key_of (slot out i) ≡ key_of (item i)) × ((slot out i).payload.meta.len ≡ 12)
  out_meta i h =
      let p = ap (λ (x : Stored). x.meta) (out-carried i h) in
      (ap (λ m. m.key) p, ap (λ m. m.len) p ∙ (item_shape i h).0)

  -- Item i names the counter of slot i, and holds its value.
  out_value :
      (i j : ℕ)
      → i < s.content.used_slots
      → index_of (slot out i) ≡ j
      → (find j s.content.table ≡ some i)
        × (value_of (slot out i) ≡ restored_or_zero (stored s.content j))
  out_value i j h e = (here, value)
    where
      named : key_of (item i) ≡ j
      named = ground (arith, out_meta i h, item_shape i h, e, small)

      here : find j s.content.table ≡ some i
      here = subst (λ k. find k s.content.table ≡ some i) named (v.content.listed i h)

      value : value_of (slot out i) ≡ restored_or_zero (stored s.content j)
      value =
          sym (restored-carried (slot out i) (out_meta i h).1)
          ∙ ap restored (out-carried i h)
          ∙ ap restored_or_zero (sym (ap (carried_slot s.content) here))

  last_value-out :
      (j : ℕ) → j < size → last_value j out (pos 0) ≡ restored_or_zero (stored s.content j)
  last_value-out j lt = elim (Option-cases (find j s.content.table)) [
    | inl e ↦
        last_value_agreed j out (pos 0) (restored_or_zero (stored s.content j)) agree
          (ap (λ o. restored_or_zero (carried_slot s.content o)) (sym e))
    | inr (r, e) ↦
        last_value_found j r out (pos 0) (restored_or_zero (stored s.content j)) agree
          (omega (arith, v.content.found j r e, out-len)) (named r e)
  ]
    where
      agree :
          (i : ℕ)
          → i < length out
          → index_of (slot out i) ≡ j
          → value_of (slot out i) ≡ restored_or_zero (stored s.content j)
      agree i l e = (out_value i j (omega (arith, out-len)) e).1

      named : (r : ℕ) → find j s.content.table ≡ some r → index_of (slot out r) ≡ j
      named r e =
          ground (arith, v.content.found j r e, out_meta r (v.content.found j r e).0, small, lt)

  -- Recovery restores each counter to its last backup, or to zero if it has none.
  pub recovered-at :
      (j : ℕ) → j < size → at (recovered size theta s.content ret).array j ≡ at s.op.backup_array j
  unfolding recovered out MaxArray.create
  recovered-at j lt =
      recover-at (MaxArray.create size theta) out j (rw (length-replicate size (pos 0)) lt)
      ∙ ap (last_value j out) (get_or-replicate size j (pos 0))
      ∙ last_value-out j lt
      ∙ v.same j

-- the state before the first tuple
abbrev pub start : ℕ → ℤ → BackupItem → Tracked
start size theta cmd = record {
  op = MaxArray.create size theta;
  cmd = cmd;
  content = Content.create;
}

-- Updates of counters of the array, with values of 62 bits and a sign, so that a `long long` holds each
-- difference of two of them.
abbrev pub IsHalf : ℤ → Type 0
IsHalf (pos n) = n < 2 ^ 62
IsHalf (negsuc n) = n < 2 ^ 62

abbrev pub AreUpdates : ℕ → List Update → Type 0
AreUpdates size [] = Unit {0}
AreUpdates size (u ∷ us) = (u.index < size) × IsHalf u.value × AreUpdates size us
