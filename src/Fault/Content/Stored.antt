-- ===== src/Fault/Content/Stored.antt =====
-- What a `BackupContent` stands for: a map from a part's key to the last backup saved under it.
use af_stream.Prelude.{
  ℕ, ◌+◌, ◌^◌, ◌≤◌, ◌<◌, ◌≡◌, refl, sym, ap, ◌∙◌, ◌≢◌, inl, inr, Option, none, some, List, ◌==◌,
  if◌then◌else◌, length, arith, ==_self, ==_ne, get_or-set_self, Option-cases, eq_or_ne, subst,
}
use af_stream.Memory.Copy.{write_at, read_at, read_at-write_at_self, length-read_at}
use af_stream.Fault.Item.{BackupInfo, BackupMeta, BackupItem, max_backup_item_data_len}
use af_stream.Fault.Content.{
  BackupContent, blank, slot, find, copy_backup_item, save_backup, create,
}
use af_stream.Fault.Content.Slots.{key_of, IsSized, IsValid, find-cons_self, find-cons_ne}
use af_stream.Fault.Content.Save.{
  save_found, save_fresh, put, reserved, ready, IsReady, ready-IsReady, put_apart,
  save_found-IsValid, save_fresh-IsValid,
}

-- the part of an item that a copy carries over
pub record Stored : Type 0 where
  pub info : BackupInfo
  pub meta : BackupMeta
  pub value : List ℕ

abbrev pub carried : BackupItem → Stored
carried item = record {
  info = item.info;
  meta = item.payload.meta;
  value = read_at item.payload.bytes 0 item.payload.meta.len;
}

abbrev pub carried_slot : BackupContent → Option ℕ → Option Stored
carried_slot c none = none
carried_slot c (some r) = some (carried (slot c.slots r))

-- what is stored under a key
abbrev pub stored : BackupContent → ℕ → Option Stored
stored c k = carried_slot c (find k c.table)

pub carried-copy :
    (dst src : BackupItem)
    → IsSized dst
    → src.payload.meta.len ≤ max_backup_item_data_len
    → carried (copy_backup_item dst src) ≡ carried src
unfolding copy_backup_item
carried-copy dst src s h =
    ap (λ b. record { info = src.info; meta = src.payload.meta; value = b }) same
  where
    from : List ℕ
    from = read_at src.payload.bytes 0 src.payload.meta.len

    fits : 0 + length from ≤ length dst.payload.bytes
    fits = omega (arith, length-read_at src.payload.bytes 0 src.payload.meta.len, s)

    same : read_at (write_at dst.payload.bytes 0 from) 0 src.payload.meta.len ≡ from
    same =
        subst (λ n. read_at (write_at dst.payload.bytes 0 from) 0 n ≡ from)
          (length-read_at src.payload.bytes 0 src.payload.meta.len)
          (read_at-write_at_self dst.payload.bytes 0 from fits)

stored_at :
    (d : BackupContent) (k r : ℕ) {x : Stored}
    → find k d.table ≡ some r
    → carried (slot d.slots r) ≡ x
    → stored d k ≡ some x
stored_at d k r e h = ap (carried_slot d) e ∙ ap some h

stored_same :
    (c d : BackupContent) (k : ℕ)
    → find k d.table ≡ find k c.table
    → ((q : ℕ) → find k c.table ≡ some q → slot d.slots q ≡ slot c.slots q)
    → stored d k ≡ stored c k
stored_same c d k e h = ap (carried_slot d) e ∙ elim (Option-cases (find k c.table)) [
  | inl n ↦ rw n
  | inr (q, s) ↦ rw s (ap (λ b. some (carried b)) (h q s))
]

-- No key is stored at first.
pub stored-create : (k : ℕ) → stored create k ≡ none
unfolding create find
stored-create k = refl

module _ (fill : ℕ → BackupItem) (fill-IsSized : (i : ℕ) → IsSized (fill i)) (c : BackupContent)
    (item : BackupItem) (v : IsValid c) (space : c.used_slots < 2 ^ 31) where
  -- While fewer than 2 ^ 31 slots are used, a save of an item with at most 256 bytes keeps the table
  -- and the used slots inverse to each other. A longer one would overrun its slot.
  pub save-IsValid :
      item.payload.meta.len ≤ max_backup_item_data_len → IsValid (save_backup fill c item)
  save-IsValid fits = elim (Option-cases (find (key_of item) c.table)) [
    | inl e ↦
        subst IsValid (sym (save_fresh fill c item e))
          (save_fresh-IsValid fill fill-IsSized c v item e space)
    | inr (r, e) ↦
        subst IsValid (sym (save_found fill c item r e))
          (save_found-IsValid fill fill-IsSized c v item r e)
  ]

  module _ (fits : item.payload.meta.len ≤ max_backup_item_data_len) where
    written :
        (d : BackupContent) (r : ℕ)
        → IsSized (slot d.slots r)
        → r < length d.slots
        → carried (slot (put fill d r item).slots r) ≡ carried item
    written d r h lt =
        ap carried (get_or-set_self d.slots r (copy_backup_item (slot d.slots r) item) blank lt)
        ∙ carried-copy (slot d.slots r) item h fits

    stored-found :
        (r k : ℕ)
        → find (key_of item) c.table ≡ some r
        → stored (put fill c r item) k
          ≡ (if key_of item == k then some (carried item) else stored c k)
    stored-found r k e = elim (eq_or_ne (key_of item) k) [
      | inl s ↦
          subst
            (λ k.
              stored (put fill c r item) k
              ≡ (if key_of item == k then some (carried item) else stored c k))
            s
            (rw (==_self (key_of item))
              (stored_at (put fill c r item) (key_of item) r e (written c r (v.sized r) lt)))
      | inr ne ↦ rw (==_ne (key_of item) k ne) (
          stored_same c (put fill c r item) k refl λ q f.
            put_apart fill fill-IsSized c v c r item q
              λ s. ne (ground (arith, v.found k q f, v.found (key_of item) r e, s)))
    ]
      where
        lt : r < length c.slots
        lt = omega (arith, v.found (key_of item) r e, v.slots_len, v.room)

    stored-fresh :
        (k : ℕ)
        → find (key_of item) c.table ≡ none
        → stored (put fill (reserved fill c item) c.used_slots item) k
          ≡ (if key_of item == k then some (carried item) else stored c k)
    stored-fresh k e = elim (eq_or_ne (key_of item) k) [
      | inl s ↦
          subst
            (λ k.
              stored (put fill d u item) k
              ≡ (if key_of item == k then some (carried item) else stored c k))
            s
            (rw (==_self (key_of item)) (
              stored_at (put fill d u item) (key_of item) u (find-cons_self (key_of item) u c.table)
                (written d u (r.sized u) lt)))
      | inr ne ↦ rw (==_ne (key_of item) k ne) (
          stored_same c (put fill d u item) k (find-cons_ne k (key_of item) u c.table ne) (λ q f.
            put_apart fill fill-IsSized c v d u item q (below q f) ∙ r.same q (v.found k q f).0))
    ]
      where
        d : BackupContent
        d = reserved fill c item

        u : ℕ
        u = c.used_slots

        r : IsReady fill fill-IsSized c v (ready fill c)
        r = ready-IsReady fill fill-IsSized c v space

        lt : u < length d.slots
        lt = omega (arith, r.len, r.room)

        below : (q : ℕ) → find k c.table ≡ some q → u ≢ q
        below q f s = omega (arith, v.found k q f, s)

    -- A save stores the item under its key and changes nothing else.
    pub stored-save_backup :
        (k : ℕ)
        → stored (save_backup fill c item) k
          ≡ (if key_of item == k then some (carried item) else stored c k)
    stored-save_backup k = elim (Option-cases (find (key_of item) c.table)) [
      | inl e ↦ ap (λ d. stored d k) (save_fresh fill c item e) ∙ stored-fresh k e
      | inr (r, e) ↦ ap (λ d. stored d k) (save_found fill c item r e) ∙ stored-found r k e
    ]

  -- A save takes at most one more slot.
  pub used-save_backup : (save_backup fill c item).used_slots ≤ c.used_slots + 1
  used-save_backup = elim (Option-cases (find (key_of item) c.table)) [
    | inl e ↦ rw (save_fresh fill c item e) (omega (arith, space))
    | inr (r, e) ↦ rw (save_found fill c item r e) (omega arith)
  ]
