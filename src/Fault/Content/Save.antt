-- ===== src/Fault/Content/Save.antt =====
-- `BackupContent::SaveBackup` keeps the invariant and stores the item under its key.
use af_stream.Prelude.{
  ℕ, ◌+◌, ◌*◌, ◌%◌, ◌^◌, ◌<◌, ◌≡◌, refl, sym, ap, ◌∙◌, ◌≢◌, inl, inr, none, some, ◌∷◌, ◌==◌,
  if◌then◌else◌, set, length, arith, Bool-cases, ==_iff, get_or-set_self, get_or-set_ne, length-set,
  eq_or_ne, subst,
}
use af_stream.Fault.Item.{BackupItem}
use af_stream.Fault.Content.{
  BackupContent, blank, slot, find, copy_backup_item, expand, select_slot, save_backup,
}
use af_stream.Fault.Content.Slots.{
  key_of, IsSized, IsValid, copy-IsSized, key_of-copy, find-cons_self, find-cons_ne, length-resize,
  slot-resize, resize-IsSized,
}

module _ (fill : ℕ → BackupItem) where
  -- the content with a free slot
  abbrev pub ready : BackupContent → BackupContent
  ready c = if c.used_slots == c.max_slots then expand fill c else c

  -- the content with the item's key entered at the next slot
  abbrev pub reserved : BackupContent → BackupItem → BackupContent
  reserved c item = record {
    table = (key_of item, c.used_slots) ∷ c.table;
    slots = (ready c).slots;
    used_slots = (c.used_slots + 1) % 2 ^ 32;
    max_slots = (ready c).max_slots;
  }

  abbrev pub put : BackupContent → ℕ → BackupItem → BackupContent
  put c r item = record c { slots = set c.slots r (copy_backup_item (slot c.slots r) item) }

  select_found :
      (c : BackupContent) (item : BackupItem) (r : ℕ)
      → find (key_of item) c.table ≡ some r
      → select_slot fill c item ≡ (r, c)
  unfolding select_slot
  select_found c item r e = rw (e, select_slot)

  select_fresh :
      (c : BackupContent) (item : BackupItem)
      → find (key_of item) c.table ≡ none
      → select_slot fill c item ≡ (c.used_slots, reserved c item)
  unfolding select_slot
  select_fresh c item e = elim (Bool-cases (c.used_slots == c.max_slots)) [
    | inl f ↦ rw (e, select_slot) (rw f)
    | inr f ↦ rw (e, select_slot) (rw f)
  ]

  pub save_found :
      (c : BackupContent) (item : BackupItem) (r : ℕ)
      → find (key_of item) c.table ≡ some r
      → save_backup fill c item ≡ put c r item
  save_found c item r e = unfold save_backup in ap (λ s. put s.1 s.0 item) (select_found c item r e)

  pub save_fresh :
      (c : BackupContent) (item : BackupItem)
      → find (key_of item) c.table ≡ none
      → save_backup fill c item ≡ put (reserved c item) c.used_slots item
  save_fresh c item e = unfold save_backup in ap (λ s. put s.1 s.0 item) (select_fresh c item e)

  module _ (fill-IsSized : (i : ℕ) → IsSized (fill i)) (c : BackupContent) (v : IsValid c) where
    pub record IsReady (d : BackupContent) : Type 0 where
      pub len : length d.slots ≡ d.max_slots
      pub room : c.used_slots < d.max_slots
      pub same : (r : ℕ) → r < c.used_slots → slot d.slots r ≡ slot c.slots r
      pub sized : (r : ℕ) → IsSized (slot d.slots r)

    expand-IsReady : c.used_slots ≡ c.max_slots → c.used_slots < 2 ^ 31 → IsReady (expand fill c)
    unfolding expand
    expand-IsReady e h = record {
      len = length-resize fill 0 (c.max_slots * 2 % 2 ^ 32) c.slots;
      room = omega (arith, v.some_slot);
      same = λ r h'.
          slot-resize fill 0 (c.max_slots * 2 % 2 ^ 32) c.slots r (omega arith)
            (omega (arith, v.slots_len));
      sized = resize-IsSized fill fill-IsSized 0 (c.max_slots * 2 % 2 ^ 32) c.slots v.sized;
    }

    pub ready-IsReady : c.used_slots < 2 ^ 31 → IsReady (ready c)
    ready-IsReady h = elim (Bool-cases (c.used_slots == c.max_slots)) [
      | inl f ↦ rw f (expand-IsReady ((==_iff c.used_slots c.max_slots).0 f) h)
      | inr f ↦ rw f (record {
        len = v.slots_len;
        room = ground (arith, v.room, f);
        same = λ r _. refl;
        sized = v.sized;
      })
    ]

    put-IsSized :
        (d : BackupContent) (r : ℕ) (item : BackupItem)
        → ((i : ℕ) → IsSized (slot d.slots i))
        → r < length d.slots
        → (i : ℕ) → IsSized (slot (put d r item).slots i)
    put-IsSized d r item h lt i = elim (eq_or_ne r i) [
      | inl e ↦
          subst (λ k. IsSized (slot (put d r item).slots k)) e
            (rw (get_or-set_self d.slots r (copy_backup_item (slot d.slots r) item) blank lt)
              (copy-IsSized (slot d.slots r) item (h r)))
      | inr ne ↦
          rw (get_or-set_ne d.slots r i (copy_backup_item (slot d.slots r) item) blank ne) (h i)
    ]

    put_key :
        (d : BackupContent) (r : ℕ) (item : BackupItem)
        → r < length d.slots
        → key_of (slot (put d r item).slots r) ≡ key_of item
    put_key d r item lt =
        rw (get_or-set_self d.slots r (copy_backup_item (slot d.slots r) item) blank lt)
          (key_of-copy (slot d.slots r) item)

    pub put_apart :
        (d : BackupContent) (r : ℕ) (item : BackupItem) (i : ℕ)
        → r ≢ i
        → slot (put d r item).slots i ≡ slot d.slots i
    put_apart d r item i ne =
        get_or-set_ne d.slots r i (copy_backup_item (slot d.slots r) item) blank ne

    -- A save under a known key overwrites its slot.
    pub save_found-IsValid :
        (item : BackupItem) (r : ℕ) → find (key_of item) c.table ≡ some r → IsValid (put c r item)
    save_found-IsValid item r e = record {
      slots_len = length-set c.slots r (copy_backup_item (slot c.slots r) item) ∙ v.slots_len;
      room = v.room;
      some_slot = v.some_slot;
      table_len = v.table_len;
      sized = put-IsSized c r item v.sized lt;
      found = λ k q f. elim (eq_or_ne r q) [
        | inl s ↦ ground (arith, v.found k q f, v.found (key_of item) r e, put_key c r item lt, s)
        | inr ne ↦ ground (arith, v.found k q f, put_apart c r item q ne)
      ];
      listed = λ q h. elim (eq_or_ne r q) [
        | inl s ↦ ground (arith, put_key c r item lt, s, e)
        | inr ne ↦ ground (arith, v.listed q h, put_apart c r item q ne)
      ];
    }
      where
        lt : r < length c.slots
        lt = omega (arith, v.found (key_of item) r e, v.slots_len, v.room)

    -- A save under a new key takes the next slot.
    pub save_fresh-IsValid :
        (item : BackupItem)
        → find (key_of item) c.table ≡ none
        → c.used_slots < 2 ^ 31
        → IsValid (put (reserved c item) c.used_slots item)
    save_fresh-IsValid item e h = record {
      slots_len =
          length-set d.slots c.used_slots (copy_backup_item (slot d.slots c.used_slots) item)
          ∙ r.len;
      room = omega (arith, r.room, h);
      some_slot = omega (arith, r.room);
      table_len = omega (arith, v.table_len, h);
      sized = put-IsSized d c.used_slots item r.sized lt;
      found = λ k q f. elim (eq_or_ne (key_of item) k) [
        | inl s ↦ newest k q s f
        | inr ne ↦ older k q ne (sym (find-cons_ne k (key_of item) u c.table ne) ∙ f)
      ];
      listed = λ q l. elim (eq_or_ne u q) [
        | inl s ↦ ground (arith, put_key d u item lt, s, find-cons_self (key_of item) u c.table)
        | inr ne ↦ kept q ne (omega (arith, h))
      ];
    }
      where
        d : BackupContent
        d = reserved c item

        u : ℕ
        u = c.used_slots

        r : IsReady (ready c)
        r = ready-IsReady h

        lt : c.used_slots < length d.slots
        lt = omega (arith, r.len, r.room)

        newest :
            (k q : ℕ)
            → key_of item ≡ k
            → find k ((key_of item, u) ∷ c.table) ≡ some q
            → (q < (u + 1) % 2 ^ 32) × (key_of (slot (put d u item).slots q) ≡ k)
        newest k q s f =
            ground (arith, put_key d u item lt, s, f, find-cons_self (key_of item) u c.table, h)

        older :
            (k q : ℕ)
            → key_of item ≢ k
            → find k c.table ≡ some q
            → (q < (u + 1) % 2 ^ 32) × (key_of (slot (put d u item).slots q) ≡ k)
        older k q ne f = ground (arith, v.found k q f, put_apart d u item q, r.same q, h)

        kept :
            (q : ℕ)
            → u ≢ q
            → q < u
            → find (key_of (slot (put d u item).slots q)) ((key_of item, u) ∷ c.table) ≡ some q
        kept q ne l = ground (
          arith,
          put_apart d u item q ne,
          r.same q l,
          v.listed q l,
          e,
          find-cons_ne (key_of (slot c.slots q)) (key_of item) u c.table,
        )
