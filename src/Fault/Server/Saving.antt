-- ===== src/Fault/Server/Saving.antt =====
-- The server as a map from an operator and a part of it to the last backup of that part.
use af_stream.Prelude.{
  ℕ, zero, suc, ◌^◌, ◌≤◌, ◌<◌, ◌≡◌, refl, sym, ap, ◌∙◌, ◌≢◌, inl, inr, Option, none, some, ◌&&◌,
  List, [], ◌∷◌, ◌++◌, ◌==◌, if◌then◌else◌, length, get_or, arith, ==_self, ==_ne, get_or-set_self,
  get_or-set_ne, length-set, length-append, Option-cases, eq_or_ne, get_or_beyond, subst,
}
use af_stream.Fault.Item.{BackupItem, BackupInfo, max_backup_item_data_len}
use af_stream.Fault.Content
use af_stream.Fault.Content.{BackupContent, save_backup}
use af_stream.Fault.Content.Slots
use af_stream.Fault.Content.Slots.{IsSized, key_of, create-IsValid}
use af_stream.Fault.Content.Stored.{Stored, stored, carried, save-IsValid, stored-save_backup}
use af_stream.Fault.Server.{Server, content_at, content_for, pointer_or_new, op_key_of, save, start}

-- Every operator has a content of its own, and the contents are sound.
pub record IsValid (s : Server) : Type 0 where
  pub sound : (i : ℕ) → Slots.IsValid (content_at s i)
  pub owned : (k i : ℕ) → s.ops k ≡ some i → i < length s.contents
  pub apart : (j k i : ℕ) → s.ops j ≡ some i → s.ops k ≡ some i → j ≡ k

abbrev pub content_of : Server → Option ℕ → BackupContent
content_of s none = Content.create
content_of s (some i) = content_at s i

-- the last backup of the part p of the operator with key k
abbrev pub saved : Server → ℕ → ℕ → Option Stored
saved s k p = stored (content_of s (s.ops k)) p

pub start-IsValid : IsValid start
unfolding start
start-IsValid = record {
  sound = λ i. create-IsValid;
  owned = λ k i e. absurd (cc);
  apart = λ j k i e f. absurd (cc);
}

content_at-append :
    (cs : List BackupContent) (i : ℕ)
    → get_or (cs ++ (Content.create ∷ [])) i Content.create ≡ get_or cs i Content.create
content_at-append [] zero = refl
content_at-append [] (suc i) = refl
content_at-append (c ∷ cs) zero = refl
content_at-append (c ∷ cs) (suc i) = content_at-append cs i

-- What holds of the pointer i and the state s' that `content_for` gives.
record Found (s : Server) (key i : ℕ) (s' : Server) : Type 0 where
  valid : IsValid s'
  mine : s'.ops key ≡ some i
  other : (k : ℕ) → key ≢ k → s'.ops k ≡ s.ops k
  same : (j : ℕ) → content_at s' j ≡ content_at s j
  before : content_at s i ≡ content_of s (s.ops key)

module _ (s : Server) (info : BackupInfo) (v : IsValid s) where
  abbrev IsFound : Option ℕ → Type 0
  IsFound o = Found s (op_key_of info) (pointer_or_new s info o).0 (pointer_or_new s info o).1

  pointer-old : (i : ℕ) → s.ops (op_key_of info) ≡ some i → IsFound (some i)
  pointer-old i e = record {
    valid = v;
    mine = e;
    other = λ k ne. refl;
    same = λ j. refl;
    before = rw e refl;
  }

  pointer-new : s.ops (op_key_of info) ≡ none → IsFound none
  pointer-new e = record {
    valid = record {
      sound = λ j. rw (content_at-append s.contents j) (v.sound j);
      owned = λ k i f. elim (eq_or_ne (op_key_of info) k) [
        | inl q ↦ ground (arith, length-append s.contents (Content.create ∷ []), q, f)
        | inr ne ↦
            ground (arith, length-append s.contents (Content.create ∷ []), ne, f, v.owned k i)
      ];
      apart = λ j k i f g. ground (arith, f, g, v.apart j k i, v.owned j i, v.owned k i);
    };
    mine = rw (==_self (op_key_of info)) refl;
    other = λ k ne. rw (==_ne (op_key_of info) k ne) refl;
    same = λ j. content_at-append s.contents j;
    before = rw e (get_or_beyond s.contents (length s.contents) Content.create (omega arith));
  }

  content_for_lem : Found s (op_key_of info) (content_for s info).0 (content_for s info).1
  unfolding content_for
  content_for_lem = elim (Option-cases (s.ops (op_key_of info))) [
    | inl e ↦ subst IsFound (sym e) (pointer-new e)
    | inr (i, e) ↦ subst IsFound (sym e) (pointer-old i e)
  ]

module _ (fill : ℕ → BackupItem) (fill-IsSized : (i : ℕ) → IsSized (fill i)) (s : Server)
    (item : BackupItem) (v : IsValid s)
    (space : (content_of s (s.ops (op_key_of item.info))).used_slots < 2 ^ 31) where
  i : ℕ
  i = (content_for s item.info).0

  s' : Server
  s' = (content_for s item.info).1

  f : Found s (op_key_of item.info) i s'
  unfolding i s'
  f = content_for_lem s item.info v

  now : content_at s' i ≡ content_of s (s.ops (op_key_of item.info))
  now = f.same i ∙ f.before

  space' : (content_at s' i).used_slots < 2 ^ 31
  space' = rw now space

  content_at-save :
      (j : ℕ)
      → content_at (save fill s item) j
        ≡ (if i == j then save_backup fill (content_at s' i) item else content_at s' j)
  unfolding save i s'
  content_at-save j = elim (eq_or_ne i j) [
    | inl e ↦
        subst
          (λ k.
            content_at (save fill s item) k
            ≡ (if i == k then save_backup fill (content_at s' i) item else content_at s' k))
          e
          (rw (==_self i) (
            get_or-set_self s'.contents i (save_backup fill (content_at s' i) item) Content.create
              (f.valid.owned (op_key_of item.info) i f.mine)))
    | inr ne ↦
        rw (==_ne i j ne) (
          get_or-set_ne s'.contents i j (save_backup fill (content_at s' i) item) Content.create ne)
  ]

  ops-save : (k : ℕ) → (save fill s item).ops k ≡ s'.ops k
  unfolding save s'
  ops-save k = refl

  contents-save : length (save fill s item).contents ≡ length s'.contents
  unfolding save s' i
  contents-save = length-set s'.contents i (save_backup fill (content_at s' i) item)

  -- A save keeps the contents sound and the operators apart.
  pub save_server-IsValid :
      item.payload.meta.len ≤ max_backup_item_data_len → IsValid (save fill s item)
  save_server-IsValid fits = record {
    sound = λ j. elim (eq_or_ne i j) [
      | inl e ↦
          rw (content_at-save j, ← e, ==_self i)
            (save-IsValid fill fill-IsSized (content_at s' i) item (f.valid.sound i) space' fits)
      | inr ne ↦ rw (content_at-save j, ==_ne i j ne) (f.valid.sound j)
    ];
    owned = λ k j e. omega (arith, contents-save, f.valid.owned k j (sym (ops-save k) ∙ e));
    apart = λ j k r e g. f.valid.apart j k r (sym (ops-save j) ∙ e) (sym (ops-save k) ∙ g);
  }

  module _ (fits : item.payload.meta.len ≤ max_backup_item_data_len) where
    -- A save stores the item for its operator, under its key, and changes nothing else.
    pub saved-save :
        (k p : ℕ)
        → saved (save fill s item) k p ≡ (
            if (op_key_of item.info == k) && (key_of item == p)
            then some (carried item)
            else saved s k p)
    saved-save k p = elim (eq_or_ne (op_key_of item.info) k) [
      | inl e ↦ subst Agrees e mine
      | inr ne ↦ rw (==_ne (op_key_of item.info) k ne) (
          ap (λ o. stored (content_of (save fill s item) o) p) (ops-save k ∙ f.other k ne)
          ∙ apart k ne)
    ]
      where
        Agrees : ℕ → Type 0
        Agrees k = saved (save fill s item) k p ≡ (
            if (op_key_of item.info == k) && (key_of item == p)
            then some (carried item)
            else saved s k p)

        mine : Agrees (op_key_of item.info)
        mine =
            ap (λ o. stored (content_of (save fill s item) o) p)
              (ops-save (op_key_of item.info) ∙ f.mine)
            ∙ ap (λ c. stored c p)
                (content_at-save i
                  ∙ ap (λ b. if b then save_backup fill (content_at s' i) item else content_at s' i)
                      (==_self i))
            ∙ stored-save_backup fill fill-IsSized (content_at s' i) item (f.valid.sound i) space'
                fits p
            ∙ rw (now, ==_self (op_key_of item.info)) refl

        apart :
            (k : ℕ)
            → op_key_of item.info ≢ k
            → stored (content_of (save fill s item) (s.ops k)) p ≡ saved s k p
        apart k ne = elim (Option-cases (s.ops k)) [
          | inl e ↦ rw e refl
          | inr (j, e) ↦
              let ne' : i ≢ j = λ q. ne (
                f.valid.apart (op_key_of item.info) k i f.mine
                  (f.other k ne ∙ e ∙ ap some (sym q))) in
              rw e (
                ap (λ c. stored c p)
                  (content_at-save j
                    ∙ ap
                        (λ b.
                          if b then save_backup fill (content_at s' i) item else content_at s' j)
                        (==_ne i j ne')
                    ∙ f.same j))
        ]
