-- ===== src/Threads/OutCallback.antt =====
-- out_callback_simple.hpp, `OutCallbackSimple`: what the compute threads have written for one
-- neighbour, as the network engine pulls it. What `Read` of the reader gives is the input.
use af_stream.Prelude.{
  ℕ, ◌+◌, ◌≡◌, ◌≢◌, ◌⊎◌, inl, inr, refl, sym, ap, ◌∙◌, Option, none, some, Bool, true, false, List,
  [], ◌∷◌, ◌++◌, ◌==◌, ==_ne, if◌then◌else◌, arith,
}
use af_stream.Threads.Item.{
  ItemType, item_normal, item_finish, item_timeout, item_reverse, item_ack, WrapItem,
}
use af_stream.Threads.Loop.Moved.{finish_count}

-- `acks` are the items given to the reader's `Ack`, in order, and `flushes` the calls of its `Flush`.
pub record OutCallback (A : Type 0) : Type 0 where
  pub num_in : ℕ
  pub num_stop : ℕ
  pub event : ℕ
  pub flushes : ℕ
  pub acks : List (WrapItem A)

-- What a call leaves in `*data`, and whether it returns 1.
pub record Pulled (A : Type 0) : Type 0 where
  pub callback : OutCallback A
  pub record_of : Option (WrapItem A)
  pub last : Bool

module _ {A : Type 0} where
  unfoldable pub create : ℕ → OutCallback A
  create num_in = record { num_in = num_in; num_stop = 0; event = 0; flushes = 0; acks = [] }

  abbrev pub finish_case : OutCallback A → WrapItem A → Pulled A
  finish_case c w =
      if c.num_stop + 1 == c.num_in
      then record {
        callback = record c { num_stop = c.num_stop + 1; flushes = c.flushes + 1 };
        record_of = some w;
        last = true;
      }
      else record {
        callback = record c {
          num_stop = c.num_stop + 1;
          flushes = c.flushes + 1;
          acks = c.acks ++ (w ∷ []);
        };
        record_of = none;
        last = false;
      }

  abbrev pub type_case : OutCallback A → WrapItem A → ItemType → Pulled A
  type_case c w item_finish = finish_case c w
  type_case c w item_normal = record { callback = c; record_of = some w; last = false }
  type_case c w item_timeout = record { callback = c; record_of = some w; last = false }
  type_case c w item_reverse = record { callback = c; record_of = some w; last = false }
  type_case c w item_ack = record { callback = c; record_of = some w; last = false }

  unfoldable pub pull_record : OutCallback A → Option (WrapItem A) → Pulled A
  pull_record c none = record { callback = c; record_of = none; last = false }
  pull_record c (some w) = type_case (record c { event = c.event + 1 }) w w.item_type

  -- the call of the engine when a record is on the wire
  unfoldable pub ack : OutCallback A → WrapItem A → OutCallback A
  ack c w = record c { acks = c.acks ++ (w ∷ []) }

  abbrev pub result_list : Option (WrapItem A) → List (WrapItem A)
  result_list none = []
  result_list (some w) = w ∷ []

  -- One pull, and what the later ones give where it is not the last.
  abbrev pub continued :
      Pulled A → OutCallback A × List (WrapItem A) × Bool → OutCallback A × List (WrapItem A) × Bool
  continued p rest =
      if p.last
      then (p.callback, result_list p.record_of, true)
      else (rest.0, result_list p.record_of ++ rest.1, rest.2)

  -- The engine pulls until a call returns 1; what it sends, and whether it got there.
  unfoldable pub pull_all :
      OutCallback A → List (Option (WrapItem A)) → OutCallback A × List (WrapItem A) × Bool
  pull_all c [] = (c, [], false)
  pull_all c (o ∷ os) =
      let rest = pull_all (pull_record c o).callback os in continued (pull_record c o) rest

  abbrev pub count_finishes : List (Option (WrapItem A)) → ℕ
  count_finishes [] = 0
  count_finishes (none ∷ os) = count_finishes os
  count_finishes (some w ∷ os) = finish_count w.item_type + count_finishes os

  abbrev keep_case : WrapItem A → ItemType → List (WrapItem A) → List (WrapItem A)
  keep_case w item_finish ws = ws
  keep_case w item_normal ws = w ∷ ws
  keep_case w item_timeout ws = w ∷ ws
  keep_case w item_reverse ws = w ∷ ws
  keep_case w item_ack ws = w ∷ ws

  -- the records that are no FINISH items, in order
  abbrev pub kept : List (Option (WrapItem A)) → List (WrapItem A)
  kept [] = []
  kept (none ∷ os) = kept os
  kept (some w ∷ os) = keep_case w w.item_type (kept os)

  abbrev counted : OutCallback A → OutCallback A
  counted c = record c { event = c.event + 1 }

  abbrev after_finish : OutCallback A → WrapItem A → OutCallback A
  after_finish c w = record c {
    event = c.event + 1;
    num_stop = c.num_stop + 1;
    flushes = c.flushes + 1;
    acks = c.acks ++ (w ∷ []);
  }

  other_case :
      (c : OutCallback A) (w : WrapItem A) (ty : ItemType)
      → (ty ≡ item_finish)
        ⊎ ((finish_count ty ≡ 0)
            × (type_case (counted c) w ty
                ≡ record { callback = counted c; record_of = some w; last = false })
            × ((ws : List (WrapItem A)) → keep_case w ty ws ≡ w ∷ ws))
  other_case c w item_finish = inl refl
  other_case c w item_normal = inr (refl, refl, λ ws. refl)
  other_case c w item_timeout = inr (refl, refl, λ ws. refl)
  other_case c w item_reverse = inr (refl, refl, λ ws. refl)
  other_case c w item_ack = inr (refl, refl, λ ws. refl)

  finish_more :
      (c : OutCallback A) (w : WrapItem A)
      → w.item_type ≡ item_finish
      → c.num_stop + 1 ≢ c.num_in
      → pull_record c (some w)
        ≡ record { callback = after_finish c w; record_of = none; last = false }
  unfolding pull_record
  finish_more c w e h = ap (type_case (counted c) w) e ∙ rw (==_ne (c.num_stop + 1) c.num_in h) refl

  finish_last :
      (c : OutCallback A) (w : WrapItem A)
      → w.item_type ≡ item_finish
      → c.num_stop + 1 ≡ c.num_in
      → pull_record c (some w) ≡ record {
        callback = record c {
          event = c.event + 1;
          num_stop = c.num_stop + 1;
          flushes = c.flushes + 1;
        };
        record_of = some w;
        last = true;
      }
  unfolding pull_record
  finish_last c w e h =
      let full : (c.num_stop + 1 == c.num_in) ≡ true = ground arith in
      ap (type_case (counted c) w) e ∙ rw full refl

  -- When the FINISH items of all but one compute thread are among what is read, and then comes the last
  -- one, the engine sends every other record in the order of the reads, then that FINISH item, and
  -- nothing else; and a call returns 1.
  pub pull_all-last :
      (c : OutCallback A) (os : List (Option (WrapItem A))) (w : WrapItem A)
      → w.item_type ≡ item_finish
      → c.num_stop + count_finishes os + 1 ≡ c.num_in
      → ((pull_all c (os ++ (some w ∷ []))).1 ≡ kept os ++ (w ∷ []))
        × ((pull_all c (os ++ (some w ∷ []))).2 ≡ true)
  unfolding pull_all pull_record
  pull_all-last c [] w e h =
      let one = finish_last c w e (omega (arith, h)) in
      (
        ap (λ p. (continued p (p.callback, [], false)).1) one,
        ap (λ p. (continued p (p.callback, [], false)).2) one,
      )
  pull_all-last c (none ∷ os) w e h = pull_all-last c os w e h
  pull_all-last c (some v ∷ os) w e h = elim (other_case c v v.item_type) [
    | inl q ↦
        let one = finish_more c v q (λ z. absurd (omega (arith, z, h, ap finish_count q))) in
        let (x, y) =
          pull_all-last (after_finish c v) os w e (omega (arith, h, ap finish_count q)) in
        (
          ap (λ p. (continued p (pull_all p.callback (os ++ (some w ∷ [])))).1) one
              ∙ x
              ∙ ap (λ ty. keep_case v ty (kept os) ++ (w ∷ [])) (sym q),
          ap (λ p. (continued p (pull_all p.callback (os ++ (some w ∷ [])))).2) one ∙ y,
        )
    | inr (b, one, k) ↦
        let (x, y) = pull_all-last (counted c) os w e (omega (arith, h, b)) in
        (
          ap (λ p. (continued p (pull_all p.callback (os ++ (some w ∷ [])))).1) one
              ∙ ap (◌∷◌ v) x
              ∙ ap (λ ws. ws ++ (w ∷ [])) (sym (k (kept os))),
          ap (λ p. (continued p (pull_all p.callback (os ++ (some w ∷ [])))).2) one ∙ y,
        )
  ]
