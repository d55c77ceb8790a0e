-- ===== src/Threads/Loop/Moved.antt =====
-- What the main loop of a compute thread counts, and its invariant.
use af_stream.Prelude.{
  ℕ, ◌+◌, ◌≤◌, ◌<◌, ◌≡◌, refl, sym, ◌∙◌, ◌⊎◌, inl, inr, some, List, [], ◌==◌, if◌then◌else◌, arith,
}
use af_stream.Fault.Item.{BackupItem}
use af_stream.Threads.Item.{
  ItemType, item_normal, item_finish, item_timeout, item_reverse, item_ack,
}
use af_stream.Threads.Loop.{Thread, destinations, create, on_finish}

abbrev pub finish_count : ItemType → ℕ
finish_count item_normal = 0
finish_count item_finish = 1
finish_count item_timeout = 0
finish_count item_reverse = 0
finish_count item_ack = 0

-- No more FINISH items are counted than there are neighbours; those for downstream are sent when the
-- last upstream one is, one to each; and then `tuple` is not NULL.
pub record IsSound {U Op : Type 0} (t : Thread U Op) : Type 0 where
  pub some_upstream : 0 < t.num_upstream
  pub up_le : t.up_stop ≤ t.num_upstream
  pub down_le : t.down_stop ≤ t.num_downstream
  pub announced :
      t.finishes ≡ (if t.up_stop == t.num_upstream then destinations t.num_downstream else [])
  pub pointed : t.up_stop ≡ t.num_upstream → (q : ℕ) × (t.tuple ≡ some q)

-- t' is t after u FINISH items from upstream and d from downstream, those that are read.
pub record Moved {U Op : Type 0} (t t' : Thread U Op) (u d : ℕ) : Type 0 where
  pub sound : IsSound t'
  pub same_up : t'.num_upstream ≡ t.num_upstream
  pub same_down : t'.num_downstream ≡ t.num_downstream
  pub same_writer : t'.up_writer ≡ t.up_writer
  pub same_reverse : t'.r_finishes ≡ t.r_finishes
  pub up : (t'.up_stop ≡ t.num_upstream) ⊎ (t'.up_stop ≡ t.up_stop + u)
  pub down : (t'.down_stop ≡ t.num_downstream) ⊎ (t'.down_stop ≡ t.down_stop + d)

module _ {U Op : Type 0} where
  pub create-IsSound :
      (m n : ℕ) (x : U) (os : List Op) (cmd : BackupItem) → IsSound (create m n x os cmd)
  unfolding create
  create-IsSound m n x os cmd = record {
    some_upstream = ground arith;
    up_le = omega arith;
    down_le = omega arith;
    announced = ground arith;
    pointed = λ e. absurd (ground arith);
  }

  pub Moved-twice :
      (t t' t'' : Thread U Op) (u u' d d' : ℕ)
      → Moved t t' u d
      → Moved t' t'' u' d'
      → Moved t t'' (u + u') (d + d')
  Moved-twice t t' t'' u u' d d' m n = record {
    sound = n.sound;
    same_up = n.same_up ∙ m.same_up;
    same_down = n.same_down ∙ m.same_down;
    same_writer = n.same_writer ∙ m.same_writer;
    same_reverse = n.same_reverse ∙ m.same_reverse;
    up = ground (arith, m.up, n.up, m.same_up, n.same_up, n.sound.up_le);
    down = ground (arith, m.down, n.down, m.same_down, n.same_down, n.sound.down_le);
  }

  pub Moved-as :
      (t t' : Thread U Op) (u u' d d' : ℕ) → u ≡ u' → d ≡ d' → Moved t t' u d → Moved t t' u' d'
  Moved-as t t' u u' d d' e f m = record {
    sound = m.sound;
    same_up = m.same_up;
    same_down = m.same_down;
    same_writer = m.same_writer;
    same_reverse = m.same_reverse;
    up = omega (arith, e, m.up);
    down = omega (arith, f, m.down);
  }

  pub Moved-none : (t : Thread U Op) → IsSound t → Moved t t 0 0
  Moved-none t v = record {
    sound = v;
    same_up = refl;
    same_down = refl;
    same_writer = refl;
    same_reverse = refl;
    up = inr (omega arith);
    down = inr (omega arith);
  }

  pub full_down :
      (t : Thread U Op) (d : ℕ) → IsSound t → t.down_stop ≡ t.num_downstream → Moved t t 0 d
  full_down t d v e = record {
    sound = v;
    same_up = refl;
    same_down = refl;
    same_writer = refl;
    same_reverse = refl;
    up = inr (omega arith);
    down = inl e;
  }

  pub full_up : (t : Thread U Op) (u : ℕ) → IsSound t → t.up_stop ≡ t.num_upstream → Moved t t u 0
  full_up t u v e = record {
    sound = v;
    same_up = refl;
    same_down = refl;
    same_writer = refl;
    same_reverse = refl;
    up = inl e;
    down = inr (omega arith);
  }

  pub on_finish_moves :
      (t : Thread U Op)
      → IsSound t
      → t.up_stop < t.num_upstream
      → (q : ℕ) → t.tuple ≡ some q
      → Moved t (on_finish t) 1 0
  unfolding on_finish
  on_finish_moves t v h q p = record {
    sound = record {
      some_upstream = ground (arith, v.some_upstream);
      up_le = ground (arith, h);
      down_le = ground (arith, v.down_le);
      announced = ground (arith, v.announced, h);
      pointed = λ e. (q, ground (arith, p));
    };
    same_up = ground arith;
    same_down = ground arith;
    same_writer = ground arith;
    same_reverse = ground arith;
    up = ground arith;
    down = ground arith;
  }

  pub finish_tuple : (t : Thread U Op) → (on_finish t).tuple ≡ t.tuple
  unfolding on_finish
  finish_tuple t = ground arith

  -- A handler changes nothing that the loop counts.
  pub user_moves :
      (t t' : Thread U Op)
      → IsSound t
      → t'.num_upstream ≡ t.num_upstream
      → t'.num_downstream ≡ t.num_downstream
      → t'.up_stop ≡ t.up_stop
      → t'.down_stop ≡ t.down_stop
      → t'.finishes ≡ t.finishes
      → t'.tuple ≡ t.tuple
      → t'.up_writer ≡ t.up_writer
      → t'.r_finishes ≡ t.r_finishes
      → Moved t t' 0 0
  user_moves t t' v a b c d e f g h = record {
    sound = record {
      some_upstream = omega (arith, v.some_upstream, a);
      up_le = omega (arith, v.up_le, a, c);
      down_le = omega (arith, v.down_le, b, d);
      announced = rw (e, a, b, c) v.announced;
      pointed = λ s. let (q, p) = v.pointed (sym c ∙ s ∙ a) in (q, f ∙ p);
    };
    same_up = a;
    same_down = b;
    same_writer = g;
    same_reverse = h;
    up = inr (omega (arith, c));
    down = inr (omega (arith, d));
  }
