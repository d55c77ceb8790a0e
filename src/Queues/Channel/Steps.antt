-- ===== src/Queues/Channel/Steps.antt =====
-- Each call moves one slot from one place to another.
use af_stream.Prelude.{
  ℕ, ◌+◌, ◌<◌, ◌≡◌, refl, ap, subst, inl, inr, none, some, List, [], ◌∷◌, ◌++◌, ◌==◌, ==_self,
  ==_ne, if◌then◌else◌, Bool-cases, arith,
}
use af_stream.Queues.LockFree.{LockFreeQueue, push, pop}
use af_stream.Queues.LockFree.Contents.{
  Contains, put_list, push-Contains, pop-Contains, pop-Contains-none,
}
use af_stream.Queues.Channel.{put_queue, null}
use af_stream.Queues.Channel.Counting.{
  count, without, total, grand, sum_change, count-without, count-append_one,
}
use af_stream.Queues.Channel.Moves.{System, IsAccounted, Conserves}

module _ (indeterminate : ℕ) where
  abbrev pub Holds : LockFreeQueue ℕ → ℕ → (ℕ → List ℕ) → Type 0
  Holds q n f = Contains null indeterminate q n f

  -- Queue j is replaced by one that contains f.
  put_fun : ℕ → (ℕ → List ℕ) → (ℕ → ℕ → List ℕ) → ℕ → ℕ → List ℕ
  put_fun j f fs i = if j == i then f else fs i

  put-Holds :
      (qs : ℕ → LockFreeQueue ℕ) (m n j : ℕ) (fs : ℕ → ℕ → List ℕ) (q : LockFreeQueue ℕ)
      (f : ℕ → List ℕ)
      → ((i : ℕ) → i < m → Holds (qs i) n (fs i))
      → Holds q n f
      → (i : ℕ) → i < m
      → Holds (put_queue j q qs i) n (put_fun j f fs i)
  unfolding put_fun
  put-Holds qs m n j fs q f all h i k = elim (Bool-cases (j == i)) [
    | inl e ↦ rw e h
    | inr e ↦ rw e (all i k)
  ]

  -- One ring changes, of queue j: the count with the old ring is that with the new one.
  grand-put :
      (a m n j i : ℕ) (fs : ℕ → ℕ → List ℕ) (xs : List ℕ)
      → j < m
      → i < n
      → grand a m n (put_fun j (put_list null indeterminate i xs (fs j)) fs) + count a (fs j i)
        ≡ grand a m n fs + count a xs
  unfolding put_fun
  grand-put a m n j i fs xs h k =
      let f' = put_list null indeterminate i xs (fs j) in
      let inner =
        sum_change (λ l. count a (fs j l)) (λ l. count a (f' l)) n i k
          (λ l ne. ap (λ b. count a (if b then xs else fs j l)) (==_ne i l ne)) in
      let outer =
        sum_change (λ l. total a n (fs l)) (λ l. total a n (put_fun j f' fs l)) m j h
          (λ l ne. ap (λ b. total a n (if b then f' else fs l)) (==_ne j l ne)) in
      let at_j : total a n (put_fun j f' fs j) ≡ total a n f' =
        ap (λ b. total a n (if b then f' else fs j)) (==_self j) in
      let at_i : count a (f' i) ≡ count a xs =
        ap (λ b. count a (if b then xs else fs j i)) (==_self i) in
      omega (arith, inner, outer, at_j, at_i)

  pub gets-Conserves :
      (s : System) (v : IsAccounted indeterminate s) (w a : ℕ)
      → w < s.mesh.num_writers
      → (pop null indeterminate (s.mesh.writers w)).0 ≡ some a
      → Conserves indeterminate s v (record s {
        mesh = record s.mesh {
          writers = put_queue w (pop null indeterminate (s.mesh.writers w)).1 s.mesh.writers;
        };
        held = a ∷ s.held;
      })
  gets-Conserves s v w a h e =
      let (i, k, ys, g, c) =
        pop-Contains null indeterminate (s.mesh.writers w) s.mesh.num_readers (v.in_writers w) a
          v.some_reader (v.of_writers w h) e in
      (
        record {
          in_writers = put_fun w (put_list null indeterminate i ys (v.in_writers w)) v.in_writers;
          in_readers = v.in_readers;
          some_writer = v.some_writer;
          some_reader = v.some_reader;
          of_writers =
              put-Holds s.mesh.writers s.mesh.num_writers s.mesh.num_readers w v.in_writers
                (pop null indeterminate (s.mesh.writers w)).1
                (put_list null indeterminate i ys (v.in_writers w)) v.of_writers c;
          of_readers = v.of_readers;
        },
        λ b. omega (
          arith,
          grand-put b s.mesh.num_writers s.mesh.num_readers w i v.in_writers ys h k,
          ap (count b) g,
        ),
      )

  pub reads-Conserves :
      (s : System) (v : IsAccounted indeterminate s) (r a : ℕ)
      → r < s.mesh.num_readers
      → (pop null indeterminate (s.mesh.readers r)).0 ≡ some a
      → Conserves indeterminate s v (record s {
        mesh = record s.mesh {
          readers = put_queue r (pop null indeterminate (s.mesh.readers r)).1 s.mesh.readers;
        };
        taken = a ∷ s.taken;
      })
  reads-Conserves s v r a h e =
      let (i, k, ys, g, c) =
        pop-Contains null indeterminate (s.mesh.readers r) s.mesh.num_writers (v.in_readers r) a
          v.some_writer (v.of_readers r h) e in
      (
        record {
          in_writers = v.in_writers;
          in_readers = put_fun r (put_list null indeterminate i ys (v.in_readers r)) v.in_readers;
          some_writer = v.some_writer;
          some_reader = v.some_reader;
          of_writers = v.of_writers;
          of_readers =
              put-Holds s.mesh.readers s.mesh.num_readers s.mesh.num_writers r v.in_readers
                (pop null indeterminate (s.mesh.readers r)).1
                (put_list null indeterminate i ys (v.in_readers r)) v.of_readers c;
        },
        λ b. omega (
          arith,
          grand-put b s.mesh.num_readers s.mesh.num_writers r i v.in_readers ys h k,
          ap (count b) g,
        ),
      )

  pub writes-Conserves :
      (s : System) (v : IsAccounted indeterminate s) (w r a : ℕ) (q : LockFreeQueue ℕ)
      → w < s.mesh.num_writers
      → r < s.mesh.num_readers
      → 0 < count a s.held
      → push null indeterminate (s.mesh.readers r) w a ≡ some q
      → Conserves indeterminate s v (record s {
        mesh = record s.mesh { readers = put_queue r q s.mesh.readers };
        held = without a s.held;
      })
  writes-Conserves s v w r a q hw hr held e =
      let f' = put_list null indeterminate w (v.in_readers r w ++ (a ∷ [])) (v.in_readers r) in
      (
        record {
          in_writers = v.in_writers;
          in_readers = put_fun r f' v.in_readers;
          some_writer = v.some_writer;
          some_reader = v.some_reader;
          of_writers = v.of_writers;
          of_readers =
              put-Holds s.mesh.readers s.mesh.num_readers s.mesh.num_writers r v.in_readers q f'
                v.of_readers
                (push-Contains null indeterminate (s.mesh.readers r) q s.mesh.num_writers w
                  (v.in_readers r) a (v.of_readers r hr) hw e);
        },
        λ b. omega (
          arith,
          grand-put b s.mesh.num_readers s.mesh.num_writers r w v.in_readers
              (v.in_readers r w ++ (a ∷ [])) hr hw,
          count-append_one a b (v.in_readers r w),
          count-without a b s.held held,
        ),
      )

  pub acks-Conserves :
      (s : System) (v : IsAccounted indeterminate s) (r w a : ℕ) (q : LockFreeQueue ℕ)
      → w < s.mesh.num_writers
      → r < s.mesh.num_readers
      → 0 < count a s.taken
      → push null indeterminate (s.mesh.writers w) r a ≡ some q
      → Conserves indeterminate s v (record s {
        mesh = record s.mesh { writers = put_queue w q s.mesh.writers };
        taken = without a s.taken;
      })
  acks-Conserves s v r w a q hw hr held e =
      let f' = put_list null indeterminate r (v.in_writers w r ++ (a ∷ [])) (v.in_writers w) in
      (
        record {
          in_writers = put_fun w f' v.in_writers;
          in_readers = v.in_readers;
          some_writer = v.some_writer;
          some_reader = v.some_reader;
          of_writers =
              put-Holds s.mesh.writers s.mesh.num_writers s.mesh.num_readers w v.in_writers q f'
                v.of_writers
                (push-Contains null indeterminate (s.mesh.writers w) q s.mesh.num_readers r
                  (v.in_writers w) a (v.of_writers w hw) hr e);
          of_readers = v.of_readers;
        },
        λ b. omega (
          arith,
          grand-put b s.mesh.num_writers s.mesh.num_readers w r v.in_writers
              (v.in_writers w r ++ (a ∷ [])) hw hr,
          count-append_one a b (v.in_writers w r),
          count-without a b s.taken held,
        ),
      )

  -- A `Read` that gives NULL
  pub idle_read-Conserves :
      (s : System) (v : IsAccounted indeterminate s) (r : ℕ)
      → r < s.mesh.num_readers
      → (pop null indeterminate (s.mesh.readers r)).0 ≡ none
      → Conserves indeterminate s v (record s {
        mesh = record s.mesh {
          readers = put_queue r (pop null indeterminate (s.mesh.readers r)).1 s.mesh.readers;
        };
      })
  idle_read-Conserves s v r h e = (
    record {
      in_writers = v.in_writers;
      in_readers = v.in_readers;
      some_writer = v.some_writer;
      some_reader = v.some_reader;
      of_writers = v.of_writers;
      of_readers = λ i k. elim (Bool-cases (r == i)) [
        | inl g ↦
            let same : r ≡ i = ground arith in
            rw g (
              subst
                (λ j.
                  Holds (pop null indeterminate (s.mesh.readers r)).1 s.mesh.num_writers
                    (v.in_readers j))
                same
                (pop-Contains-none null indeterminate (s.mesh.readers r) s.mesh.num_writers
                  (v.in_readers r) v.some_writer (v.of_readers r h) e))
        | inr g ↦ rw g (v.of_readers i k)
      ];
    },
    λ b. refl,
  )
