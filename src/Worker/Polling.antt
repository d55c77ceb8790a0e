-- ===== src/Worker/Polling.antt =====
-- What `stop` counts in the polling loop: the threads whose FINISH has been read.
use af_stream.Prelude.{
  ℕ, zero, suc, ◌+◌, ◌≤◌, ◌<◌, ◌≡◌, ◌≢◌, refl, ap, ◌∙◌, subst, Bool, true, false, List, [], ◌∷◌,
  ◌++◌, map, ◌⊎◌, inl, inr, if◌then◌else◌, eq_or_ne, ==_self, ==_ne, Bool-cases, arith,
}
use af_stream.Worker.{Command, plain, request, finish, ThreadPc, waiting_clean, ThreadKind, Link}
use af_stream.Worker.Agreement.{
  IsBegun, told, working, asked, answered, finished, begun, quiet, Fits,
}
use af_stream.Worker.Start.{put}

abbrev quiet_case : ThreadPc → List Command → Bool
quiet_case waiting_clean [] = true
quiet_case waiting_clean (c ∷ cs) = false
quiet_case ThreadPc.absent cs = false
quiet_case ThreadPc.initialising cs = false
quiet_case ThreadPc.waiting_start cs = false
quiet_case ThreadPc.running cs = false
quiet_case ThreadPc.waiting_backup cs = false
quiet_case ThreadPc.cleaning cs = false
quiet_case ThreadPc.ended cs = false

abbrev pub is_quiet : Link → Bool
is_quiet l = quiet_case l.pc l.to_main

not_empty : (cs : List Command) (c : Command) → quiet_case waiting_clean (cs ++ (c ∷ [])) ≡ false
not_empty [] c = refl
not_empty (x ∷ xs) c = refl

pub begun_not_quiet : (k : ThreadKind) (l : Link) → IsBegun k l → is_quiet l ≡ false
begun_not_quiet k l (told e) = ap is_quiet e
begun_not_quiet k l (working bs p e) = ap is_quiet e
begun_not_quiet k l (asked b q e) = ap is_quiet e
begun_not_quiet k l (answered q e) = ap is_quiet e
begun_not_quiet k l (finished bs p e) = ap is_quiet e ∙ not_empty (map request bs) (plain finish)

-- A thread that is polled: begun, or done and among the first n + 1.
abbrev pub Polled : ℕ → ℕ → ThreadKind → Link → Type 0
Polled n i k l = Fits k begun l ⊎ ((i ≤ n) × Fits k quiet l)

pub quiet_Polled :
    (n i : ℕ) (k : ThreadKind) (l : Link) → is_quiet l ≡ true → Polled n i k l → Fits k quiet l
quiet_Polled n i k l q (inl b) = absurd (cc (q, begun_not_quiet k l b))
quiet_Polled n i k l q (inr (h, e)) = e

pub begun_Polled : (n i : ℕ) (k : ThreadKind) (l : Link) → n < i → Polled n i k l → Fits k begun l
begun_Polled n i k l h (inl b) = b
begun_Polled n i k l h (inr (g, e)) = absurd (omega arith)

abbrev pub count_quiet : (ℕ → Link) → ℕ → ℕ
count_quiet links zero = 0
count_quiet links (suc m) = count_quiet links m + (if is_quiet (links m) then 1 else 0)

pub count_quiet_le : (links : ℕ → Link) (m : ℕ) → count_quiet links m ≤ m
count_quiet_le links zero = omega arith
count_quiet_le links (suc m) = ground (arith, count_quiet_le links m)

pub count_quiet_all :
    (links : ℕ → Link) (m i : ℕ) → count_quiet links m ≡ m → i < m → is_quiet (links i) ≡ true
count_quiet_all links zero i e h = absurd (omega arith)
count_quiet_all links (suc m) i e h = elim (Bool-cases (is_quiet (links m))) [
  | inl q ↦ elim (eq_or_ne i m) [
    | inl d ↦ rw d q
    | inr ne ↦ count_quiet_all links m i (ground arith) (omega arith)
  ]
  | inr q ↦ absurd (ground (arith, count_quiet_le links m))
]

pub count_quiet_none :
    (links : ℕ → Link) (m : ℕ)
    → ((i : ℕ) → i < m → is_quiet (links i) ≡ false)
    → count_quiet links m ≡ 0
count_quiet_none links zero h = refl
count_quiet_none links (suc m) h =
    ground (arith, h m (omega arith), count_quiet_none links m (λ i g. h i (omega arith)))

pub put_self : (i : ℕ) (l : Link) (links : ℕ → Link) → put i l links i ≡ l
put_self i l links = rw (==_self i) refl

pub put_ne : (i j : ℕ) (l : Link) (links : ℕ → Link) → i ≢ j → put i l links j ≡ links j
put_ne i j l links ne = rw (==_ne i j ne) refl

-- A change at one link that keeps whether it is quiet keeps the count,
pub count_quiet-put_same :
    (links : ℕ → Link) (k : ℕ) (l : Link) (m : ℕ)
    → is_quiet l ≡ is_quiet (links k)
    → count_quiet (put k l links) m ≡ count_quiet links m
count_quiet-put_same links k l zero e = refl
count_quiet-put_same links k l (suc m) e =
    let ih = count_quiet-put_same links k l m e in
    elim (eq_or_ne k m) [
      | inl d ↦
          let f : is_quiet (put k l links m) ≡ is_quiet (links m) =
            subst (λ j. is_quiet (put k l links j) ≡ is_quiet (links j)) d
              (ap is_quiet (put_self k l links) ∙ e) in
          rw (f, ih) refl
      | inr ne ↦ rw (put_ne k m l links ne, ih) refl
    ]

count_quiet-put_below :
    (links : ℕ → Link) (k : ℕ) (l : Link) (m : ℕ)
    → m ≤ k
    → count_quiet (put k l links) m ≡ count_quiet links m
count_quiet-put_below links k l zero h = refl
count_quiet-put_below links k l (suc m) h =
    rw
      (
        put_ne k m l links (λ e. absurd (omega arith)),
        count_quiet-put_below links k l m (omega arith),
      )
      refl

-- and one that makes a link quiet adds one.
pub count_quiet-put_quiet :
    (links : ℕ → Link) (k : ℕ) (l : Link) (m : ℕ)
    → k < m
    → is_quiet l ≡ true
    → is_quiet (links k) ≡ false
    → count_quiet (put k l links) m ≡ count_quiet links m + 1
count_quiet-put_quiet links k l zero h q e = absurd (omega arith)
count_quiet-put_quiet links k l (suc m) h q e = elim (eq_or_ne k m) [
  | inl d ↦
      let now : is_quiet (put k l links m) ≡ true =
        subst (λ j. is_quiet (put k l links j) ≡ true) d (ap is_quiet (put_self k l links) ∙ q) in
      let before : is_quiet (links m) ≡ false = subst (λ j. is_quiet (links j) ≡ false) d e in
      let same = count_quiet-put_below links k l m (omega arith) in
      rw (now, before, same) (omega arith)
  | inr ne ↦
      let ih = count_quiet-put_quiet links k l m (omega arith) q e in
      rw (put_ne k m l links ne, ih) (omega arith)
]
