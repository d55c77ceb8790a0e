-- ===== src/Window/Cells.antt =====
-- The loops of `TerminateWindow` append the positive counters of the sketch, row by row.
use af_stream.Prelude.{
  ℕ, zero, suc, ◌+◌, ◌*◌, ◌^◌, ◌≤◌, ◌≡◌, refl, sym, ap, ◌∙◌, inl, inr, Option, none, some, List, [],
  ◌∷◌, ◌++◌, if◌then◌else◌, ◌>>=◌, length, length-append, Bool-cases, arith,
}
use af_stream.Prelude.Int.{ℤ, pos, ltb_ℤ}
use af_stream.Memory.Integers.{InI64}
use af_stream.Sketch.{CountMin}
use af_stream.Window.{CmItem, append_counter, append_row, append_rows, get_value}
use af_stream.Window.Item.{append_all, AreCounters}

abbrev pub row_cells : CountMin → ℕ → ℕ → ℕ → ℕ → List (ℕ × ℤ)
row_cells s w i j zero = []
row_cells s w i j (suc left) =
    let rest = row_cells s w i (j + 1) left in
    if ltb_ℤ (pos 0) (get_value s i j) then (i * w + j, get_value s i j) ∷ rest else rest

abbrev pub all_cells : CountMin → ℕ → ℕ → ℕ → List (ℕ × ℤ)
all_cells s w i zero = []
all_cells s w i (suc left) = row_cells s w i 0 w ++ all_cells s w (i + 1) left

bind_ext :
    {A B : Type 0} (o : Option A) (f g : A → Option B)
    → ((a : A) → f a ≡ g a)
    → (o >>= f) ≡ (o >>= g)
bind_ext none f g h = refl
bind_ext (some a) f g h = h a

append_all-append :
    (xs ys : List (ℕ × ℤ)) (it : CmItem)
    → append_all (xs ++ ys) it ≡ (append_all xs it >>= append_all ys)
append_all-append [] ys it = refl
append_all-append (x ∷ xs) ys it =
    bind_ext (append_counter it x.0 x.1) (append_all (xs ++ ys))
      (λ a. append_all xs a >>= append_all ys) (append_all-append xs ys)
    ∙ sym (assoc (append_counter it x.0 x.1))
  where
    assoc :
        (o : Option CmItem)
        → (o >>= append_all xs >>= append_all ys) ≡ (o >>= λ a. append_all xs a >>= append_all ys)
    assoc none = refl
    assoc (some a) = refl

append_row-cells :
    (s : CountMin) (w i j left : ℕ) (it : CmItem)
    → append_row s w i j left it ≡ append_all (row_cells s w i j left) it
unfolding append_row
append_row-cells s w i j zero it = refl
append_row-cells s w i j (suc left) it = elim (Bool-cases (ltb_ℤ (pos 0) (get_value s i j))) [
  | inl e ↦ rw e (
      bind_ext (append_counter it (i * w + j) (get_value s i j)) (append_row s w i (j + 1) left)
        (append_all (row_cells s w i (j + 1) left)) (append_row-cells s w i (j + 1) left))
  | inr e ↦ rw e (append_row-cells s w i (j + 1) left it)
]

pub append_rows-cells :
    (s : CountMin) (w i left : ℕ) (it : CmItem)
    → append_rows s w i left it ≡ append_all (all_cells s w i left) it
unfolding append_rows
append_rows-cells s w i zero it = refl
append_rows-cells s w i (suc left) it =
    ap (λ o. o >>= append_rows s w (i + 1) left) (append_row-cells s w i 0 w it)
    ∙ bind_ext (append_all (row_cells s w i 0 w) it) (append_rows s w (i + 1) left)
        (append_all (all_cells s w (i + 1) left)) (append_rows-cells s w (i + 1) left)
    ∙ sym (append_all-append (row_cells s w i 0 w) (all_cells s w (i + 1) left) it)

length-row_cells : (s : CountMin) (w i j left : ℕ) → length (row_cells s w i j left) ≤ left
length-row_cells s w i j zero = omega arith
length-row_cells s w i j (suc left) = ground (arith, length-row_cells s w i (j + 1) left)

pub length-all_cells : (s : CountMin) (w i left : ℕ) → length (all_cells s w i left) ≤ left * w
length-all_cells s w i zero = omega arith
length-all_cells s w i (suc left) = omega (
  arith,
  length-append {0} (row_cells s w i 0 w) (all_cells s w (i + 1) left),
  length-row_cells s w i 0 w,
  length-all_cells s w (i + 1) left,
)

AreCounters-append :
    (xs ys : List (ℕ × ℤ)) → AreCounters xs → AreCounters ys → AreCounters (xs ++ ys)
AreCounters-append [] ys a b = b
AreCounters-append (x ∷ xs) ys (a0, a1, a) b = (a0, a1, AreCounters-append xs ys a b)

-- the values of the sketch are those of `long long`
abbrev pub IsInRange : CountMin → Type 0
IsInRange s = (i j : ℕ) → InI64 (get_value s i j)

row_cells-AreCounters :
    (s : CountMin) (w i j left : ℕ)
    → IsInRange s
    → i * w + j + left ≤ 2 ^ 32
    → AreCounters (row_cells s w i j left)
row_cells-AreCounters s w i j zero h b = tt
row_cells-AreCounters s w i j (suc left) h b =
    let rest = row_cells-AreCounters s w i (j + 1) left h (omega (arith, b)) in
    elim (Bool-cases (ltb_ℤ (pos 0) (get_value s i j))) [
      | inl e ↦ rw e (omega (arith, b), h i j, rest)
      | inr e ↦ rw e rest
    ]

pub all_cells-AreCounters :
    (s : CountMin) (w i left : ℕ)
    → IsInRange s
    → (i + left) * w ≤ 2 ^ 32
    → AreCounters (all_cells s w i left)
all_cells-AreCounters s w i zero h b = tt
all_cells-AreCounters s w i (suc left) h b =
    AreCounters-append (row_cells s w i 0 w) (all_cells s w (i + 1) left)
      (row_cells-AreCounters s w i 0 w h (omega (arith, b)))
      (all_cells-AreCounters s w (i + 1) left h (omega (arith, b)))
