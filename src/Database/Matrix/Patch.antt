-- ===== src/Database/Matrix/Patch.antt =====
-- What writes do to a square matrix: a patch gives the new value of each cell that was written.
use poulpy_pir.Prelude.{
  ℕ, zero, suc, ◌+◌, ◌*◌, ◌≤◌, ◌<◌, ◌≡◌, ◌≢◌, refl, sym, ap, ◌∙◌, List, Option, none, some, ℤ, Bool,
  true, false, ◌==◌, ◌&&◌, if◌then◌else◌, length, get_elem?, set, length-set, get_elem?-set_self,
  get_elem?-set_ne, get_elem?-lt, le→leb, lt→ltb, arith, div_of_parts, mod_of_parts, parts-lt,
  Bool-cases, inl, inr, ◌/◌, ◌%◌,
}
use poulpy_pir.Error.{Result, ok}
use poulpy_pir.Loop.{for_range, for_until}
use poulpy_pir.Database.Matrix.{CoeffMatrix, cell, set_cell}
use native.Mathlib.Decide.{dec_lt}

pub record IsSquare (n : ℕ) (x : CoeffMatrix) : Type 0 where
  pub rows_in_eq : x.rows_in ≡ n
  pub rows_out_eq : x.rows_out ≡ n
  pub length_eq : length x.flat ≡ n * n

abbrev pub entry : ℕ → CoeffMatrix → ℕ → ℕ → Option ℤ
entry n x r c = get_elem? x.flat (r * n + c)

abbrev pub Patch : Type 0
Patch = ℕ → ℕ → Option ℤ

abbrev pub or_else : Option ℤ → Option ℤ → Option ℤ
or_else none old = old
or_else (some v) old = some v

-- `y` is `x` with the patch written.
pub record Wrote (n : ℕ) (p : Patch) (x y : CoeffMatrix) : Type 0 where
  pub square : IsSquare n y
  pub cells : (r c : ℕ) → r < n → c < n → entry n y r c ≡ or_else (p r c) (entry n x r c)

-- Where a cell of the square lies in the data.
pub cell_bound : (n r c : ℕ) → r < n → c < n → r * n + c < n * n
cell_bound n r c h k = parts-lt r c n n h k

same_cell : (n r c r' c' : ℕ) → c < n → c' < n → r * n + c ≡ r' * n + c' → (r ≡ r') × (c ≡ c')
same_cell n r c r' c' h h' e = (
  sym (div_of_parts r c n h) ∙ ap (λ (t : ℕ). t / n) e ∙ div_of_parts r' c' n h',
  sym (mod_of_parts r c n h) ∙ ap (λ (t : ℕ). t % n) e ∙ mod_of_parts r' c' n h',
)

row_bound : (n r : ℕ) → r < n → (r + 1) * n ≤ n * n
row_bound n r h = grind arith

pub cell-entry :
    (n : ℕ) (x : CoeffMatrix) (r c : ℕ)
    → IsSquare n x
    → r < n
    → c < n
    → (v : ℤ) × (entry n x r c ≡ some v) × (cell x r c ≡ ok v)
unfolding cell
cell-entry n x r c s h k =
    let (v, found) =
      get_elem?-lt x.flat (r * n + c) (omega (arith, s.length_eq, cell_bound n r c h k)) in
    let fits = le→leb ((r + 1) * n) (length x.flat) (omega (arith, s.length_eq, row_bound n r h)) in
    (v, found, rw (s.rows_in_eq, fits, lt→ltb c n k, found))

-- The patch of one write.
unfoldable pub single : ℕ → ℕ → ℤ → Patch
single r c v r' c' = if r' == r && c' == c then some v else none

write_cell :
    (n : ℕ) (flat : List ℤ) (r c r' c' : ℕ) (v : ℤ)
    → length flat ≡ n * n
    → r < n
    → c < n
    → c' < n
    → get_elem? (set flat (r * n + c) v) (r' * n + c')
      ≡ or_else (single r c v r' c') (get_elem? flat (r' * n + c'))
unfolding single
write_cell n flat r c r' c' v len h k k' = elim (Bool-cases (r' == r && c' == c)) [
  | inl here ↦
      let er : r' ≡ r = ground arith in
      let ec : c' ≡ c = ground arith in
      rw (here, er, ec)
        (get_elem?-set_self flat (r * n + c) v (omega (arith, len, cell_bound n r c h k)))
  | inr there ↦ rw there (
      get_elem?-set_ne flat (r * n + c) (r' * n + c') v (λ e.
        let (er, ec) = same_cell n r c r' c' k k' e in absurd (ground (arith, there, er, ec))))
]

pub set_cell-Wrote :
    (n : ℕ) (x : CoeffMatrix) (r c : ℕ) (v : ℤ)
    → IsSquare n x
    → r < n
    → c < n
    → (y : CoeffMatrix) × (set_cell x r c v ≡ ok y) × Wrote n (single r c v) x y
unfolding set_cell single
set_cell-Wrote n x r c v s h k = (
  record x { flat = set x.flat (r * x.rows_in + c) v },
  rw (
    s.rows_in_eq,
    le→leb (r * n + n) (length x.flat) (omega (arith, s.length_eq, row_bound n r h)),
    lt→ltb c n k,
  ),
  record {
    square = record {
      rows_in_eq = s.rows_in_eq;
      rows_out_eq = s.rows_out_eq;
      length_eq = length-set x.flat (r * x.rows_in + c) v ∙ s.length_eq;
    };
    cells = λ r' c' h' k'. rw s.rows_in_eq (write_cell n x.flat r c r' c' v s.length_eq h k k');
  },
)

or_else-none : (o : Option ℤ) → or_else o none ≡ o
or_else-none none = refl
or_else-none (some v) = refl

module _ (n : ℕ) where
  pub Wrote-none : (x : CoeffMatrix) → IsSquare n x → Wrote n (λ r c. none) x x
  Wrote-none x s = record { square = s; cells = λ r c h k. refl }

  pub Wrote-then :
      (p q : Patch) (x y z : CoeffMatrix)
      → Wrote n p x y
      → Wrote n q y z
      → Wrote n (λ r c. or_else (q r c) (p r c)) x z
  Wrote-then p q x y z w w' = record {
    square = w'.square;
    cells = λ r c h k. ground (arith, w.cells r c h k, w'.cells r c h k);
  }

  -- The patch of a loop over a range, later steps on top.
  pub patches : (ℕ → Patch) → (count lo : ℕ) → Patch
  patches p zero lo r c = none
  patches p (suc count) lo r c = or_else (patches p count (lo + 1) r c) (p lo r c)

  pub for_range-Wrote :
      (p : ℕ → Patch) (body : ℕ → CoeffMatrix → Result CoeffMatrix) (count lo : ℕ)
      → ((j : ℕ) (x : CoeffMatrix)
          → lo ≤ j
          → j < lo + count
          → IsSquare n x
          → (y : CoeffMatrix) × (body j x ≡ ok y) × Wrote n (p j) x y)
      → (x : CoeffMatrix) → IsSquare n x
      → (y : CoeffMatrix) × (for_range count lo body x ≡ ok y) × Wrote n (patches p count lo) x y
  unfolding for_range patches
  for_range-Wrote p body zero lo steps x s = (x, refl, Wrote-none x s)
  for_range-Wrote p body (suc count) lo steps x s =
      let (y, run, w) = steps lo x (omega arith) (omega arith) s in
      let (z, run', w') =
        for_range-Wrote p body count (lo + 1) (λ j t le lt. steps j t (omega arith) (omega arith)) y
          w.square in
      (z, rw run run', Wrote-then (p lo) (patches p count (lo + 1)) x y z w w')

  pub for_until-Wrote :
      (p : ℕ → Patch) (stop : ℕ → Bool) (body : ℕ → CoeffMatrix → Result CoeffMatrix)
      → ((j : ℕ) → stop j ≡ true → stop (j + 1) ≡ true)
      → ((j r c : ℕ) → stop j ≡ true → p j r c ≡ none)
      → (count lo : ℕ)
      → ((j : ℕ) (x : CoeffMatrix)
          → lo ≤ j
          → j < lo + count
          → stop j ≡ false
          → IsSquare n x
          → (y : CoeffMatrix) × (body j x ≡ ok y) × Wrote n (p j) x y)
      → (x : CoeffMatrix) → IsSquare n x
      → (y : CoeffMatrix) × (for_until stop count lo body x ≡ ok y)
        × Wrote n (patches p count lo) x y
  unfolding for_until patches
  for_until-Wrote p stop body up off zero lo steps x s = (x, refl, Wrote-none x s)
  for_until-Wrote p stop body up off (suc count) lo steps x s = elim (Bool-cases (stop lo)) [
    | inl over ↦ (x, rw over, stopped x s over)
    | inr go ↦
        let (y, run, w) = steps lo x (omega arith) (omega arith) go s in
        let (z, run', w') =
          for_until-Wrote p stop body up off count (lo + 1)
            (λ j t le lt. steps j t (omega arith) (omega arith)) y w.square in
        (z, rw (go, run) run', Wrote-then (p lo) (patches p count (lo + 1)) x y z w w')
  ]
    where
      none_left : (count lo r c : ℕ) → stop lo ≡ true → patches p count lo r c ≡ none
      none_left zero lo r c over = refl
      none_left (suc count) lo r c over =
          rw (none_left count (lo + 1) r c (up lo over), off lo r c over)

      stopped :
          (x : CoeffMatrix) → IsSquare n x → stop lo ≡ true → Wrote n (patches p (suc count) lo) x x
      stopped x s over = record {
        square = s;
        cells = λ r c h k. rw (none_left (suc count) lo r c over);
      }

  -- A loop none of whose steps writes a cell leaves it.
  pub patches-none :
      (p : ℕ → Patch) (r c count lo : ℕ)
      → ((j : ℕ) → lo ≤ j → j < lo + count → p j r c ≡ none)
      → patches p count lo r c ≡ none
  unfolding patches
  patches-none p r c zero lo off = refl
  patches-none p r c (suc count) lo off =
      rw (patches-none p r c count (lo + 1) (λ j le lt. off j (omega arith) (omega arith)))
        (off lo (omega arith) (omega arith))

  -- At a cell that only the step `own` writes, a loop writes what that step writes.
  pub patches-at :
      (p : ℕ → Patch) (own r c count lo : ℕ)
      → lo ≤ own
      → own < lo + count
      → ((j : ℕ) → lo ≤ j → j < lo + count → j ≢ own → p j r c ≡ none)
      → patches p count lo r c ≡ p own r c
  unfolding patches
  patches-at p own r c zero lo le lt only = absurd (omega arith)
  patches-at p own r c (suc count) lo le lt only = elim (dec_lt lo own) [
    | yes further ↦
        rw
          (
            patches-at p own r c count (lo + 1) (omega arith) (omega arith)
                (λ j le' lt' ne. only j (omega arith) (omega arith) ne),
            only lo (omega arith) (omega arith) (λ e. omega arith),
          )
          (or_else-none (p own r c))
    | no here ↦
        let e : lo ≡ own = omega arith in
        rw
          (patches-none p r c count (lo + 1)
            (λ j le' lt'. only j (omega arith) (omega arith) (λ e'. omega arith)))
          (ap (λ j. p j r c) e)
  ]

  pub Wrote-ext :
      (p q : Patch) (x y : CoeffMatrix)
      → ((r c : ℕ) → p r c ≡ q r c)
      → Wrote n p x y
      → Wrote n q x y
  Wrote-ext p q x y same w = record {
    square = w.square;
    cells = λ r c h k. rw (← same r c) (w.cells r c h k);
  }
