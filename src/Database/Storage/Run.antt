-- ===== src/Database/Storage/Run.antt =====
-- What the loops of `try_encode_shard` write into one matrix.
use poulpy_pir.Prelude.{
  ℕ, suc, ◌+◌, ◌-◌, ◌≤◌, ◌<◌, min, ◌≡◌, ◌≢◌, refl, ap, ◌∙◌, List, [], ◌∷◌, ℤ, Option, none, some,
  Bool, true, false, ◌&&◌, leb, ltb, ◌==◌, length, get_elem?, get_elem?-lt, get_elem?-ge, ◌⊎◌, All,
  All-get, arith, if◌then◌else◌, le→leb, lt→leb, lt→ltb, Bool-cases, inl, inr,
}
use native.Mathlib.Decide.{dec_lt}
use poulpy_pir.Error.{Result, ok, ◌>>=◌}
use poulpy_pir.Loop.{for_range, at}
use poulpy_pir.Payload.{Payload, IsBlock, IsCodec}
use poulpy_pir.Database.Matrix.{CoeffMatrix}
use poulpy_pir.Database.Matrix.Patch.{
  IsSquare, Patch, Wrote, or_else, single, set_cell-Wrote, Wrote-none, Wrote-then, Wrote-ext,
  patches, patches-none, patches-at, for_range-Wrote,
}
use poulpy_pir.Database.Storage.Scatter.{write_column}

-- The digits `ds` down column `c` from row `row` on.
unfoldable pub column : (row c : ℕ) → List ℤ → Patch
column row c ds r c' = if c' == c && leb row r then get_elem? ds (r - row) else none

column_cons :
    (row c : ℕ) (d : ℤ) (ds : List ℤ) (r c' : ℕ)
    → or_else (column (row + 1) c ds r c') (single row c d r c') ≡ column row c (d ∷ ds) r c'
unfolding column single
column_cons row c d ds r c' = elim (dec_lt row r) [
  | yes below ↦ let next : r - row ≡ suc (r - (row + 1)) = omega arith in rw next (ground arith)
  | no above ↦ elim (dec_lt r row) [
    | yes over ↦ ground arith
    | no here ↦ let z : r - row ≡ 0 = omega arith in rw z (ground arith)
  ]
]

pub write_column-Wrote :
    (n : ℕ) (x : CoeffMatrix) (row c : ℕ) (ds : List ℤ)
    → IsSquare n x
    → row + length ds ≤ n
    → c < n
    → (y : CoeffMatrix) × (write_column x row c ds ≡ ok y) × Wrote n (column row c ds) x y
unfolding write_column column
write_column-Wrote n x row c [] s h k = (
  x,
  refl,
  Wrote-ext n (λ r c'. none) (column row c []) x x (λ r c'. ground arith) (Wrote-none n x s),
)
write_column-Wrote n x row c (d ∷ ds) s h k =
    let (y, run, w) = set_cell-Wrote n x row c d s (omega arith) k in
    let (z, run', w') = write_column-Wrote n y (row + 1) c ds w.square (omega arith) k in
    (
      z,
      rw run run',
      Wrote-ext n _ (column row c (d ∷ ds)) x z (column_cons row c d ds)
          (Wrote-then n (single row c d) (column (row + 1) c ds) x y z w w'),
    )

-- Which payload `i` is, as digits: those of the shard's `i - start`th payload.
unfoldable pub digits_of : Payload → (start : ℕ) → List (List ℕ) → ℕ → List ℤ
digits_of p start payloads i = elim (get_elem? payloads (i - start)) [
  | none ↦ []
  | some v ↦ p.encode v
]

digits_of-some :
    (p : Payload) (start : ℕ) (payloads : List (List ℕ)) (i : ℕ) (v : List ℕ)
    → get_elem? payloads (i - start) ≡ some v
    → (digits_of p start payloads i ≡ p.encode v) × (at payloads (i - start) ≡ ok v)
unfolding digits_of
digits_of-some p start payloads i v found = (ground (arith, found), ground (arith, found))

pub column_off : (row c : ℕ) (ds : List ℤ) (r c' : ℕ) → c ≢ c' → column row c ds r c' ≡ none
unfolding column
column_off row c ds r c' ne = ground arith

pub column_apart :
    (row c : ℕ) (ds : List ℤ) (r : ℕ)
    → (r < row) ⊎ (row + length ds ≤ r)
    → column row c ds r c ≡ none
unfolding column
column_apart row c ds r (inl above) = ground arith
column_apart row c ds r (inr below) = ground (arith, get_elem?-ge ds (r - row) (omega arith))

pub column_at : (row c : ℕ) (ds : List ℤ) (k : ℕ) → column row c ds (row + k) c ≡ get_elem? ds k
unfolding column
column_at row c ds k = let back : row + k - row ≡ k = omega arith in rw back (ground arith)

drop_true : (b : Bool) (o : Option ℤ) → (if b && true then o else none) ≡ (if b then o else none)
drop_true true o = refl
drop_true false o = refl

module _ (p : Payload) (codec : IsCodec p) (start : ℕ) (payloads : List (List ℕ))
    (blocks : All (IsBlock p.block_len) payloads) where
  pub digits_of-in :
      (i : ℕ)
      → start ≤ i
      → i < start + length payloads
      → (v : List ℕ) × (at payloads (i - start) ≡ ok v)
        × (digits_of p start payloads i ≡ p.encode v)
        × IsBlock p.block_len v
  digits_of-in i le lt =
      let (v, found) = get_elem?-lt payloads (i - start) (omega arith) in
      let (digits, here) = digits_of-some p start payloads i v found in
      (v, here, digits, All-get (IsBlock p.block_len) payloads (i - start) v blocks found)

  -- A run writes the digits of the payloads of the shard, each in its column.
  unfoldable pub columns : (base width row : ℕ) → Patch
  unfolding column
  columns base width row r c =
      if (leb start (base + c) && ltb (base + c) (start + length payloads)) && ltb c width
      then column row c (digits_of p start payloads (base + c)) r c
      else none

  module _ (n base width row : ℕ) (narrow : width ≤ n) (fits : row + p.exponent ≤ n) where
    abbrev c_lo : ℕ
    c_lo = min (start - base) width

    abbrev c_hi : ℕ
    c_hi = min (start + length payloads - base) width

    abbrev body : ℕ → CoeffMatrix → Result CoeffMatrix
    body c y = do v ← at payloads (base + c - start); write_column y row c (p.encode v)

    abbrev step : ℕ → Patch
    step c = column row c (digits_of p start payloads (base + c))

    body-Wrote :
        (c : ℕ) (x : CoeffMatrix)
        → c_lo ≤ c
        → c < c_hi
        → IsSquare n x
        → (y : CoeffMatrix) × (body c x ≡ ok y) × Wrote n (step c) x y
    body-Wrote c x le lt s =
        let (v, found, digits, block) = digits_of-in (base + c) (omega arith) (omega arith) in
        let (y, run, w) =
          write_column-Wrote n x row c (p.encode v) s (omega (arith, codec.length-encode v block))
            (omega arith) in
        (y, rw found run, rw digits w)

    loop-columns :
        (r c : ℕ) → c_lo < c_hi → patches n step (c_hi - c_lo) c_lo r c ≡ columns base width row r c
    unfolding columns
    loop-columns r c some_ =
        elim (Bool-cases
          ((leb start (base + c) && ltb (base + c) (start + length payloads)) && ltb c width)) [
            | inl inside ↦ rw inside (
                patches-at n step c r c (c_hi - c_lo) c_lo (ground arith) (ground arith)
                  (λ j le lt ne. column_off row j _ r c ne))
            | inr outside ↦ rw outside (
                patches-none n step r c (c_hi - c_lo) c_lo
                  (λ j le lt. column_off row j _ r c (λ e. absurd (ground (arith, outside, e)))))
          ]

    columns-none : (r c : ℕ) → c_hi ≤ c_lo → none ≡ columns base width row r c
    unfolding columns
    columns-none r c empty = ground arith

    pub columns-Wrote :
        (x : CoeffMatrix)
        → IsSquare n x
        → (y : CoeffMatrix) × ((if leb c_hi c_lo then ok x else for_range (c_hi - c_lo) c_lo body x)
            ≡ ok y)
          × Wrote n (columns base width row) x y
    columns-Wrote x s = elim (dec_lt c_lo c_hi) [
      | yes more ↦
          let (y, run, w) =
            for_range-Wrote n step body (c_hi - c_lo) c_lo
              (λ c t le lt. body-Wrote c t le (omega arith)) x s in
          (
            y,
            rw (lt→leb c_hi c_lo more) run,
            Wrote-ext n _ (columns base width row) x y (λ r c. loop-columns r c more) w,
          )
      | no empty ↦ (
        x,
        rw (le→leb c_hi c_lo (omega arith)),
        Wrote-ext n (λ r c. none) (columns base width row) x x
            (λ r c. columns-none r c (omega arith)) (Wrote-none n x s),
      )
    ]

  -- Outside the rows of a run nothing is written.
  pub columns_off :
      (base width row r c : ℕ)
      → (r < row) ⊎ (row + p.exponent ≤ r)
      → columns base width row r c ≡ none
  unfolding columns
  columns_off base width row r c apart =
      elim (Bool-cases
        ((leb start (base + c) && ltb (base + c) (start + length payloads)) && ltb c width)) [
          | inl inside ↦
              let (v, found, digits, block) =
                digits_of-in (base + c) (ground (arith, inside)) (ground (arith, inside)) in
              let len : length (digits_of p start payloads (base + c)) ≡ p.exponent =
                ap length digits ∙ codec.length-encode v block in
              rw inside (
                column_apart row c _ r (elim apart [
                  | inl above ↦ inl above
                  | inr below ↦ inr (omega (arith, len, below))
                ]))
          | inr outside ↦ rw outside
        ]

  -- Inside a run, the cell of a digit.
  pub columns_here :
      (base width row k c i : ℕ)
      → base + c ≡ i
      → c < width
      → columns base width row (row + k) c ≡ (
          if leb start i && ltb i (start + length payloads)
          then get_elem? (digits_of p start payloads i) k
          else none)
  unfolding columns
  columns_here base width row k c i e lt = rw e (
      rw (lt→ltb c width lt, column_at row c (digits_of p start payloads i) k)
        (drop_true (leb start i && ltb i (start + length payloads)) _))
