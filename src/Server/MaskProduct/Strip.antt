-- ===== src/Server/MaskProduct/Strip.antt =====
-- Copies of strips of columns, out of a matrix and into one.
use poulpy_pir.Prelude.{
  ℕ, zero, suc, ◌+◌, ◌-◌, ◌*◌, ◌≤◌, ◌<◌, ◌≡◌, refl, ap, ◌∙◌, List, length, drop, get_elem?, splice,
  length-append, length-take, length-drop, get_elem?-take, get_elem?-drop, get_elem?-append_left,
  get_elem?-append_right, splice-inside, splice-before, splice-after, length-splice, mul_mono,
  arith,
}
use native.Mathlib.Decide.{dec_lt, ℕ_discrete}
use poulpy_pir.Server.Float.{Float}
use poulpy_pir.Server.Gemm.{slice}
use poulpy_pir.Server.MaskProduct.{rhs_strip, place_strip}

pub length-slice {ℓ} :
    {A : Type ℓ} (lo hi : ℕ) (xs : List A) → hi ≤ length xs → length (slice lo hi xs) ≡ hi - lo
length-slice lo hi xs le = length-take (hi - lo) (drop lo xs) (omega (arith, length-drop lo xs))

pub get_elem?-slice {ℓ} :
    {A : Type ℓ} (lo hi i : ℕ) (xs : List A)
    → i < hi - lo
    → get_elem? (slice lo hi xs) i ≡ get_elem? xs (lo + i)
get_elem?-slice lo hi i xs lt = get_elem?-take (hi - lo) (drop lo xs) i lt ∙ get_elem?-drop lo xs i

module _ (f : Float) (lwe_n col_start width : ℕ) (inside : col_start + width ≤ lwe_n) where
  open f use {F64, zero_f}

  row_fits : (r rows : ℕ) → r < rows → r * lwe_n + lwe_n ≤ rows * lwe_n
  row_fits r rows lt = omega (arith, mul_mono (suc r) rows lwe_n lt)

  pub length-rhs_strip :
      (values : List F64) (r count : ℕ)
      → (r + count) * lwe_n ≤ length values
      → length (rhs_strip f values lwe_n col_start width r count) ≡ count * width
  length-rhs_strip values r zero fits = omega arith
  length-rhs_strip values r (suc count) fits =
      let src : ℕ = r * lwe_n + col_start in
      let first = row_fits r (r + suc count) (omega arith) in
      omega (
        arith,
        length-append (slice src (src + width) values)
            (rhs_strip f values lwe_n col_start width (r + 1) count),
        length-slice src (src + width) values (omega arith),
        length-rhs_strip values (r + 1) count (omega arith),
      )

  pub get_elem?-rhs_strip :
      (values : List F64) (r count p c : ℕ)
      → (r + count) * lwe_n ≤ length values
      → p < count
      → c < width
      → get_elem? (rhs_strip f values lwe_n col_start width r count) (p * width + c)
        ≡ get_elem? values ((r + p) * lwe_n + (col_start + c))
  get_elem?-rhs_strip values r zero p c fits lt lc = absurd (omega arith)
  get_elem?-rhs_strip values r (suc count) zero c fits lt lc =
      let src : ℕ = r * lwe_n + col_start in
      let first = row_fits r (r + suc count) (omega arith) in
      let size = length-slice src (src + width) values (omega arith) in
      let e : zero * width + c ≡ c = omega arith in
      rw e (
        get_elem?-append_left (slice src (src + width) values)
          (rhs_strip f values lwe_n col_start width (r + 1) count) c (omega arith)
        ∙ get_elem?-slice src (src + width) c values (omega arith)
        ∙ ap (get_elem? values) (omega arith))
  get_elem?-rhs_strip values r (suc count) (suc p) c fits lt lc =
      let src : ℕ = r * lwe_n + col_start in
      let first = row_fits r (r + suc count) (omega arith) in
      let size = length-slice src (src + width) values (omega arith) in
      let e : suc p * width + c - length (slice src (src + width) values) ≡ p * width + c =
        omega arith in
      get_elem?-append_right (slice src (src + width) values)
        (rhs_strip f values lwe_n col_start width (r + 1) count) (suc p * width + c) (omega arith)
      ∙ ap (get_elem? (rhs_strip f values lwe_n col_start width (r + 1) count)) e
      ∙ get_elem?-rhs_strip values (r + 1) count p c (omega arith) (omega arith) lc
      ∙ ap (get_elem? values) (omega arith)

  -- Where the row `r` of the strip begins.
  abbrev begin : ℕ → ℕ
  begin r = r * lwe_n + col_start

  module _ (local : List F64) (rows : ℕ) (size : length local ≡ rows * width) where
    abbrev row_of : ℕ → List F64
    row_of r = slice (r * width) ((r + 1) * width) local

    length-row_of : (r : ℕ) → r < rows → length (row_of r) ≡ begin r + width - begin r
    length-row_of r lt = omega (
      arith,
      mul_mono (suc r) rows width lt,
      length-slice (r * width) ((r + 1) * width) local
          (omega (arith, mul_mono (suc r) rows width lt)),
    )

    offset : (r c : ℕ) → r * lwe_n + (col_start + c) - begin r ≡ c
    offset r c = omega arith

    abbrev placed : ℕ → List F64 → List F64
    placed r acc = splice (begin r) (begin r + width) acc (row_of r)

    length-placed :
        (r : ℕ) (acc : List F64)
        → r < rows
        → length acc ≡ rows * lwe_n
        → length (placed r acc) ≡ rows * lwe_n
    length-placed r acc lt len =
        length-splice acc (row_of r) (begin r) (begin r + width) 0 (omega arith)
          (omega (arith, row_fits r rows lt)) (length-row_of r lt)
        ∙ len

    pub length-place_strip :
        (r count : ℕ) (acc : List F64)
        → r + count ≡ rows
        → length acc ≡ rows * lwe_n
        → length (place_strip f lwe_n col_start width local r count acc) ≡ rows * lwe_n
    length-place_strip r zero acc e len = len
    length-place_strip r (suc count) acc e len =
        length-place_strip (r + 1) count (placed r acc) (omega arith)
          (length-placed r acc (omega arith) len)

    -- Rows at and below `r` leave what stands before them.
    place_strip_above :
        (r count i : ℕ) (acc : List F64)
        → r + count ≡ rows
        → length acc ≡ rows * lwe_n
        → i < begin r
        → get_elem? (place_strip f lwe_n col_start width local r count acc) i ≡ get_elem? acc i
    place_strip_above r zero i acc e len lt = refl
    place_strip_above r (suc count) i acc e len lt =
        let fit = row_fits r rows (omega arith) in
        place_strip_above (r + 1) count i (placed r acc) (omega arith)
          (length-placed r acc (omega arith) len) (omega arith)
        ∙ splice-before acc (row_of r) (begin r) (begin r + width) i (omega arith) (omega arith)
            (length-row_of r (omega arith)) lt

    -- The cells of the strip are those of `local`.
    pub place_strip_inside :
        (r count p c : ℕ) (acc : List F64)
        → r + count ≡ rows
        → length acc ≡ rows * lwe_n
        → r ≤ p
        → p < rows
        → c < width
        → get_elem?
            (place_strip f lwe_n col_start width local r count acc)
            (p * lwe_n + (col_start + c))
          ≡ get_elem? local (p * width + c)
    place_strip_inside r zero p c acc e len ge lt lc = absurd (omega arith)
    place_strip_inside r (suc count) p c acc e len ge lt lc =
        let fit = row_fits r rows (omega arith) in
        elim (ℕ_discrete r p) [
          | yes same ↦ rw (← same) (
              place_strip_above (r + 1) count (r * lwe_n + (col_start + c)) (placed r acc)
                (omega arith) (length-placed r acc (omega arith) len) (omega arith)
              ∙ splice-inside acc (row_of r) (begin r) (begin r + width)
                  (r * lwe_n + (col_start + c)) (omega arith) (omega arith)
                  (length-row_of r (omega arith)) (omega arith) (omega arith)
              ∙ ap (get_elem? (row_of r)) (offset r c)
              ∙ get_elem?-slice (r * width) ((r + 1) * width) c local (omega arith))
          | no ne ↦
              place_strip_inside (r + 1) count p c (placed r acc) (omega arith)
                (length-placed r acc (omega arith) len) (omega arith) lt lc
        ]

    -- The columns before the strip stay.
    pub place_strip_before :
        (r count p c : ℕ) (acc : List F64)
        → r + count ≡ rows
        → length acc ≡ rows * lwe_n
        → p < rows
        → c < col_start
        → get_elem? (place_strip f lwe_n col_start width local r count acc) (p * lwe_n + c)
          ≡ get_elem? acc (p * lwe_n + c)
    place_strip_before r zero p c acc e len lt lc = refl
    place_strip_before r (suc count) p c acc e len lt lc =
        let fit = row_fits r rows (omega arith) in
        place_strip_before (r + 1) count p c (placed r acc) (omega arith)
          (length-placed r acc (omega arith) len) lt lc
        ∙ elim (dec_lt r p) [
          | yes below ↦
              splice-after acc (row_of r) (begin r) (begin r + width) (p * lwe_n + c) (omega arith)
                (omega arith) (length-row_of r (omega arith))
                (omega (arith, mul_mono (suc r) p lwe_n below))
          | no above ↦
              splice-before acc (row_of r) (begin r) (begin r + width) (p * lwe_n + c) (omega arith)
                (omega arith) (length-row_of r (omega arith))
                (omega (arith, mul_mono p r lwe_n (omega arith)))
        ]
