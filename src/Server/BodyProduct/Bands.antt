-- ===== src/Server/BodyProduct/Bands.antt =====
-- The columns of a batch, and the cells of its products in bands of rows.
pub mod Whole
use poulpy_pir.Prelude.{
  ℕ, zero, suc, ◌+◌, ◌-◌, ◌*◌, ◌≤◌, ◌<◌, ◌≡◌, refl, sym, ap, ap₂, ◌∙◌, min, ltb, ◌==◌, ℤ, List, [],
  ◌∷◌, ◌++◌, length, length-set, length-append, length-replicate, replicate, set, drop, some,
  get_elem?, get_elem?-lt, get_elem?-append_left, get_elem?-append_right, lt→ltb, le→ltb, eq→==,
  mul_mono, arith,
}
use mathlib.Core.Option.{get_or}
use native.Mathlib.Decide.{dec_lt}
use poulpy_pir.Error.{ok, assert, ◌>>=◌, ◌>>◌}
use poulpy_pir.Loop.{for_range, at}
use poulpy_pir.Loop.Suffix.{drop_suc, at-drop, at-some}
use poulpy_pir.Server.Float.{Float, entry, tabulate, tabulate_ext}
use poulpy_pir.Server.Gemm.{Gemm, IsKernel, slice, widen_i16_to_f64, gemm_i16_f64_add}
use poulpy_pir.Server.Gemm.Tiles.{map-slice}
use poulpy_pir.Server.Gemm.Products.{IsVectorKernel, product_cell, product_lem}
use poulpy_pir.Server.MaskProduct.{PreparedF64}
use poulpy_pir.Server.MaskProduct.Strip.{length-slice, get_elem?-slice}
use poulpy_pir.Server.BodyProduct.{
  decode_torus_body_into_col, stack_columns, batch_blocks, decode_all, tile_product, bands_product,
}

module _ (f : Float) {Body : Type 0} (reals : Body → List f.F64) (degree : ℕ)
    (full : (body : Body) → length (reals body) ≡ degree) where
  open f use {F64, zero_f}

  column_lem :
      (body : Body) (col ncols rows count r : ℕ) (rhs : List F64)
      → r + count ≡ rows
      → rows ≤ degree
      → col < ncols
      → length rhs ≡ rows * ncols
      → (out : List F64) × (for_range count r
            (λ r rhs. do
              v ← at (reals body) r
              assert (ltb (r * ncols + col) (length rhs))
              ok (set rhs (r * ncols + col) v))
            rhs
          ≡ ok out)
        × (length out ≡ rows * ncols)
  unfolding for_range
  column_lem body col ncols rows zero r rhs e le lt len = (rhs, refl, len)
  column_lem body col ncols rows (suc count) r rhs e le lt len =
      let (v, found) = get_elem?-lt (reals body) r (omega (arith, full body)) in
      let room : r * ncols + col < length rhs =
        omega (arith, len, mul_mono (r + 1) rows ncols (omega arith)) in
      let (out, run, len') =
        column_lem body col ncols rows count (r + 1) (set rhs (r * ncols + col) v) (omega arith) le
          lt (length-set rhs (r * ncols + col) v ∙ len) in
      (
        out,
        rw (at-some (reals body) r v found) (rw (lt→ltb (r * ncols + col) (length rhs) room) run),
        len',
      )

  pub stack_lem :
      (rows_in q bc qi : ℕ) (queries : List (List Body)) (rhs : List F64)
      → rows_in ≤ degree
      → qi + length queries ≡ q
      → ((j : ℕ) (bodies : List Body) → get_elem? queries j ≡ some bodies → bc < length bodies)
      → length rhs ≡ rows_in * q
      → (out : List F64) × (stack_columns f reals rows_in q bc qi queries rhs ≡ ok out)
        × (length out ≡ rows_in * q)
  unfolding stack_columns decode_torus_body_into_col
  stack_lem rows_in q bc qi [] rhs le e blocks len = (rhs, refl, len)
  stack_lem rows_in q bc qi (bodies ∷ rest) rhs le e blocks len =
      let (body, found) = get_elem?-lt bodies bc (blocks 0 bodies refl) in
      let (next, run, len') =
        column_lem body qi q rows_in rows_in 0 rhs (omega arith) le (omega arith) len in
      let (out, run', len'') =
        stack_lem rows_in q bc (qi + 1) rest next le (omega arith) (λ j b h. blocks (suc j) b h)
          len' in
      (out, rw (at-some bodies bc body found) (rw run run'), len'')

  module _ (q : ℕ) (queries : List (List Body)) (rows_out : ℕ) where
    -- Blocks, from the block `bc` on, and their columns.
    abbrev pub AreFit : (bc : ℕ) → List PreparedF64 → List (List F64) → Type 0
    AreFit bc [] [] = Unit {0}
    AreFit bc (u ∷ us) (rhs ∷ rest) =
        (u.rows_out ≡ rows_out)
        × (length u.values ≡ rows_out * u.rows_in)
        × (length rhs ≡ u.rows_in * q)
        × (stack_columns f reals u.rows_in q bc 0 queries (replicate (u.rows_in * q) zero_f)
            ≡ ok rhs)
        × AreFit (bc + 1) us rest
    AreFit bc [] (rhs ∷ rest) = ⊥
    AreFit bc (u ∷ us) [] = ⊥

    module _ (g : Gemm f) (kernel : IsKernel f g) (vectors : IsVectorKernel f g) where
      abbrev row_cells : PreparedF64 → ℕ → List F64
      row_cells u i =
          tabulate (λ p. entry f (widen_i16_to_f64 f u.values) (i * u.rows_in + p)) 0 u.rows_in

      abbrev column_cells : List F64 → (rows_in c : ℕ) → List F64
      column_cells rhs rows_in c = tabulate (λ p. entry f rhs (p * q + c)) 0 rows_in

      -- The cell in row `i` and column `c`, block by block.
      abbrev pub cell_over : List PreparedF64 → List (List F64) → (i c : ℕ) → F64 → F64
      cell_over [] rhss i c x = x
      cell_over (u ∷ us) [] i c x = x
      cell_over (u ∷ us) (rhs ∷ rest) i c x =
          cell_over us rest i c
            (product_cell f g kernel vectors q x (row_cells u i) (column_cells rhs u.rows_in c))

      batch_lem :
          (us : List PreparedF64) (rhss : List (List F64)) (bc : ℕ) (acc : List F64)
          → AreFit bc us rhss
          → length acc ≡ rows_out * q
          → (out : List F64) × (batch_blocks f reals g us queries rows_out q bc acc ≡ ok out)
            × (length out ≡ rows_out * q)
            × ((i c : ℕ)
                → i < rows_out
                → c < q
                → entry f out (i * q + c) ≡ cell_over us rhss i c (entry f acc (i * q + c)))
      unfolding batch_blocks
      batch_lem [] [] bc acc fit len = (acc, refl, len, λ i c li lc. refl)
      batch_lem [] (rhs ∷ rest) bc acc fit len = absurd fit
      batch_lem (u ∷ us) [] bc acc fit len = absurd fit
      batch_lem (u ∷ us) (rhs ∷ rest) bc acc (same, size, size', stack, more) len =
          let (next, run, len', step) =
            product_lem f g kernel vectors acc u.values rhs rows_out u.rows_in q len size size' in
          let (out, run', len'', all) = batch_lem us rest (bc + 1) next more len' in
          (
            out,
            rw (eq→== u.rows_out rows_out same) (rw stack (rw run run')),
            len'',
            λ i c li lc. all i c li lc ∙ ap (cell_over us rest i c) (step i c li lc),
          )
