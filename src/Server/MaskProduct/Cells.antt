-- ===== src/Server/MaskProduct/Cells.antt =====
-- The cells that a fold of products over the blocks computes.
use poulpy_pir.Prelude.{
  ℕ, suc, ◌+◌, ◌*◌, ◌<◌, ◌≡◌, refl, ap, ◌∙◌, List, [], ◌∷◌, length, length-map, drop, arith,
}
use poulpy_pir.Error.{ok, ◌>>=◌}
use poulpy_pir.Loop.{for_range, at}
use poulpy_pir.Loop.Suffix.{drop_suc, at-drop}
use poulpy_pir.Server.Float.{Float, entry, tabulate, tabulate_ext}
use poulpy_pir.Server.Gemm.{Gemm, IsKernel, widen_i16_to_f64}
use poulpy_pir.Server.MaskProduct.{PreparedF64, QueryMask}

module _ (f : Float) (rows_out lwe_n : ℕ) where
  open f use {F64}

  -- The sizes that `full_torus_f64_mask_product` asserts of each block and its mask, and the sizes of
  -- their buffers.
  abbrev pub AreShaped : List PreparedF64 → List (QueryMask f) → Type 0
  AreShaped [] [] = Unit {0}
  AreShaped (u ∷ us) (a ∷ rest) =
      (length u.values ≡ rows_out * u.rows_in)
      × (length a.values ≡ u.rows_in * lwe_n)
      × AreShaped us rest
  AreShaped _ _ = ⊥

  pub AreShaped-length :
      (us : List PreparedF64) (masks : List (QueryMask f))
      → AreShaped us masks
      → length us ≡ length masks
  AreShaped-length [] [] h = refl
  AreShaped-length [] (a ∷ rest) h = absurd h
  AreShaped-length (u ∷ us) [] h = absurd h
  AreShaped-length (u ∷ us) (a ∷ rest) h = ap suc (AreShaped-length us rest h.2)

  module _ (g : Gemm f) (kernel : IsKernel f g) where
    abbrev pub row_cells : PreparedF64 → ℕ → List F64
    row_cells u r =
        tabulate (λ p. entry f (widen_i16_to_f64 f u.values) (r * u.rows_in + p)) 0 u.rows_in

    abbrev pub column_cells : PreparedF64 → QueryMask f → ℕ → List F64
    column_cells u a c = tabulate (λ p. entry f a.values (p * lwe_n + c)) 0 u.rows_in

    -- The cell in row `r` and column `c`, block by block.
    abbrev pub cell_over : List PreparedF64 → List (QueryMask f) → (r c : ℕ) → F64 → F64
    cell_over [] masks r c x = x
    cell_over (u ∷ us) [] r c x = x
    cell_over (u ∷ us) (a ∷ rest) r c x =
        cell_over us rest r c (kernel.cell x (row_cells u r) (column_cells u a c))

    -- A fold whose right operands are the columns from `col_start` on.
    module _ (view : PreparedF64 → QueryMask f → List F64) (width col_start : ℕ)
        (views : (u : PreparedF64) (a : QueryMask f)
          → length a.values ≡ u.rows_in * lwe_n
          → (length (view u a) ≡ u.rows_in * width)
            × ((p c : ℕ)
                → p < u.rows_in
                → c < width
                → entry f (view u a) (p * width + c)
                  ≡ entry f a.values (p * lwe_n + (col_start + c))))
        (prepared : List PreparedF64) (masks : List (QueryMask f)) where
      pub fold_lem :
          (us : List PreparedF64) (rest : List (QueryMask f)) (start : ℕ) (acc : List F64)
          → drop start prepared ≡ us
          → drop start masks ≡ rest
          → AreShaped us rest
          → length acc ≡ rows_out * width
          → (out : List F64) × (for_range
                (length us)
                start
                (λ bc acc. do
                  u ← at prepared bc
                  rhs ← at masks bc
                  g.gemm_f64_add acc
                      (widen_i16_to_f64 f u.values)
                      (view u rhs)
                      rows_out
                      u.rows_in
                      width)
                acc
              ≡ ok out)
            × (length out ≡ rows_out * width)
            × ((r c : ℕ)
                → r < rows_out
                → c < width
                → entry f out (r * width + c)
                  ≡ cell_over us rest r (col_start + c) (entry f acc (r * width + c)))
      unfolding for_range
      fold_lem [] rest start acc here there shaped len = (acc, refl, len, λ r c lr lc. refl)
      fold_lem (u ∷ us) [] start acc here there shaped len = absurd shaped
      fold_lem (u ∷ us) (a ∷ rest) start acc here there (su, sa, more) len =
          let (size, cells) = views u a sa in
          let (next, run, len', step) =
            kernel.returns acc (widen_i16_to_f64 f u.values) (view u a) rows_out u.rows_in width len
              (length-map (f.of_i16) u.values ∙ su) size in
          let (out, run', len'', all) =
            fold_lem us rest (start + 1) next (drop_suc start prepared u us here)
              (drop_suc start masks a rest there) more len' in
          (
            out,
            rw (at-drop start prepared u us here, at-drop start masks a rest there, run) run',
            len'',
            λ r c lr lc.
                all r c lr lc
                ∙ ap (cell_over us rest r (col_start + c)) (
                    step r c lr lc
                    ∙ ap (kernel.cell (entry f acc (r * width + c)) (row_cells u r))
                        (tabulate_ext _ _ 0 u.rows_in (λ p ge lt. cells p c (omega arith) lc))),
          )
