-- ===== src/Server/Gemm/Vectors.antt =====
-- The portable product with a vector is one sum for each row.
use poulpy_pir.Prelude.{
  ℕ, zero, suc, ◌+◌, ◌*◌, ◌<◌, ◌≡◌, refl, sym, ap, ap₂, ◌∙◌, ℤ, List, [], ◌∷◌, length, length-map,
  mul_mono, arith,
}
use mathlib.Core.Option.{get_or}
use poulpy_pir.Server.Float.{Float, entry, entry_ext, tabulate, length-tabulate}
use poulpy_pir.Server.Gemm.{slice, widen_i16_to_f64, dot_i16, gemv_rows, default_gemv_i16_f64_add}
use poulpy_pir.Server.Gemm.Portable.{portable}
use poulpy_pir.Server.Gemm.Products.{IsVectorKernel}
use poulpy_pir.Server.Gemm.Tiles.{map-slice}
use poulpy_pir.Server.MaskProduct.Strip.{length-slice, get_elem?-slice}

module _ (f : Float) where
  open f use {F64, zero_f, add_f, mul_f, of_i16}

  -- The products of a row and a vector, added one after another.
  abbrev pub dot_terms : List F64 → List F64 → F64 → F64
  dot_terms [] b s = s
  dot_terms (x ∷ row) [] s = s
  dot_terms (x ∷ row) (y ∷ b) s = dot_terms row b (add_f s (mul_f x y))

  dot_i16_lem :
      (xs : List ℤ) (b : List F64) (s : F64)
      → dot_i16 f xs b s ≡ dot_terms (widen_i16_to_f64 f xs) b s
  dot_i16_lem [] b s = refl
  dot_i16_lem (x ∷ xs) [] s = refl
  dot_i16_lem (x ∷ xs) (y ∷ b) s = dot_i16_lem xs b (add_f s (mul_f (of_i16 x) y))

  entry-tabulate : (h : ℕ → F64) (i k j : ℕ) → j < k → entry f (tabulate h i k) j ≡ h (i + j)
  entry-tabulate h i zero j lt = absurd (omega arith)
  entry-tabulate h i (suc k) zero lt = ap h (omega arith)
  entry-tabulate h i (suc k) (suc j) lt =
      entry-tabulate h (i + 1) k j (omega arith) ∙ ap h (omega arith)

  -- A list is the table of its entries.
  table :
      (xs : List F64) (h : ℕ → F64) (k : ℕ)
      → length xs ≡ k
      → ((j : ℕ) → j < k → entry f xs j ≡ h j)
      → xs ≡ tabulate h 0 k
  table xs h k len same =
      entry_ext f xs (tabulate h 0 k) (len ∙ sym (length-tabulate h 0 k)) (λ j lt.
        same j (omega (arith, len, lt))
        ∙ sym (entry-tabulate h 0 k j (omega (arith, len, lt)) ∙ ap h (omega arith)))

  row_lem :
      (u : List ℤ) (i rows_out rows_in : ℕ)
      → length u ≡ rows_out * rows_in
      → i < rows_out
      → widen_i16_to_f64 f (slice (i * rows_in) (i * rows_in + rows_in) u)
        ≡ tabulate (λ p. entry f (widen_i16_to_f64 f u) (i * rows_in + p)) 0 rows_in
  row_lem u i rows_out rows_in len lt =
      let room = mul_mono (i + 1) rows_out rows_in (omega arith) in
      let lo : ℕ = i * rows_in in
      table (widen_i16_to_f64 f (slice lo (lo + rows_in) u)) _ rows_in
        (length-map of_i16 (slice lo (lo + rows_in) u)
          ∙ length-slice lo (lo + rows_in) u (omega (arith, room, len))
          ∙ omega arith)
        (λ j lj. rw (map-slice of_i16 lo (lo + rows_in) u) (
          ap (λ o. get_or o zero_f)
            (get_elem?-slice lo (lo + rows_in) j (widen_i16_to_f64 f u) (omega arith))))

  length-gemv_rows :
      (i : ℕ) (acc : List F64) (u : List ℤ) (b : List F64) (rows_in : ℕ)
      → length (gemv_rows f i acc u b rows_in) ≡ length acc
  length-gemv_rows i [] u b rows_in = refl
  length-gemv_rows i (a ∷ acc) u b rows_in = ap suc (length-gemv_rows (i + 1) acc u b rows_in)

  gemv_rows_lem :
      (i : ℕ) (acc : List F64) (u : List ℤ) (b : List F64) (rows_in j : ℕ)
      → j < length acc
      → entry f (gemv_rows f i acc u b rows_in) j
        ≡ add_f
            (entry f acc j)
            (dot_i16 f (slice ((i + j) * rows_in) ((i + j) * rows_in + rows_in) u) b zero_f)
  gemv_rows_lem i [] u b rows_in j lt = absurd (omega arith)
  gemv_rows_lem i (a ∷ acc) u b rows_in zero lt =
      ap (λ (k : ℕ). add_f a (dot_i16 f (slice (k * rows_in) (k * rows_in + rows_in) u) b zero_f))
        (omega arith)
  gemv_rows_lem i (a ∷ acc) u b rows_in (suc j) lt =
      gemv_rows_lem (i + 1) acc u b rows_in j (omega arith)
      ∙ ap
          (λ (k : ℕ).
            add_f (entry f acc j)
              (dot_i16 f (slice (k * rows_in) (k * rows_in + rows_in) u) b zero_f))
          (omega arith)

  -- So the portable product with a vector is a kernel.
  pub portable-IsVectorKernel : IsVectorKernel f (portable f)
  unfolding default_gemv_i16_f64_add
  portable-IsVectorKernel = record {
    dot = λ x row column. add_f x (dot_terms row column zero_f);
    returns = λ acc u b rows_out rows_in len_acc len_u len_b. (
      gemv_rows f 0 acc u b rows_in,
      refl,
      length-gemv_rows 0 acc u b rows_in ∙ len_acc,
      λ i lt.
          gemv_rows_lem 0 acc u b rows_in i (omega (arith, len_acc))
          ∙ ap
              (λ (k : ℕ).
                add_f (entry f acc i)
                  (dot_i16 f (slice (k * rows_in) (k * rows_in + rows_in) u) b zero_f))
              (omega arith)
          ∙ ap (add_f (entry f acc i)) (
              dot_i16_lem (slice (i * rows_in) (i * rows_in + rows_in) u) b zero_f
              ∙ ap₂ (λ row column. dot_terms row column zero_f)
                  (row_lem u i rows_out rows_in len_u lt)
                  (table b (entry f b) rows_in len_b (λ j lj. refl))),
    );
  }
