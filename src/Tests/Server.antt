-- ===== src/Tests/Server.antt =====
-- Numbers in place of floats, and two blocks of two rows.
use poulpy_pir.Prelude.{
  ℕ, ◌+◌, ◌*◌, ◌≡◌, refl, ◌==◌, ℤ, pos, negsuc, List, [], ◌∷◌, length, replicate, arith, ◌<◌,
}
use poulpy_pir.Error.{ok}
use poulpy_pir.Server.Float.{Float, tabulate, entry}
use poulpy_pir.Server.Gemm.{gemm_f64_add, gemm_i16_f64_add, widen_i16_to_f64}
use poulpy_pir.Server.Gemm.Tiles.{gemm_i16_f64_add_lem}
use poulpy_pir.Server.Gemm.Portable.{portable, terms, gemm_f64_add_lem, portable-IsKernel}
use poulpy_pir.Server.Gemm.Vectors.{portable-IsVectorKernel}
use poulpy_pir.Server.BodyProduct.{body_product_acc_parallel}
use poulpy_pir.Server.BodyProduct.Groups.{AreGroups, batches, body_product_acc_parallel_lem}
use poulpy_pir.Server.MaskProduct.{
  PreparedF64, QueryMask, MaskSplit, accumulate_mask_range, mask_product_acc,
}
use poulpy_pir.Server.MaskProduct.Cells.{AreShaped}
use poulpy_pir.Server.MaskProduct.Split.{mask_product_acc_cols}

abbrev magnitude : ℤ → ℕ
magnitude (pos n) = n
magnitude (negsuc n) = n + 1

abbrev numbers : Float
numbers = record {
  F64 = ℕ;
  zero_f = 0;
  add_f = λ a b. a + b;
  mul_f = λ a b. a * b;
  is_zero = λ a. a == 0;
  of_i16 = magnitude;
}

-- Blocks of 2 rows by 2.
abbrev blocks : List PreparedF64
blocks =
    record { values = pos 1 ∷ pos 0 ∷ pos 2 ∷ pos 3 ∷ []; rows_out = 2; rows_in = 2 }
    ∷ record { values = pos 4 ∷ pos 1 ∷ pos 0 ∷ pos 5 ∷ []; rows_out = 2; rows_in = 2 }
    ∷ []

-- Their masks, of 2 rows by 3.
abbrev masks : List (QueryMask numbers)
masks =
    record { values = 1 ∷ 2 ∷ 3 ∷ 4 ∷ 5 ∷ 6 ∷ []; rows = 2; cols = 3 }
    ∷ record { values = 7 ∷ 8 ∷ 9 ∷ 1 ∷ 2 ∷ 3 ∷ []; rows = 2; cols = 3 }
    ∷ []

masks-AreShaped : AreShaped numbers 2 3 blocks masks
masks-AreShaped = (refl, refl, (refl, refl, tt))

abbrev Row : Type 0
Row = ℕ × ℕ

abbrev numbers_of : Row → List ℕ
numbers_of (a, b) = a ∷ b ∷ []

numbers_of-full : (row : Row) → length (numbers_of row) ≡ 2
numbers_of-full (a, b) = refl

abbrev query_bodies : List (List Row)
query_bodies = ((1, 2) ∷ (3, 4) ∷ []) ∷ ((5, 6) ∷ (7, 8) ∷ []) ∷ []

groups-AreGroups : AreGroups 2 2 (2 ∷ 2 ∷ []) (blocks ∷ blocks ∷ [])
groups-AreGroups = (
  (refl, omega arith, refl, refl, (refl, omega arith, refl, refl, tt)),
  ((refl, omega arith, refl, refl, (refl, omega arith, refl, refl, tt)), tt),
)

body_product_acc_parallel_lem_example :
    (accs : List (List ℕ)) × (body_product_acc_parallel numbers numbers_of
        (portable numbers)
        (blocks ∷ blocks ∷ [])
        query_bodies
        8
      ≡ ok accs)
    × (batches numbers numbers_of 2 numbers_of-full query_bodies 2
          (portable numbers)
          (portable-IsKernel numbers)
          (portable-IsVectorKernel numbers)
          (blocks ∷ blocks ∷ [])
        ≡ ok accs)
body_product_acc_parallel_lem_example =
    body_product_acc_parallel_lem numbers numbers_of 2 numbers_of-full query_bodies 2
      (portable numbers) (portable-IsKernel numbers) (portable-IsVectorKernel numbers) 2 (2 ∷ [])
      blocks (blocks ∷ []) 8 groups-AreGroups (omega arith) refl

gemm_f64_add_lem_example :
    (out : List ℕ) × (gemm_f64_add numbers
        (replicate 4 1)
        (1 ∷ 0 ∷ 2 ∷ 3 ∷ [])
        (5 ∷ 6 ∷ 7 ∷ 8 ∷ [])
        2
        2
        2
      ≡ ok out)
    × (length out ≡ 2 * 2)
    × ((i j : ℕ)
        → i < 2
        → j < 2
        → entry numbers out (i * 2 + j)
          ≡ terms numbers
              (entry numbers (replicate 4 1) (i * 2 + j))
              (tabulate (λ p. entry numbers (1 ∷ 0 ∷ 2 ∷ 3 ∷ []) (i * 2 + p)) 0 2)
              (tabulate (λ p. entry numbers (5 ∷ 6 ∷ 7 ∷ 8 ∷ []) (p * 2 + j)) 0 2))
gemm_f64_add_lem_example =
    gemm_f64_add_lem numbers (replicate 4 1) (1 ∷ 0 ∷ 2 ∷ 3 ∷ []) (5 ∷ 6 ∷ 7 ∷ 8 ∷ []) 2 2 2 refl
      refl refl

mask_product_acc_cols_example :
    (out : List ℕ) × (mask_product_acc numbers (portable numbers) MaskSplit.cols blocks masks 2 3 2
      ≡ ok out)
    × (accumulate_mask_range numbers
          (portable numbers)
          blocks
          masks
          2
          3
          0
          (length blocks)
          (replicate (2 * 3) 0)
        ≡ ok out)
mask_product_acc_cols_example =
    mask_product_acc_cols numbers (portable numbers) (portable-IsKernel numbers) blocks masks 2 3
      masks-AreShaped 2 (omega arith)

gemm_i16_f64_add_lem_example :
    (out : List ℕ) × (gemm_i16_f64_add numbers
        (portable numbers)
        (replicate 4 1)
        (pos 1 ∷ pos 0 ∷ pos 2 ∷ pos 3 ∷ [])
        (5 ∷ 6 ∷ 7 ∷ 8 ∷ [])
        2
        2
        2
      ≡ ok out)
    × (gemm_f64_add numbers
          (replicate 4 1)
          (widen_i16_to_f64 numbers (pos 1 ∷ pos 0 ∷ pos 2 ∷ pos 3 ∷ []))
          (5 ∷ 6 ∷ 7 ∷ 8 ∷ [])
          2
          2
          2
        ≡ ok out)
gemm_i16_f64_add_lem_example =
    gemm_i16_f64_add_lem numbers (portable numbers) (portable-IsKernel numbers)
      (pos 1 ∷ pos 0 ∷ pos 2 ∷ pos 3 ∷ []) (5 ∷ 6 ∷ 7 ∷ 8 ∷ []) 2 2 2 refl refl (replicate 4 1) refl
      (λ e. absurd (omega (arith, e)))
