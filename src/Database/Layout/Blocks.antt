-- ===== src/Database/Layout/Blocks.antt =====
-- The `n`-wide blocks that cover the columns.
use poulpy_pir.Prelude.{
  ℕ, zero, suc, ◌+◌, ◌-◌, ◌*◌, ◌/◌, ◌≤◌, ◌<◌, min, ◌≡◌, arith, div_ceil, mod_bound, lt-div_ceil,
  le-div_ceil-mul, lt→ltb, le→ltb,
}
use native.Mathlib.Nat.{div-add-mod}
use mathlib.Core.Path.{subst}
use poulpy_pir.Error.{ok, panic}
use poulpy_pir.Database.Layout.{
  Address, DatabaseLayout, block_col, col_in_block, block_rows, column_blocks, column_block_width,
  interpolation_t,
}
use poulpy_pir.Database.Layout.Pow2.{IsNextPow2, next_power_of_two-IsNextPow2}

-- The column of an address lies in the block that `block_col` names, at the place that
-- `col_in_block` gives, which is inside that block's width.
pub block_of_column :
    (l : DatabaseLayout) (n : ℕ) (a : Address)
    → 0 < n
    → a.column < l.cols
    → (w : ℕ) × (column_block_width l n (block_col a n) ≡ ok w)
      × (col_in_block a n < w)
      × (block_col a n * n + col_in_block a n ≡ a.column)
unfolding block_col col_in_block column_block_width
block_of_column l n a pos lt = (
  min (l.cols - a.column / n * n) n,
  rw (lt→ltb _ _ (lt-div_ceil l.cols n a.column pos lt)),
  omega (arith, mod_bound a.column n pos, div-add-mod a.column n),
  omega (arith, div-add-mod a.column n),
)

-- The widths of the first `k` blocks.
pub total_width : DatabaseLayout → ℕ → ℕ → ℕ
total_width l n zero = 0
total_width l n (suc k) = total_width l n k + min (l.cols - k * n) n

total_width_lem : (l : DatabaseLayout) (n k : ℕ) → total_width l n k ≡ min l.cols (k * n)
unfolding total_width
total_width_lem l n zero = omega arith
total_width_lem l n (suc k) = omega (arith, total_width_lem l n k)

-- `column_block_width` answers for exactly the blocks below `column_blocks`, and their widths add
-- up to the number of columns.
pub column_blocks_cover :
    (l : DatabaseLayout) (n : ℕ)
    → 0 < n
    → ((k : ℕ) → k < column_blocks l n → column_block_width l n k ≡ ok (min (l.cols - k * n) n))
      × ((k : ℕ) → column_blocks l n ≤ k → column_block_width l n k ≡ panic)
      × (total_width l n (column_blocks l n) ≡ l.cols)
unfolding column_blocks column_block_width
column_blocks_cover l n pos = (
  λ k lt. rw (lt→ltb _ _ lt),
  λ k ge. rw (le→ltb _ _ ge),
  omega (arith, total_width_lem l n (div_ceil l.cols n), le-div_ceil-mul l.cols n pos),
)

-- Where `interpolation_t` returns, it is the least power of two that reaches the number of block
-- rows, at most `2 n`.
pub interpolation_t-IsNextPow2 :
    (l : DatabaseLayout) (n : ℕ) {t : ℕ}
    → interpolation_t l n ≡ ok t
    → (b : ℕ) × (block_rows l n ≡ ok b) × IsNextPow2 b t × (t ≤ 2 * n)
unfolding interpolation_t block_rows
interpolation_t-IsNextPow2 l n e = (
  l.rows / n,
  ground arith,
  subst (IsNextPow2 (l.rows / n)) (ground arith) (next_power_of_two-IsNextPow2 (l.rows / n)),
  ground arith,
)
