-- ===== src/Database/Matrix.antt =====
-- src/database/coeff_matrix.rs: a dense row-major matrix of `i16` coefficients.
pub mod Patch
use poulpy_pir.Prelude.{ℕ, ◌+◌, ◌*◌, List, ℤ, pos, leb, ltb, length, set, replicate}
use poulpy_pir.Error.{Result, ok, ◌>>=◌, ◌>>◌, assert}
use poulpy_pir.Loop.{at}

pub record CoeffMatrix : Type 0 where
  pub flat : List ℤ
  pub rows_out : ℕ
  pub rows_in : ℕ

unfoldable pub zeros : ℕ → ℕ → CoeffMatrix
zeros rows_out rows_in = record {
  flat = replicate (rows_out * rows_in) (pos 0);
  rows_out = rows_out;
  rows_in = rows_in;
}

-- `row(out)[c]`: the row is a slice of the data, and the column an entry of the slice.
unfoldable pub cell : CoeffMatrix → ℕ → ℕ → Result ℤ
cell x out c = do
  assert (leb ((out + 1) * x.rows_in) (length x.flat))
  assert (ltb c x.rows_in)
  at x.flat (out * x.rows_in + c)

-- `row_mut(out)[c] = v`.
unfoldable pub set_cell : CoeffMatrix → ℕ → ℕ → ℤ → Result CoeffMatrix
set_cell x out c v = do
  let start = out * x.rows_in
  assert (leb (start + x.rows_in) (length x.flat))
  assert (ltb c x.rows_in)
  ok (record x { flat = set x.flat (start + c) v })

unfoldable pub zero : CoeffMatrix → CoeffMatrix
zero x = record x { flat = replicate (length x.flat) (pos 0) }
