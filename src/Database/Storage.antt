-- ===== src/Database/Storage.antt =====
-- src/database/storage.rs and src/database/preprocessing.rs: `Database`, a grid of square matrices.
pub mod Scatter
pub mod Access
pub mod Shape
pub mod Run
pub mod Window
pub mod Shard
pub mod Payloads
pub mod Digits
pub mod Records
pub mod Place
pub mod Read
use poulpy_pir.Prelude.{
  ℕ, zero, suc, ◌+◌, ◌-◌, ◌*◌, ◌/◌, ◌%◌, ◌^◌, min, List, [], ◌∷◌, ◌++◌, ℤ, pos, map, leb, ltb, ◌==◌,
  length, get_elem?, set, take, drop, replicate, div_ceil, u16_as_i16, i16_as_u16, if◌then◌else◌,
}
use poulpy_pir.Error.{
  Result, ok, ◌>>=◌, ◌>>◌, assert, ensure, unwrap, payload_out_of_bounds, shard_length_overflow,
  shard_out_of_bounds, digit_run_out_of_bounds,
}
use poulpy_pir.Loop.{for_range, for_until, at}
use poulpy_pir.Payload.{Payload}
use poulpy_pir.Parallel.{Host, num_threads}
use poulpy_pir.Database.Layout
use poulpy_pir.Database.Layout.{Address, DatabaseLayout, grid_rows_for}
use poulpy_pir.Database.Matrix.{CoeffMatrix, zeros, cell, set_cell}

abbrev pub usize_max : ℕ
usize_max = 2 ^ 64 - 1

pub record DatabasePreprocessingConfig : Type 0 where
  pub column_height : ℕ

pub record Database : Type 0 where
  pub matrices : List CoeffMatrix
  pub n : ℕ
  pub base2k : ℕ
  pub cols : ℕ
  pub grid_rows : ℕ
  pub physical_rows : ℕ
  pub preprocessing : DatabasePreprocessingConfig

-- `e` is `P::EXPONENT`.
unfoldable pub preprocessing_new : ℕ → ℕ → Result DatabasePreprocessingConfig
preprocessing_new e column_height = do
  assert (ltb 0 column_height)
  assert (leb e column_height)
  ok (record { column_height = column_height })

abbrev pub column_height : Database → ℕ
column_height db = db.preprocessing.column_height

abbrev pub column_blocks : Database → ℕ
column_blocks db = div_ceil db.cols db.n

unfoldable pub column_block_width : Database → ℕ → Result ℕ
column_block_width db block = do
  assert (ltb block (column_blocks db))
  ok (min (db.cols - block * db.n) db.n)

abbrev pub rows_per_physical_group : Database → ℕ
rows_per_physical_group db = db.n / column_height db

unfoldable pub num_records : Database → ℕ
num_records db = db.grid_rows * db.cols

unfoldable pub block : Database → ℕ → ℕ → Result CoeffMatrix
block db grid_row column_block = do
  assert (ltb grid_row db.grid_rows)
  assert (ltb column_block (column_blocks db))
  at db.matrices (grid_row / rows_per_physical_group db * column_blocks db + column_block)

unfoldable pub physical_block : Database → ℕ → ℕ → Result CoeffMatrix
physical_block db row_group column_block = do
  assert (ltb row_group db.physical_rows)
  assert (ltb column_block (column_blocks db))
  at db.matrices (row_group * column_blocks db + column_block)

-- `Database::from_layout`, with the module's degree `n`.
unfoldable pub from_layout : ℕ → ℕ → DatabaseLayout → (base2k column_height : ℕ) → Result Database
unfolding preprocessing_new grid_rows_for Layout.column_blocks
from_layout e n layout base2k column_height = do
  preprocessing ← preprocessing_new e column_height
  grid_rows ← grid_rows_for layout column_height
  assert (n % column_height == 0)
  let physical_rows = div_ceil grid_rows (n / column_height)
  ok (record {
    matrices = replicate (physical_rows * Layout.column_blocks layout n) (zeros n n);
    n = n;
    base2k = base2k;
    cols = layout.cols;
    grid_rows = grid_rows;
    physical_rows = physical_rows;
    preprocessing = preprocessing;
  })

-- `Database::new`.
unfoldable pub new : ℕ → (n db_entries base2k cols : ℕ) → Result Database
unfolding preprocessing_new
new e n db_entries base2k cols = do
  assert (cols % n == 0)
  let per_matrix = n * cols
  assert (db_entries % per_matrix == 0)
  preprocessing ← preprocessing_new e n
  ok (record {
    matrices = replicate (db_entries / per_matrix * (cols / n)) (zeros n n);
    n = n;
    base2k = base2k;
    cols = cols;
    grid_rows = db_entries / per_matrix;
    physical_rows = db_entries / per_matrix;
    preprocessing = preprocessing;
  })

-- `Database::placeholder`: the shape without matrices.
unfoldable pub placeholder : ℕ → ℕ → DatabaseLayout → (base2k column_height : ℕ) → Result Database
unfolding preprocessing_new grid_rows_for
placeholder e n layout base2k column_height = do
  grid_rows ← grid_rows_for layout column_height
  preprocessing ← preprocessing_new e column_height
  ok (record {
    matrices = [];
    n = n;
    base2k = base2k;
    cols = layout.cols;
    grid_rows = grid_rows;
    physical_rows = 0;
    preprocessing = preprocessing;
  })

module _ (p : Payload) where
  open p use {exponent, encode, decode}

  abbrev pub payloads_per_column : Database → ℕ
  payloads_per_column db = column_height db / exponent

  abbrev pub payloads_per_grid_row : Database → ℕ
  payloads_per_grid_row db = payloads_per_column db * db.cols

  abbrev pub payload_capacity : Database → ℕ
  payload_capacity db = db.grid_rows * payloads_per_grid_row db

  unfoldable pub try_payload_address : Database → ℕ → Result Address
  unfolding Layout.locate
  try_payload_address db i = do
    ensure (ltb i (payload_capacity db)) (payload_out_of_bounds i (payload_capacity db))
    ok (Layout.locate db.cols (payloads_per_column db) exponent i)

  unfoldable pub payload_address : Database → ℕ → Result Address
  unfolding try_payload_address
  payload_address db i = unwrap (try_payload_address db i)
