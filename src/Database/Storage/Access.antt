-- ===== src/Database/Storage/Access.antt =====
-- src/database/storage.rs: records and payloads, written and read through their digits.
use poulpy_pir.Prelude.{
  ℕ, zero, suc, ◌+◌, ◌*◌, ◌/◌, ◌%◌, List, [], ◌∷◌, ℤ, map, leb, ltb, ◌==◌, length, set, u16_as_i16,
  i16_as_u16,
}
use poulpy_pir.Error.{Result, ok, ◌>>=◌, ◌>>◌, assert, ensure, unwrap, digit_run_out_of_bounds}
use poulpy_pir.Loop.{for_range, at}
use poulpy_pir.Payload.{Payload}
use poulpy_pir.Database.Matrix.{CoeffMatrix, cell}
use poulpy_pir.Database.Storage.{
  Database, column_blocks, column_height, num_records, payload_address, rows_per_physical_group,
  usize_max,
}
use poulpy_pir.Database.Storage.Scatter.{write_column}

-- `v as i16` of an `i64`.
abbrev pub as_i16 : ℤ → ℤ
as_i16 v = u16_as_i16 (i16_as_u16 v)

unfoldable pub matrix_index_and_column : Database → (grid_row column : ℕ) → Result (ℕ × ℕ × ℕ)
matrix_index_and_column db grid_row column = do
  assert (ltb grid_row db.grid_rows)
  assert (ltb column db.cols)
  let row_group = grid_row / rows_per_physical_group db
  let row_offset = grid_row % rows_per_physical_group db * column_height db
  ok (row_group * column_blocks db + column / db.n, row_offset, column % db.n)

unfoldable pub try_write_digits :
    Database → (column grid_row row_offset : ℕ) → List ℤ → Result Database
unfolding matrix_index_and_column write_column
try_write_digits db column grid_row row_offset digits = do
  let refused = digit_run_out_of_bounds row_offset (length digits) (column_height db)
  ensure (leb (row_offset + length digits) usize_max) refused
  ensure (leb (row_offset + length digits) (column_height db)) refused
  (matrix_idx, row_out_base, col_in_block) ← matrix_index_and_column db grid_row column
  x ← at db.matrices matrix_idx
  y ← write_column x (row_out_base + row_offset) col_in_block (map as_i16 digits)
  ok (record db { matrices = set db.matrices matrix_idx y })

unfoldable pub write_digits : Database → (column grid_row row_offset : ℕ) → List ℤ → Result Database
unfolding try_write_digits
write_digits db column grid_row row_offset digits =
    unwrap (try_write_digits db column grid_row row_offset digits)

-- `(0..len).map(|j| block.row(row + j)[c]).collect()`.
unfoldable pub read_column : CoeffMatrix → (row c len : ℕ) → Result (List ℤ)
unfolding cell
read_column x row c zero = ok []
read_column x row c (suc len) = do v ← cell x row c; vs ← read_column x (row + 1) c len; ok (v ∷ vs)

unfoldable pub read_digits : Database → (column grid_row row_offset len : ℕ) → Result (List ℤ)
unfolding matrix_index_and_column read_column
read_digits db column grid_row row_offset len = do
  assert (leb (row_offset + len) (column_height db))
  (matrix_idx, row_out_base, col_in_block) ← matrix_index_and_column db grid_row column
  x ← at db.matrices matrix_idx
  read_column x (row_out_base + row_offset) col_in_block len

unfoldable pub encode_record : Database → (column grid_row : ℕ) → List ℤ → Result Database
unfolding write_digits
encode_record db column grid_row record_ = do
  assert (length record_ == column_height db)
  write_digits db column grid_row 0 record_

-- `Database::encode`: all records, in row-major order.
unfoldable pub encode : Database → List (List ℤ) → Result Database
unfolding encode_record for_range num_records
encode db records = do
  assert (length records == num_records db)
  for_range db.grid_rows 0
      (λ grid_row d.
        for_range db.cols 0
          (λ column d'. do
            r ← at records (grid_row * db.cols + column)
            encode_record d' column grid_row r)
          d)
      db

unfoldable pub read_record : Database → (column grid_row : ℕ) → Result (List ℤ)
unfolding read_digits
read_record db column grid_row = read_digits db column grid_row 0 (column_height db)

unfoldable pub payload : Payload → Database → ℕ → Result (List ℕ)
unfolding payload_address read_digits
payload p db i = do
  addr ← payload_address p db i
  digits ← read_digits db addr.column addr.matrix addr.row_offset p.exponent
  ok (p.decode (map as_i16 digits))
