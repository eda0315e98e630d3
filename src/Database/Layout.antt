-- ===== src/Database/Layout.antt =====
-- src/database/layout.rs and src/database/address.rs: `DatabaseLayout` and `Address`.
-- A `usize` is a natural number: the products of dimensions are exact. `e` is `P::EXPONENT`.
pub mod Pow2
pub mod Addressing
pub mod Blocks
use poulpy_pir.Prelude.{
  ℕ, ◌+◌, ◌-◌, ◌*◌, ◌/◌, ◌%◌, ◌≤◌, ◌<◌, min, ◌≡◌, refl, Bool, true, false, not, ltb, leb, ◌==◌,
  arith, if◌then◌else◌, div_ceil,
}
use poulpy_pir.Error.{
  Result, ok, err, panic, PirError, invalid_layout, payload_out_of_bounds, ◌>>=◌, ◌>>◌, assert,
  ensure, unwrap,
}
use Pow2.{next_power_of_two}

pub record Address : Type 0 where
  pub matrix : ℕ
  pub column : ℕ
  pub row_offset : ℕ

unfoldable pub block_col : Address → ℕ → ℕ
block_col a n = a.column / n

unfoldable pub col_in_block : Address → ℕ → ℕ
col_in_block a n = a.column % n

pub record DatabaseLayout : Type 0 where
  pub rows : ℕ
  pub cols : ℕ

unfoldable pub try_new : ℕ → ℕ → Result DatabaseLayout
try_new rows cols =
    if rows == 0
    then err (invalid_layout "dimensions must be non-zero")
    else if cols == 0
    then err (invalid_layout "dimensions must be non-zero")
    else ok (record { rows = rows; cols = cols })

unfoldable pub new : ℕ → ℕ → Result DatabaseLayout
unfolding try_new
new rows cols = unwrap (try_new rows cols)

unfoldable pub block_rows : DatabaseLayout → ℕ → Result ℕ
block_rows l n = do assert (l.rows % n == 0); ok (l.rows / n)

unfoldable pub block_cols : DatabaseLayout → ℕ → ℕ
unfolding div_ceil
block_cols l n = div_ceil l.cols n

unfoldable pub grid_rows_for : DatabaseLayout → ℕ → Result ℕ
grid_rows_for l column_height = do
  assert (ltb 0 column_height)
  assert (l.rows % column_height == 0)
  ok (l.rows / column_height)

unfoldable pub column_blocks : DatabaseLayout → ℕ → ℕ
column_blocks l n = div_ceil l.cols n

unfoldable pub column_block_width : DatabaseLayout → ℕ → ℕ → Result ℕ
unfolding column_blocks
column_block_width l n block = do
  assert (ltb block (column_blocks l n))
  let start = block * n
  ok (min (l.cols - start) n)

unfoldable pub payloads_per_column : ℕ → ℕ → Result ℕ
payloads_per_column e column_height = do assert (leb e column_height); ok (column_height / e)

unfoldable pub num_records : DatabaseLayout → ℕ → Result ℕ
unfolding grid_rows_for
num_records l column_height = do grid ← grid_rows_for l column_height; ok (grid * l.cols)

unfoldable pub num_payloads : DatabaseLayout → ℕ → ℕ → Result ℕ
unfolding num_records payloads_per_column
num_payloads l e column_height = do
  records ← num_records l column_height
  per_column ← payloads_per_column e column_height
  ok (records * per_column)

unfoldable pub interpolation_t : DatabaseLayout → ℕ → Result ℕ
unfolding block_rows
interpolation_t l n = do
  b ← block_rows l n
  let t = next_power_of_two b
  assert (leb t (2 * n))
  ok t

unfoldable pub payloads_per_block_row : DatabaseLayout → ℕ → ℕ → Result ℕ
unfolding payloads_per_column
payloads_per_block_row l e column_height = do
  per_column ← payloads_per_column e column_height
  ok (per_column * l.cols)

unfoldable pub total_i16_slots : DatabaseLayout → ℕ
total_i16_slots l = l.rows * l.cols

-- `block_len` is `size_of::<P::Block>()`.
unfoldable pub total_payload_bytes : DatabaseLayout → ℕ → ℕ → ℕ → Result ℕ
unfolding num_payloads
total_payload_bytes l e block_len column_height = do
  payloads ← num_payloads l e column_height
  ok (payloads * block_len)

unfoldable pub byte_matrix_shape : DatabaseLayout → ℕ × ℕ
byte_matrix_shape l = (l.rows, l.cols)

-- The coordinates of payload `i` where a column holds `ppc` payloads.
unfoldable pub locate : ℕ → ℕ → ℕ → ℕ → Address
locate cols ppc e i =
    let per_row = ppc * cols in
    let e_local = i % per_row in
    record { matrix = i / per_row; column = e_local % cols; row_offset = e_local / cols * e }

unfoldable pub try_address_for : DatabaseLayout → ℕ → ℕ → ℕ → Result Address
unfolding num_payloads payloads_per_column locate
try_address_for l e i column_height = do
  capacity ← num_payloads l e column_height
  ensure (ltb i capacity) (payload_out_of_bounds i capacity)
  ppc ← payloads_per_column e column_height
  ok (locate l.cols ppc e i)

unfoldable pub address_for : DatabaseLayout → ℕ → ℕ → ℕ → Result Address
unfolding try_address_for
address_for l e i column_height = unwrap (try_address_for l e i column_height)
