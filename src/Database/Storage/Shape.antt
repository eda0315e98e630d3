-- ===== src/Database/Storage/Shape.antt =====
-- The shape of a database: whole groups of rows of square matrices.
use poulpy_pir.Prelude.{
  ℕ, ◌*◌, ◌/◌, ◌%◌, ◌≤◌, ◌<◌, ◌≡◌, refl, length, replicate, length-replicate, All, div_ceil, le→leb,
  lt→ltb, eq→==, zero, suc,
}
use poulpy_pir.Error.{ok}
use poulpy_pir.Database.Layout
use poulpy_pir.Database.Layout.{DatabaseLayout, num_payloads, grid_rows_for}
use poulpy_pir.Database.Matrix.{zeros}
use poulpy_pir.Database.Matrix.Patch.{IsSquare}
use poulpy_pir.Database.Storage.{
  Database, column_height, column_blocks, rows_per_physical_group, from_layout, preprocessing_new,
}

-- `e` digits to a payload.
pub record IsShaped (e : ℕ) (db : Database) : Type 0 where
  pub n_pos : 0 < db.n
  pub cols_pos : 0 < db.cols
  pub height_pos : 0 < column_height db
  pub whole : db.n % column_height db ≡ 0
  pub fits : e ≤ column_height db
  pub groups : db.physical_rows ≡ div_ceil db.grid_rows (rows_per_physical_group db)
  pub count : length db.matrices ≡ db.physical_rows * column_blocks db
  pub squares : All (IsSquare db.n) db.matrices

pub All-replicate {ℓ κ} :
    {A : Type ℓ} (P : A → Type κ) (k : ℕ) (x : A) → P x → All P (replicate k x)
All-replicate P zero x h = tt
All-replicate P (suc k) x h = (h, All-replicate P k x h)

zeros-IsSquare : (n : ℕ) → IsSquare n (zeros n n)
unfolding zeros
zeros-IsSquare n = record {
  rows_in_eq = refl;
  rows_out_eq = refl;
  length_eq = length-replicate (n * n) _;
}

-- `from_layout` builds a database of the layout's grid where the column height divides the rows and
-- the degree and holds a payload.
pub from_layout-IsShaped :
    (e n : ℕ) (l : DatabaseLayout) (base2k h : ℕ)
    → 0 < n
    → 0 < l.cols
    → 0 < h
    → e ≤ h
    → l.rows % h ≡ 0
    → n % h ≡ 0
    → (db : Database) × (from_layout e n l base2k h ≡ ok db)
      × IsShaped e db
      × (db.n ≡ n)
      × (db.cols ≡ l.cols)
      × (db.grid_rows ≡ l.rows / h)
      × (column_height db ≡ h)
unfolding from_layout preprocessing_new grid_rows_for Layout.column_blocks
from_layout-IsShaped e n l base2k h n_pos cols_pos h_pos fits rows_whole n_whole = (
  record {
    matrices = replicate (div_ceil (l.rows / h) (n / h) * div_ceil l.cols n) (zeros n n);
    n = n;
    base2k = base2k;
    cols = l.cols;
    grid_rows = l.rows / h;
    physical_rows = div_ceil (l.rows / h) (n / h);
    preprocessing = record { column_height = h };
  },
  rw (lt→ltb 0 h h_pos, le→leb e h fits, eq→== (l.rows % h) 0 rows_whole, eq→== (n % h) 0 n_whole),
  record {
    n_pos = n_pos;
    cols_pos = cols_pos;
    height_pos = h_pos;
    whole = n_whole;
    fits = fits;
    groups = refl;
    count = length-replicate _ (zeros n n);
    squares = All-replicate (IsSquare n) _ (zeros n n) (zeros-IsSquare n);
  },
  refl,
  refl,
  refl,
  refl,
)
