-- ===== src/Database/Storage/Records.antt =====
-- Records of a database are independent: what is written to one is read back from it, and no other
-- record sees it.
use poulpy_pir.Prelude.{
  ℕ, ◌+◌, ◌*◌, ◌/◌, ◌%◌, ◌≤◌, ◌<◌, ◌≡◌, ◌≢◌, ◌⊎◌, inl, inr, sym, ap, ◌∙◌, List, ℤ, none, some, map,
  length, get_elem?, set, get_elem?-set_self, get_elem?-set_ne, arith, lt→ltb, mod_of_parts,
  div_of_parts, Bool-cases, ◌==◌,
}
use native.Mathlib.Decide.{dec_lt}
use native.Mathlib.Nat.{div-add-mod}
use poulpy_pir.Error.{ok, err, digit_run_out_of_bounds}
use poulpy_pir.Database.Matrix.{CoeffMatrix}
use poulpy_pir.Database.Storage.{
  Database, column_height, column_blocks, rows_per_physical_group, usize_max,
}
use poulpy_pir.Database.Storage.Access.{
  matrix_index_and_column, read_column, try_write_digits, read_digits, as_i16,
}
use poulpy_pir.Database.Storage.Shape.{IsShaped}
use poulpy_pir.Database.Storage.Run.{column, column_off, column_apart}
use poulpy_pir.Database.Storage.Read.{read_column_same, cell_same}
use poulpy_pir.Database.Storage.Digits.{
  IsRecord, matrix_idx, found, square, block-lt, col-lt, lane-lt, coordinates, read_at, written,
  updated, write_lem, read_back, matrix_idx-lt, group_rows, length-map,
}

-- Different records of one matrix are in different columns, or in rows of different groups.
apart_lanes :
    (h g g' off len off' k : ℕ)
    → g ≢ g'
    → off + len ≤ h
    → off' + k < h
    → (g' * h + off' + k < g * h + off) ⊎ (g * h + off + len ≤ g' * h + off' + k)
apart_lanes h g g' off len off' k ne fits lt = elim (dec_lt g g') [
  | yes before ↦ inr (let q : g * h + h ≤ g' * h = grind arith in omega (arith, q))
  | no after ↦ inl (let q : g' * h + h ≤ g * h = grind (arith, ne) in omega (arith, q))
]

module _ (e : ℕ) (db : Database) (s : IsShaped e db) (column_ grid_row : ℕ)
    (r : IsRecord db column_ grid_row) (off : ℕ) (ds : List ℤ)
    (fits : off + length ds ≤ column_height db) (word : off + length ds ≤ usize_max)
    (column' grid_row' : ℕ) (r' : IsRecord db column' grid_row') (off' len' : ℕ)
    (fits' : off' + len' ≤ column_height db) where
  abbrev idx : ℕ
  idx = matrix_idx e db s column_ grid_row r

  abbrev idx' : ℕ
  idx' = matrix_idx e db s column' grid_row' r'

  abbrev lane : ℕ
  lane = grid_row % rows_per_physical_group db

  abbrev lane' : ℕ
  lane' = grid_row' % rows_per_physical_group db

  abbrev before : CoeffMatrix
  before = (found e db s column' grid_row' r').0

  abbrev after : CoeffMatrix
  after = (written e db s column_ grid_row r off ds fits word).0

  abbrev row : ℕ
  row = lane * column_height db + off

  abbrev row' : ℕ
  row' = lane' * column_height db + off'

  abbrev new_db : Database
  new_db = updated e db s column_ grid_row r off ds fits word

  old_read :
      read_digits db column' grid_row' off' len' ≡ read_column before row' (column' % db.n) len'
  old_read =
      read_at e db s column' grid_row' r' db off' len' before
        (coordinates e db s column' grid_row' r') (found e db s column' grid_row' r').1 fits'

  new_coordinates :
      matrix_index_and_column new_db grid_row' column'
      ≡ ok (idx', lane' * column_height db, column' % db.n)
  unfolding matrix_index_and_column
  new_coordinates =
      rw (lt→ltb grid_row' db.grid_rows r'.row_lt, lt→ltb column' db.cols r'.column_lt)

  new_read :
      (y : CoeffMatrix)
      → get_elem? (set db.matrices idx after) idx' ≡ some y
      → read_digits new_db column' grid_row' off' len' ≡ read_column y row' (column' % db.n) len'
  new_read y here =
      read_at e db s column' grid_row' r' new_db off' len' y new_coordinates here fits'

  same_column : idx ≡ idx' → column_ % db.n ≡ column' % db.n → column_ ≡ column'
  same_column same c =
      let b : column_ / db.n ≡ column' / db.n =
        sym
          (mod_of_parts _ (column_ / db.n) (column_blocks db) (block-lt e db s column_ grid_row r))
        ∙ ap (λ (t : ℕ). t % column_blocks db) same
        ∙ mod_of_parts _ (column' / db.n) (column_blocks db)
            (block-lt e db s column' grid_row' r') in
      omega
        (arith, div-add-mod column_ db.n, div-add-mod column' db.n, ap (λ (t : ℕ). t * db.n) b, c)

  same_row : idx ≡ idx' → lane ≡ lane' → grid_row ≡ grid_row'
  same_row same g =
      let b : grid_row / rows_per_physical_group db ≡ grid_row' / rows_per_physical_group db =
        sym
          (div_of_parts _ (column_ / db.n) (column_blocks db) (block-lt e db s column_ grid_row r))
        ∙ ap (λ (t : ℕ). t / column_blocks db) same
        ∙ div_of_parts _ (column' / db.n) (column_blocks db)
            (block-lt e db s column' grid_row' r') in
      omega (
        arith,
        div-add-mod grid_row (rows_per_physical_group db),
        div-add-mod grid_row' (rows_per_physical_group db),
        ap (λ (t : ℕ). t * rows_per_physical_group db) b,
        g,
      )

  untouched :
      idx ≡ idx'
      → (column' ≢ column_) ⊎ (grid_row' ≢ grid_row)
      → (k : ℕ) → k < len'
      → column row (column_ % db.n) (map as_i16 ds) (row' + k) (column' % db.n) ≡ none
  untouched same differ k k_lt = elim (Bool-cases (column_ % db.n == column' % db.n)) [
    | inr other ↦
        column_off row (column_ % db.n) (map as_i16 ds) (row' + k) (column' % db.n)
          (λ c. absurd (ground (arith, other, c)))
    | inl equal ↦
        let c : column_ % db.n ≡ column' % db.n = ground (arith, equal) in
        let rows_differ : grid_row ≢ grid_row' = elim differ [
          | inl ne ↦ absurd (ne (sym (same_column same c)))
          | inr ne ↦ λ g. ne (sym g)
        ] in
        rw (← c) (
          column_apart row (column_ % db.n) (map as_i16 ds) (row' + k) (
            rw (length-map as_i16 ds) (
              apart_lanes (column_height db) lane lane' off (length ds) off' k
                (λ g. rows_differ (same_row same g)) fits (omega arith))))
  ]

  kept :
      (column' ≢ column_) ⊎ (grid_row' ≢ grid_row)
      → read_digits new_db column' grid_row' off' len' ≡ read_digits db column' grid_row' off' len'
  kept differ = elim (Bool-cases (idx == idx')) [
    | inr other ↦
        new_read before (
          get_elem?-set_ne db.matrices idx idx' after (λ same. absurd (ground (arith, other, same)))
          ∙ (found e db s column' grid_row' r').1)
        ∙ sym old_read
    | inl equal ↦
        let same : idx ≡ idx' = ground (arith, equal) in
        let this : (found e db s column_ grid_row r).0 ≡ before =
          cc ((found e db s column_ grid_row r).1, (found e db s column' grid_row' r').1, same) in
        let w = (written e db s column_ grid_row r off ds fits word).2 in
        new_read after (
          rw (← same)
            (get_elem?-set_self db.matrices idx after (matrix_idx-lt e db s column_ grid_row r)))
        ∙ read_column_same before after row' (column' % db.n) len' (λ k k_lt.
          let lt =
            group_rows db.n (column_height db) 0 lane' off' k len'
              (lane-lt e db s column' grid_row' r') fits' k_lt in
          let c_lt = col-lt e db s column' grid_row' r' in
          cell_same db.n before after (row' + k) (column' % db.n)
            (square e db s column' grid_row' r') w.square lt c_lt
            (rw (← this)
              (w.cells (row' + k) (column' % db.n) lt c_lt ∙ rw (untouched same differ k k_lt))))
        ∙ sym old_read
  ]

-- A run of digits inside a record is stored, as `i16`, and read back as stored; a record in another
-- column or grid row reads as before.
pub try_write_digits_lem :
    (e : ℕ) (db : Database) (s : IsShaped e db) (column_ grid_row : ℕ)
    (r : IsRecord db column_ grid_row) (off : ℕ) (ds : List ℤ)
    → off + length ds ≤ column_height db
    → off + length ds ≤ usize_max
    → (db' : Database) × (try_write_digits db column_ grid_row off ds ≡ ok db')
      × (read_digits db' column_ grid_row off (length ds) ≡ ok (map as_i16 ds))
      × ((column' grid_row' off' len' : ℕ)
          → IsRecord db column' grid_row'
          → off' + len' ≤ column_height db
          → (column' ≢ column_) ⊎ (grid_row' ≢ grid_row)
          → read_digits db' column' grid_row' off' len'
            ≡ read_digits db column' grid_row' off' len')
try_write_digits_lem e db s column_ grid_row r off ds fits word = (
  updated e db s column_ grid_row r off ds fits word,
  write_lem e db s column_ grid_row r off ds fits word,
  read_back e db s column_ grid_row r off ds fits word,
  λ column' grid_row' off' len' r' fits' differ.
      kept e db s column_ grid_row r off ds fits word column' grid_row' r' off' len' fits' differ,
)

-- A run that does not end inside the record, or whose end is no `usize`, is refused.
pub try_write_digits_refused :
    (db : Database) (column_ grid_row off : ℕ) (ds : List ℤ)
    → (usize_max < off + length ds) ⊎ (column_height db < off + length ds)
    → try_write_digits db column_ grid_row off ds
      ≡ err (digit_run_out_of_bounds off (length ds) (column_height db))
unfolding try_write_digits
try_write_digits_refused db column_ grid_row off ds beyond = ground (arith, beyond)
