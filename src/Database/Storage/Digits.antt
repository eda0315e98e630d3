-- ===== src/Database/Storage/Digits.antt =====
-- Raw digits: `try_write_digits` and `read_digits`.
use poulpy_pir.Prelude.{
  ℕ, suc, ◌+◌, ◌*◌, ◌/◌, ◌%◌, ◌≤◌, ◌<◌, ◌≡◌, refl, sym, ap, ◌∙◌, List, [], ◌∷◌, ℤ, some, map,
  length, get_elem?, get_elem?-lt, get_elem?-some, set, get_elem?-set_self, All-get, arith, le→leb,
  lt→ltb, lt-div_ceil, parts-lt, mod_bound,
}
use native.Mathlib.Nat.{div-add-mod}
use poulpy_pir.Error.{ok}
use poulpy_pir.Database.Matrix.{CoeffMatrix}
use poulpy_pir.Database.Matrix.Patch.{IsSquare, Wrote}
use poulpy_pir.Database.Storage.{
  Database, column_height, column_blocks, rows_per_physical_group, usize_max,
}
use poulpy_pir.Database.Storage.Scatter.{write_column}
use poulpy_pir.Database.Storage.Access.{
  matrix_index_and_column, read_column, try_write_digits, read_digits, as_i16,
}
use poulpy_pir.Database.Storage.Shape.{IsShaped}
use poulpy_pir.Database.Storage.Run.{column, column_at, write_column-Wrote}
use poulpy_pir.Database.Storage.Read.{read_column_list, cell_of_entry}

pub length-map : (f : ℤ → ℤ) (ds : List ℤ) → length (map f ds) ≡ length ds
length-map f [] = refl
length-map f (d ∷ ds) = ap suc (length-map f ds)

-- A record of the database: a grid row and a column.
pub record IsRecord (db : Database) (column_ grid_row : ℕ) : Type 0 where
  pub column_lt : column_ < db.cols
  pub row_lt : grid_row < db.grid_rows

pub group_rows :
    (n h row rpg_row off k len : ℕ)
    → rpg_row < n / h
    → off + len ≤ h
    → k < len
    → rpg_row * h + off + k < n
group_rows n h row rpg_row off k len a b lt =
    let outer : rpg_row * h + h ≤ n = grind (arith, div-add-mod n h) in omega (arith, outer)

group_rows_le :
    (n h rpg_row off len : ℕ) → rpg_row < n / h → off + len ≤ h → rpg_row * h + off + len ≤ n
group_rows_le n h rpg_row off len a b =
    let outer : rpg_row * h + h ≤ n = grind (arith, div-add-mod n h) in omega (arith, outer)

module _ (e : ℕ) (db : Database) (s : IsShaped e db) where
  pub rpg_pos : 0 < rows_per_physical_group db
  rpg_pos = grind (arith, s.whole, s.n_pos, div-add-mod db.n (column_height db))

  module _ (column_ grid_row : ℕ) (r : IsRecord db column_ grid_row) where
    abbrev pub matrix_idx : ℕ
    matrix_idx = grid_row / rows_per_physical_group db * column_blocks db + column_ / db.n

    abbrev pub row_base : ℕ
    row_base = grid_row % rows_per_physical_group db * column_height db

    pub block-lt : column_ / db.n < column_blocks db
    block-lt = lt-div_ceil db.cols db.n column_ s.n_pos r.column_lt

    pub matrix_idx-lt : matrix_idx < length db.matrices
    matrix_idx-lt =
        rw (s.count, s.groups)
          (parts-lt _ _ (column_blocks db) _
            (lt-div_ceil db.grid_rows (rows_per_physical_group db) grid_row rpg_pos r.row_lt)
            block-lt)

    pub found : (x : CoeffMatrix) × (get_elem? db.matrices matrix_idx ≡ some x)
    found = get_elem?-lt db.matrices matrix_idx matrix_idx-lt

    pub square : IsSquare db.n found.0
    square = All-get (IsSquare db.n) db.matrices matrix_idx found.0 s.squares found.1

    abbrev pub col : ℕ
    col = column_ % db.n

    pub col-lt : col < db.n
    col-lt = mod_bound column_ db.n s.n_pos

    pub lane-lt : grid_row % rows_per_physical_group db < rows_per_physical_group db
    lane-lt = mod_bound grid_row (rows_per_physical_group db) rpg_pos

    pub coordinates : matrix_index_and_column db grid_row column_ ≡ ok (matrix_idx, row_base, col)
    unfolding matrix_index_and_column
    coordinates = rw (lt→ltb grid_row db.grid_rows r.row_lt, lt→ltb column_ db.cols r.column_lt)

    pub read_at :
        (d : Database) (off len : ℕ) (y : CoeffMatrix)
        → matrix_index_and_column d grid_row column_ ≡ ok (matrix_idx, row_base, col)
        → get_elem? d.matrices matrix_idx ≡ some y
        → off + len ≤ column_height d
        → read_digits d column_ grid_row off len ≡ read_column y (row_base + off) col len
    unfolding read_digits
    read_at d off len y where_ here fits =
        rw (le→leb (off + len) (column_height d) fits, where_, here)

    module _ (off : ℕ) (ds : List ℤ) (fits : off + length ds ≤ column_height db)
        (word : off + length ds ≤ usize_max) where
      abbrev pub stored : List ℤ
      stored = map as_i16 ds

      pub written :
          (y : CoeffMatrix) × (write_column found.0 (row_base + off) col stored ≡ ok y)
          × Wrote db.n (column (row_base + off) col stored) found.0 y
      written =
          write_column-Wrote db.n found.0 (row_base + off) col stored square
            (omega (
              arith,
              length-map as_i16 ds,
              group_rows_le db.n (column_height db) _ off (length ds) lane-lt fits,
            ))
            col-lt

      abbrev pub updated : Database
      updated = record db { matrices = set db.matrices matrix_idx written.0 }

      pub write_lem : try_write_digits db column_ grid_row off ds ≡ ok updated
      unfolding try_write_digits
      write_lem = rw (
        le→leb (off + length ds) usize_max word,
        le→leb (off + length ds) (column_height db) fits,
        coordinates,
        found.1,
        written.1,
      )

      updated_coordinates :
          matrix_index_and_column updated grid_row column_ ≡ ok (matrix_idx, row_base, col)
      unfolding matrix_index_and_column
      updated_coordinates =
          rw (lt→ltb grid_row db.grid_rows r.row_lt, lt→ltb column_ db.cols r.column_lt)

      pub read_back : read_digits updated column_ grid_row off (length ds) ≡ ok stored
      read_back =
          read_at updated off (length ds) written.0 updated_coordinates
            (get_elem?-set_self db.matrices matrix_idx written.0 matrix_idx-lt) fits
          ∙ ap (read_column written.0 (row_base + off) col) (sym (length-map as_i16 ds))
          ∙ read_column_list written.0 (row_base + off) col stored (λ k v have.
            let k_lt =
              group_rows db.n (column_height db) 0 _ off k (length ds) lane-lt fits
                (omega (arith, length-map as_i16 ds, get_elem?-some stored k v have)) in
            cell_of_entry db.n written.0 (row_base + off + k) col v written.2.square k_lt col-lt (
              written.2.cells (row_base + off + k) col k_lt col-lt
              ∙ rw (column_at (row_base + off) col stored k, have)))
