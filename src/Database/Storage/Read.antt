-- ===== src/Database/Storage/Read.antt =====
-- Reading a payload back: the digits at its place, decoded.
use poulpy_pir.Prelude.{
  ℕ, zero, suc, ◌+◌, ◌*◌, ◌/◌, ◌≤◌, ◌<◌, ◌≡◌, refl, sym, ap, ap₂, ◌∙◌, List, [], ◌∷◌, ℤ, some, map,
  length, get_elem?, All, IsI16, arith, le→leb, lt→ltb, u16_as_i16-i16_as_u16, lt-div_ceil,
  parts-lt,
}
use native.Mathlib.Nat.{div-add-mod}
use poulpy_pir.Error.{Result, ok, ◌>>=◌}
use poulpy_pir.Payload.{Payload}
use poulpy_pir.Database.Layout.{locate}
use poulpy_pir.Database.Matrix.{CoeffMatrix, cell}
use poulpy_pir.Database.Matrix.Patch.{IsSquare, entry, cell-entry}
use poulpy_pir.Database.Storage.{
  Database, column_height, column_blocks, rows_per_physical_group, payload_capacity,
  try_payload_address, payload_address,
}
use poulpy_pir.Database.Storage.Access.{
  matrix_index_and_column, read_column, read_digits, payload, as_i16,
}
use poulpy_pir.Database.Storage.Shape.{IsShaped}
use poulpy_pir.Database.Storage.Place.{
  Place, place_of, first_row, rpg_pos, grid_row-lt, slot-lt, column_col-lt, local_row-lt,
}

-- Reading back digits that stand in the cells.
pub read_column_list :
    (x : CoeffMatrix) (row c : ℕ) (ds : List ℤ)
    → ((k : ℕ) (v : ℤ) → get_elem? ds k ≡ some v → cell x (row + k) c ≡ ok v)
    → read_column x row c (length ds) ≡ ok ds
unfolding read_column
read_column_list x row c [] cells = refl
read_column_list x row c (d ∷ ds) cells =
    let head : cell x row c ≡ ok d = ap (λ (r : ℕ). cell x r c) (omega arith) ∙ cells 0 d refl in
    rw (
      head,
      read_column_list x (row + 1) c ds
          (λ k v found. ap (λ (r : ℕ). cell x r c) (omega arith) ∙ cells (suc k) v found),
    )

pub read_column_same :
    (x y : CoeffMatrix) (row c len : ℕ)
    → ((k : ℕ) → k < len → cell y (row + k) c ≡ cell x (row + k) c)
    → read_column y row c len ≡ read_column x row c len
unfolding read_column
read_column_same x y row c zero cells = refl
read_column_same x y row c (suc len) cells =
    let head : cell y row c ≡ cell x row c =
      ap (λ (r : ℕ). cell y r c) (omega arith)
      ∙ cells 0 (omega arith)
      ∙ ap (λ (r : ℕ). cell x r c) (omega arith) in
    rw (
      head,
      read_column_same x y (row + 1) c len (λ k lt.
          ap (λ (r : ℕ). cell y r c) (omega arith)
          ∙ cells (suc k) (omega arith)
          ∙ ap (λ (r : ℕ). cell x r c) (omega arith)),
    )

pub cell_of_entry :
    (n : ℕ) (x : CoeffMatrix) (r c : ℕ) (v : ℤ)
    → IsSquare n x
    → r < n
    → c < n
    → entry n x r c ≡ some v
    → cell x r c ≡ ok v
cell_of_entry n x r c v s h k found =
    let (w, found', e) = cell-entry n x r c s h k in
    let same : w ≡ v = cc (found, found') in e ∙ ap ok same

pub cell_same :
    (n : ℕ) (x y : CoeffMatrix) (r c : ℕ)
    → IsSquare n x
    → IsSquare n y
    → r < n
    → c < n
    → entry n y r c ≡ entry n x r c
    → cell y r c ≡ cell x r c
cell_same n x y r c sx sy h k same =
    let (v, found, e) = cell-entry n x r c sx h k in
    cell_of_entry n y r c v sy h k (same ∙ found) ∙ sym e

-- `as i16` does nothing to an `i16`.
pub map-as_i16 : (ds : List ℤ) → All IsI16 ds → map as_i16 ds ≡ ds
map-as_i16 [] h = refl
map-as_i16 (d ∷ ds) h = ap₂ ◌∷◌ (u16_as_i16-i16_as_u16 d h.0) (map-as_i16 ds h.1)

rows_fit : (n h e lr slot k : ℕ) → lr < n / h → slot < h / e → k < e → lr * h + slot * e + k < n
rows_fit n h e lr slot k a b lt =
    let inner : slot * e + e ≤ h = grind (arith, div-add-mod h e) in
    let outer : lr * h + h ≤ n = grind (arith, div-add-mod n h) in omega (arith, inner, outer, lt)

pub slot_fits : (h e slot : ℕ) → slot < h / e → slot * e + e ≤ h
slot_fits h e slot lt = grind (arith, div-add-mod h e)

module _ (p : Payload) (db : Database) (s : IsShaped p.exponent db) (e_pos : 0 < p.exponent) (i : ℕ)
    (lt : i < payload_capacity p db) where
  abbrev a : Place
  a = place_of p db i

  pub row-lt : (k : ℕ) → k < p.exponent → first_row p db a + k < db.n
  row-lt k k_lt =
      rows_fit db.n (column_height db) p.exponent a.local_row a.slot k
        (local_row-lt p db s e_pos i lt) (slot-lt p db s e_pos i lt) k_lt

  pub matrix-lt : a.matrix < length db.matrices
  unfolding place_of
  matrix-lt =
      rw (s.count, s.groups)
        (parts-lt _ _ (column_blocks db) _
          (lt-div_ceil db.grid_rows (rows_per_physical_group db) _ (rpg_pos p db s e_pos i lt)
            (grid_row-lt p db s e_pos i lt))
          (lt-div_ceil db.cols db.n _ s.n_pos (column_col-lt p db s e_pos i lt)))

  -- What `payload` computes where the index is below the capacity.
  abbrev pub decoded : Result (List ℤ) → Result (List ℕ)
  decoded digits = digits >>= λ ds. ok (p.decode (map as_i16 ds))

  pub payload-at :
      (x : CoeffMatrix)
      → get_elem? db.matrices a.matrix ≡ some x
      → payload p db i ≡ decoded (read_column x (first_row p db a) a.column p.exponent)
  unfolding payload payload_address try_payload_address locate read_digits matrix_index_and_column
      place_of
  payload-at x found =
      let fits = slot_fits (column_height db) p.exponent _ (slot-lt p db s e_pos i lt) in
      rw (lt→ltb i (payload_capacity p db) lt) (
        rw (le→leb _ (column_height db) fits) (
          rw (lt→ltb _ db.grid_rows (grid_row-lt p db s e_pos i lt))
            (rw (lt→ltb _ db.cols (column_col-lt p db s e_pos i lt)) (rw found))))
