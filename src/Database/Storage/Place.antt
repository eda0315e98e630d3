-- ===== src/Database/Storage/Place.antt =====
-- The cells of a payload: one matrix, one column, consecutive rows; and what a shard writes there.
use poulpy_pir.Prelude.{
  ℕ, ◌+◌, ◌*◌, ◌/◌, ◌%◌, ◌≤◌, ◌<◌, ◌≡◌, ◌≢◌, ◌⊎◌, inl, inr, ◌∙◌, List, none, false, ◌&&◌, leb, ltb,
  length, get_elem?, All, arith, if◌then◌else◌, lt-div_ceil, div_of_parts, mod_of_parts,
  div-lt_of_lt_mul, mod_bound, lt→leb, Bool-cases,
}
use native.Mathlib.Decide.{dec_lt}
use native.Mathlib.Nat.{div-add-mod}
use poulpy_pir.Payload.{Payload, IsBlock, IsCodec}
use poulpy_pir.Database.Matrix.Patch.{patches-at, patches-none}
use poulpy_pir.Database.Storage.{
  Database, column_height, column_blocks, rows_per_physical_group, payloads_per_column,
  payloads_per_grid_row, payload_capacity,
}
use poulpy_pir.Database.Storage.Shape.{IsShaped}
use poulpy_pir.Database.Storage.Run.{columns_off, columns_here, digits_of}
use poulpy_pir.Database.Storage.Window.{run, rows, matrix_patch, row_of, base_of, width_of}

-- Where the digits of a payload are stored.
pub record Place : Type 0 where
  pub matrix : ℕ
  pub local_row : ℕ
  pub slot : ℕ
  pub column : ℕ

unfoldable pub place_of : Payload → Database → ℕ → Place
place_of p db i =
    let grid_row = i / payloads_per_grid_row p db in
    let e_local = i % payloads_per_grid_row p db in
    record {
      matrix = grid_row / rows_per_physical_group db * column_blocks db + e_local % db.cols / db.n;
      local_row = grid_row % rows_per_physical_group db;
      slot = e_local / db.cols;
      column = e_local % db.cols % db.n;
    }

-- The first row of the payload in its matrix.
abbrev pub first_row : Payload → Database → Place → ℕ
first_row p db a = a.local_row * column_height db + a.slot * p.exponent

apart_slots :
    (h e lr pic slot k : ℕ)
    → pic ≢ slot
    → k < e
    → (lr * h + slot * e + k < lr * h + pic * e) ⊎ (lr * h + pic * e + e ≤ lr * h + slot * e + k)
apart_slots h e lr pic slot k ne lt = elim (dec_lt pic slot) [
  | yes before ↦ inr (let q : pic * e + e ≤ slot * e = grind arith in omega (arith, q))
  | no after ↦ inl (let q : slot * e + e ≤ pic * e = grind (arith, ne) in omega (arith, q, lt))
]

apart_rows :
    (h e lr j pic slot k : ℕ)
    → j ≢ lr
    → k < e
    → slot < h / e
    → pic < h / e
    → (lr * h + slot * e + k < j * h + pic * e) ⊎ (j * h + pic * e + e ≤ lr * h + slot * e + k)
apart_rows h e lr j pic slot k ne lt s_lt p_lt =
    let in_slot : slot * e + e ≤ h = grind (arith, div-add-mod h e) in
    let in_pic : pic * e + e ≤ h = grind (arith, div-add-mod h e) in
    elim (dec_lt j lr) [
      | yes before ↦ inr (let q : j * h + h ≤ lr * h = grind arith in omega (arith, q, in_pic))
      | no after ↦
          inl (let q : lr * h + h ≤ j * h = grind (arith, ne) in omega (arith, q, in_slot, lt))
    ]

module _ (p : Payload) (db : Database) (s : IsShaped p.exponent db) (e_pos : 0 < p.exponent) (i : ℕ)
    (lt : i < payload_capacity p db) where
  abbrev pub a : Place
  a = place_of p db i

  abbrev grid_row : ℕ
  grid_row = i / payloads_per_grid_row p db

  abbrev e_local : ℕ
  e_local = i % payloads_per_grid_row p db

  pub ppc_pos : 0 < payloads_per_column p db
  ppc_pos = let f = s.fits in grind (arith, f, e_pos, div-add-mod (column_height db) p.exponent)

  pub ppr_pos : 0 < payloads_per_grid_row p db
  ppr_pos = let c = s.cols_pos in grind (arith, ppc_pos, c)

  pub rpg_pos : 0 < rows_per_physical_group db
  rpg_pos = grind (arith, s.whole, s.n_pos, div-add-mod db.n (column_height db))

  pub grid_row-lt : grid_row < db.grid_rows
  grid_row-lt = div-lt_of_lt_mul i db.grid_rows (payloads_per_grid_row p db) lt

  pub local_row-lt : a.local_row < rows_per_physical_group db
  unfolding place_of
  local_row-lt = mod_bound grid_row _ rpg_pos

  pub slot-lt : a.slot < payloads_per_column p db
  unfolding place_of
  slot-lt = div-lt_of_lt_mul e_local (payloads_per_column p db) db.cols (mod_bound i _ ppr_pos)

  pub column_col-lt : e_local % db.cols < db.cols
  column_col-lt = mod_bound e_local db.cols s.cols_pos

  pub column-lt : a.column < db.n
  unfolding place_of
  column-lt = mod_bound (e_local % db.cols) db.n s.n_pos

  pub block-lt : e_local % db.cols / db.n < column_blocks db
  block-lt = lt-div_ceil db.cols db.n (e_local % db.cols) s.n_pos column_col-lt

  pub group_eq : a.matrix / column_blocks db ≡ grid_row / rows_per_physical_group db
  unfolding place_of
  group_eq = div_of_parts _ (e_local % db.cols / db.n) (column_blocks db) block-lt

  pub block_eq : a.matrix % column_blocks db ≡ e_local % db.cols / db.n
  unfolding place_of
  block_eq =
      mod_of_parts (grid_row / rows_per_physical_group db) (e_local % db.cols / db.n)
        (column_blocks db) block-lt

  grid_row_eq : a.matrix / column_blocks db * rows_per_physical_group db + a.local_row ≡ grid_row
  unfolding place_of
  grid_row_eq = rw group_eq (omega (arith, div-add-mod grid_row (rows_per_physical_group db)))

  module _ (codec : IsCodec p) (start : ℕ) (payloads : List (List ℕ))
      (blocks : All (IsBlock p.block_len) payloads) (k : ℕ) (k_lt : k < p.exponent) where
    base_eq : base_of p codec db s start payloads blocks a.matrix a.local_row a.slot + a.column ≡ i
    unfolding place_of
    base_eq =
        rw (grid_row_eq, block_eq)
          (omega (
            arith,
            div-add-mod i (payloads_per_grid_row p db),
            div-add-mod e_local db.cols,
            div-add-mod (e_local % db.cols) db.n,
          ))

    in_width : a.column < width_of p codec db s start payloads blocks a.matrix
    unfolding place_of
    in_width =
        rw block_eq (omega (arith, column-lt, column_col-lt, div-add-mod (e_local % db.cols) db.n))

    in_grid :
        leb db.grid_rows (a.matrix / column_blocks db * rows_per_physical_group db + a.local_row)
        ≡ false
    in_grid = rw grid_row_eq (lt→leb db.grid_rows grid_row grid_row-lt)

    abbrev here : ℕ
    here = first_row p db a + k

    other_slot :
        (pic : ℕ)
        → 0 ≤ pic
        → pic < 0 + payloads_per_column p db
        → pic ≢ a.slot
        → run p codec db s start payloads blocks a.matrix a.local_row pic here a.column ≡ none
    other_slot pic le lt' ne =
        columns_off p codec start payloads blocks _ _
          (row_of p codec db s start payloads blocks a.local_row pic) here a.column
          (apart_slots (column_height db) p.exponent a.local_row pic a.slot k ne k_lt)

    other_row :
        (j : ℕ)
        → 0 ≤ j
        → j < 0 + rows_per_physical_group db
        → j ≢ a.local_row
        → rows p codec db s start payloads blocks a.matrix j here a.column ≡ none
    unfolding rows
    other_row j le lt' ne =
        elim (Bool-cases
          (leb db.grid_rows (a.matrix / column_blocks db * rows_per_physical_group db + j))) [
            | inl over ↦ rw over
            | inr within ↦ rw within (
                patches-none db.n (run p codec db s start payloads blocks a.matrix j) here a.column
                  (payloads_per_column p db) 0
                  (λ pic le'' lt''.
                    columns_off p codec start payloads blocks _ _
                      (row_of p codec db s start payloads blocks j pic) here a.column
                      (apart_rows (column_height db) p.exponent a.local_row j pic a.slot k ne k_lt
                        slot-lt (omega arith))))
          ]

    own_row : rows p codec db s start payloads blocks a.matrix a.local_row here a.column ≡ (
        if leb start i && ltb i (start + length payloads)
        then get_elem? (digits_of p start payloads i) k
        else none)
    unfolding rows
    own_row = rw in_grid (
        patches-at db.n (run p codec db s start payloads blocks a.matrix a.local_row) a.slot here
          a.column (payloads_per_column p db) 0 (omega arith) (omega (arith, slot-lt)) other_slot
        ∙ columns_here p codec start payloads blocks _ _ (first_row p db a) k a.column i base_eq
            in_width)

    -- A shard writes the digits of its own payloads, and no other payload's.
    pub patch-at : matrix_patch p codec db s start payloads blocks a.matrix here a.column ≡ (
        if leb start i && ltb i (start + length payloads)
        then get_elem? (digits_of p start payloads i) k
        else none)
    unfolding matrix_patch
    patch-at =
        patches-at db.n (rows p codec db s start payloads blocks a.matrix) a.local_row here a.column
          (rows_per_physical_group db) 0 (omega arith) (omega (arith, local_row-lt)) other_row
        ∙ own_row
