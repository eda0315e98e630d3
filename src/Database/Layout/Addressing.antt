-- ===== src/Database/Layout/Addressing.antt =====
-- The payload indices below the capacity and the coordinates inside the grid correspond one to one.
use poulpy_pir.Prelude.{
  ℕ, ◌+◌, ◌*◌, ◌/◌, ◌%◌, ◌≤◌, ◌<◌, ◌≡◌, refl, arith, div_of_parts, mod_of_parts, mod_bound,
  div-lt_of_lt_mul, parts-lt, ap, ◌∙◌,
}
use poulpy_pir.Error.{ok, err, payload_out_of_bounds}
use poulpy_pir.Database.Layout.{
  Address, DatabaseLayout, grid_rows_for, num_records, num_payloads, payloads_per_column, locate,
  try_address_for,
}
use native.Mathlib.Nat.{div-add-mod}

-- `a` lies in a grid of `grid` rows and `cols` columns of `ppc` payloads, at a payload's boundary.
pub record IsInGrid (grid cols ppc e : ℕ) (a : Address) : Type 0 where
  pub slot : ℕ
  pub matrix_lt : a.matrix < grid
  pub column_lt : a.column < cols
  pub slot_lt : slot < ppc
  pub offset : a.row_offset ≡ slot * e

-- The index of the payload in slot `slot` of the column at `a`.
abbrev pub index_of : (cols ppc : ℕ) → Address → ℕ → ℕ
index_of cols ppc a slot = a.matrix * (ppc * cols) + (slot * cols + a.column)

module _ (grid cols ppc e i : ℕ) (cols_pos : 0 < cols) (ppc_pos : 0 < ppc)
    (in_range : i < grid * (ppc * cols)) where
  abbrev per_row : ℕ
  per_row = ppc * cols

  per_row_pos : 0 < ppc * cols
  per_row_pos = grind arith

  pub locate-IsInGrid : IsInGrid grid cols ppc e (locate cols ppc e i)
  unfolding locate
  locate-IsInGrid = record {
    slot = i % (ppc * cols) / cols;
    matrix_lt = div-lt_of_lt_mul i grid (ppc * cols) in_range;
    column_lt = mod_bound (i % (ppc * cols)) cols cols_pos;
    slot_lt = div-lt_of_lt_mul (i % (ppc * cols)) ppc cols (mod_bound i (ppc * cols) per_row_pos);
    offset = refl;
  }

  pub index_of-locate : index_of cols ppc (locate cols ppc e i) locate-IsInGrid.slot ≡ i
  unfolding locate locate-IsInGrid
  index_of-locate = omega (arith, div-add-mod i (ppc * cols), div-add-mod (i % (ppc * cols)) cols)

pub locate-index_of :
    (grid cols ppc e : ℕ) (a : Address) (h : IsInGrid grid cols ppc e a)
    → locate cols ppc e (index_of cols ppc a h.slot) ≡ a
unfolding locate
locate-index_of grid cols ppc e a h =
    let inner = parts-lt h.slot a.column cols ppc h.slot_lt h.column_lt in
    let row : index_of cols ppc a h.slot / (ppc * cols) ≡ a.matrix =
      div_of_parts a.matrix _ (ppc * cols) inner in
    let local : index_of cols ppc a h.slot % (ppc * cols) ≡ h.slot * cols + a.column =
      mod_of_parts a.matrix _ (ppc * cols) inner in
    let col : (h.slot * cols + a.column) % cols ≡ a.column =
      mod_of_parts h.slot _ cols h.column_lt in
    let slot : (h.slot * cols + a.column) / cols ≡ h.slot =
      div_of_parts h.slot _ cols h.column_lt in
    ground (arith, row, local, col, slot, h.offset)

-- What the assertions behind `num_payloads` checked.
pub record HasCapacity (l : DatabaseLayout) (e column_height capacity : ℕ) : Type 0 where
  pub height_pos : 0 < column_height
  pub whole : l.rows % column_height ≡ 0
  pub payload_fits : e ≤ column_height
  pub capacity_eq : capacity ≡ l.rows / column_height * l.cols * (column_height / e)

pub num_payloads-HasCapacity :
    (l : DatabaseLayout) (e h : ℕ) {capacity : ℕ}
    → num_payloads l e h ≡ ok capacity
    → HasCapacity l e h capacity
unfolding num_payloads num_records grid_rows_for payloads_per_column
num_payloads-HasCapacity l e h counted = ground arith

module _ (l : DatabaseLayout) (e h i : ℕ) (cols_pos : 0 < l.cols) (e_pos : 0 < e) {capacity : ℕ}
    (counted : num_payloads l e h ≡ ok capacity) where
  shape : HasCapacity l e h capacity
  shape = num_payloads-HasCapacity l e h counted

  ppc_pos : 0 < h / e
  ppc_pos = grind (arith, shape.payload_fits)

  in_grid : i < capacity → i < l.rows / h * (h / e * l.cols)
  in_grid lt = omega (arith, lt, shape.capacity_eq)

  try_address_for_step : i < capacity → try_address_for l e i h ≡ ok (locate l.cols (h / e) e i)
  unfolding try_address_for payloads_per_column
  try_address_for_step lt = ground (arith, counted, shape.payload_fits)

  -- Every payload index below the capacity resolves to an address inside the grid, at a payload's
  -- boundary, from which the index can be computed back.
  pub try_address_for-IsInGrid :
      i < capacity
      → (a : Address) × (try_address_for l e i h ≡ ok a)
        × (g : IsInGrid (l.rows / h) l.cols (h / e) e a) × (index_of l.cols (h / e) a g.slot ≡ i)
  try_address_for-IsInGrid lt = (
    locate l.cols (h / e) e i,
    try_address_for_step lt,
    locate-IsInGrid (l.rows / h) l.cols (h / e) e i cols_pos ppc_pos (in_grid lt),
    index_of-locate (l.rows / h) l.cols (h / e) e i cols_pos ppc_pos (in_grid lt),
  )

  -- Any other index is refused, with the capacity in the error.
  pub try_address_for_out_of_bounds :
      capacity ≤ i → try_address_for l e i h ≡ err (payload_out_of_bounds i capacity)
  unfolding try_address_for
  try_address_for_out_of_bounds ge = ground (arith, counted)

-- Every address inside the grid, at a payload's boundary, is the address of a payload index below
-- the capacity.
pub try_address_for-index_of :
    (l : DatabaseLayout) (e h : ℕ) (a : Address) {capacity : ℕ}
    → 0 < l.cols
    → 0 < e
    → num_payloads l e h ≡ ok capacity
    → (g : IsInGrid (l.rows / h) l.cols (h / e) e a)
    → (index_of l.cols (h / e) a g.slot < capacity)
      × (try_address_for l e (index_of l.cols (h / e) a g.slot) h ≡ ok a)
try_address_for-index_of l e h a {capacity} cols_pos e_pos counted g =
    let i = index_of l.cols (h / e) a g.slot in
    let inner = parts-lt g.slot a.column l.cols (h / e) g.slot_lt g.column_lt in
    let outer =
      parts-lt a.matrix (g.slot * l.cols + a.column) (h / e * l.cols) (l.rows / h) g.matrix_lt
        inner in
    let lt : i < capacity =
      omega (arith, outer, (num_payloads-HasCapacity l e h counted).capacity_eq) in
    (
      lt,
      try_address_for_step l e h i cols_pos e_pos counted lt
          ∙ ap ok (locate-index_of (l.rows / h) l.cols (h / e) e a g),
    )

-- For a layout with columns, a payload of one digit at least and a capacity: the addresses of the payload
-- indices below the capacity are the addresses inside the grid that stand at a payload's boundary, one for
-- each index, and the index can be computed back; any other index is refused, with the capacity in the
-- error.
pub try_address_for_lem :
    (l : DatabaseLayout) (e h : ℕ) {capacity : ℕ}
    → 0 < l.cols
    → 0 < e
    → num_payloads l e h ≡ ok capacity
    → ((i : ℕ)
        → i < capacity
        → (a : Address) × (try_address_for l e i h ≡ ok a)
          × (g : IsInGrid (l.rows / h) l.cols (h / e) e a) × (index_of l.cols (h / e) a g.slot ≡ i))
      × ((a : Address) (g : IsInGrid (l.rows / h) l.cols (h / e) e a)
          → (index_of l.cols (h / e) a g.slot < capacity)
            × (try_address_for l e (index_of l.cols (h / e) a g.slot) h ≡ ok a))
      × ((i : ℕ) → capacity ≤ i → try_address_for l e i h ≡ err (payload_out_of_bounds i capacity))
try_address_for_lem l e h cols_pos e_pos counted = (
  λ i lt. try_address_for-IsInGrid l e h i cols_pos e_pos counted lt,
  λ a g. try_address_for-index_of l e h a cols_pos e_pos counted g,
  λ i ge. try_address_for_out_of_bounds l e h i cols_pos e_pos counted ge,
)
