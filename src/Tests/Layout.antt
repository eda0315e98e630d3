-- ===== src/Tests/Layout.antt =====
-- Addresses and blocks of a small layout.
use poulpy_pir.Prelude.{ℕ, ◌-◌, ◌*◌, ◌/◌, ◌≡◌, ◌≤◌, ◌<◌, refl, min, arith}
use poulpy_pir.Error.{ok, err, panic, payload_out_of_bounds}
use poulpy_pir.Database.Layout.{
  DatabaseLayout, Address, num_payloads, try_address_for, column_blocks, column_block_width,
  interpolation_t,
}
use poulpy_pir.Database.Layout.Pow2.{next_power_of_two}
use poulpy_pir.Database.Layout.Addressing.{IsInGrid, index_of, try_address_for_lem}
use poulpy_pir.Database.Layout.Blocks.{column_blocks_cover, total_width}

-- 24 rows in columns of height 8, 5 columns, payloads of 3 digits: two payloads to a column.
abbrev small : DatabaseLayout
small = record { rows = 24; cols = 5 }

num_payloads_small : num_payloads small 3 8 ≡ ok 30
unfolding num_payloads
num_payloads_small = refl

address_17 : try_address_for small 3 17 8 ≡ ok (record { matrix = 1; column = 2; row_offset = 3 })
unfolding try_address_for
address_17 = refl

abbrev corner : Address
corner = record { matrix = 2; column = 4; row_offset = 3 }

corner-IsInGrid : IsInGrid 3 5 2 3 corner
corner-IsInGrid = record {
  slot = 1;
  matrix_lt = omega arith;
  column_lt = omega arith;
  slot_lt = omega arith;
  offset = refl;
}

column_blocks_cover_example :
    ((k : ℕ) → k < column_blocks small 2 → column_block_width small 2 k ≡ ok (min (5 - k * 2) 2))
    × ((k : ℕ) → column_blocks small 2 ≤ k → column_block_width small 2 k ≡ panic)
    × (total_width small 2 (column_blocks small 2) ≡ 5)
column_blocks_cover_example = column_blocks_cover small 2 (omega arith)

interpolation_t_small : interpolation_t small 8 ≡ ok 4
unfolding interpolation_t next_power_of_two
interpolation_t_small = refl

try_address_for_lem_example :
    ((i : ℕ)
      → i < 30
      → (a : Address) × (try_address_for small 3 i 8 ≡ ok a)
        × (g : IsInGrid (24 / 8) 5 (8 / 3) 3 a) × (index_of 5 (8 / 3) a g.slot ≡ i))
    × ((a : Address) (g : IsInGrid (24 / 8) 5 (8 / 3) 3 a)
        → (index_of 5 (8 / 3) a g.slot < 30)
          × (try_address_for small 3 (index_of 5 (8 / 3) a g.slot) 8 ≡ ok a))
    × ((i : ℕ) → 30 ≤ i → try_address_for small 3 i 8 ≡ err (payload_out_of_bounds i 30))
try_address_for_lem_example =
    try_address_for_lem small 3 8 (omega arith) (omega arith) num_payloads_small
