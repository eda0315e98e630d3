-- ===== src/Tests/Parallel.antt =====
-- Partitions of small grids.
use poulpy_pir.Prelude.{ℕ, ◌≤◌, ◌<◌, ◌≡◌, get_elem?, some, refl, [], ◌∷◌, All, length, arith}
use mathlib.Core.List.{flatten}
use poulpy_pir.Parallel.{BlockWork, assign_panels, assign_blocks}
use poulpy_pir.Parallel.Panels
use poulpy_pir.Parallel.Panels.{assign_panels_lem}
use poulpy_pir.Parallel.Blocks
use poulpy_pir.Parallel.Blocks.{cells, run_from, IsTile, assign_blocks_lem}

abbrev tile : ℕ → ℕ → ℕ → BlockWork
tile panel col_start col_len = record { panel = panel; col_start = col_start; col_len = col_len }

-- 2 panels of 3 blocks on 4 threads: 2, 2, 1 and 1 blocks, the second panel split.
assign_blocks_run :
    assign_blocks 2 3 4
    ≡ (tile 0 0 2 ∷ [])
      ∷ (tile 0 2 1 ∷ tile 1 0 1 ∷ [])
      ∷ (tile 1 1 1 ∷ [])
      ∷ (tile 1 2 1 ∷ [])
      ∷ []
unfolding assign_blocks
assign_blocks_run = refl

assign_panels_run : assign_panels 3 7 2 ≡ (tile 0 0 7 ∷ tile 1 0 7 ∷ []) ∷ (tile 2 0 7 ∷ []) ∷ []
unfolding assign_panels
assign_panels_run = refl

assign_panels_lem_example :
    (length (flatten (assign_panels 3 7 2)) ≡ 3)
    × ((i : ℕ)
        → i < 3
        → get_elem? (flatten (assign_panels 3 7 2)) i
          ≡ some (record { panel = i; col_start = 0; col_len = 7 }))
    × (length (assign_panels 3 7 2) ≡ 2)
    × All (Panels.IsEven 1) (assign_panels 3 7 2)
    × (1 ≤ 1)
assign_panels_lem_example = assign_panels_lem 3 7 2 (omega arith)

assign_blocks_lem_example :
    (cells (flatten (assign_blocks 2 3 4)) ≡ run_from 3 0 6)
    × (length (assign_blocks 2 3 4) ≡ 4)
    × All (Blocks.IsEven 1) (assign_blocks 2 3 4)
    × All (All (IsTile 3)) (assign_blocks 2 3 4)
assign_blocks_lem_example = assign_blocks_lem 2 3 4 (omega arith)
