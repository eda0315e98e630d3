-- ===== src/Packing/Tree.antt =====
-- `binary_tree_step` of src/packing/packing_mask_preprocessing.rs: leaves come one by one, and two
-- sums over as many leaves meet at each level, like the carry of a binary counter.
pub mod Sums
use poulpy_pir.Prelude.{
  ℕ, zero, suc, ◌+◌, Bool, true, false, List, [], ◌∷◌, set, Option, some, none,
}
use poulpy_pir.Error.{Result, ok, panic, ◌>>=◌}
use poulpy_pir.Packing.{Module}

-- The columns of `tree`, and which of them hold a sum.
pub record Tree (Poly : Type 0) : Type 0 where
  pub levels : List Poly
  pub occupied : List Bool

module _ (m : Module) where
  -- The `while` loop and the copy after it: `level` is the position in both lists. `some` of a sum
  -- is the copy into the destination.
  abbrev pub climb : m.Poly → List m.Poly → List Bool → Result (Tree m.Poly × Option m.Poly)
  climb stage levels [] = ok (record { levels = levels; occupied = [] }, some stage)
  climb stage [] (b ∷ occupied) = panic
  climb stage (t ∷ levels) (false ∷ occupied) =
      ok (record { levels = stage ∷ levels; occupied = true ∷ occupied }, none)
  climb stage (t ∷ levels) (true ∷ occupied) = do
    (rest, out) ← climb (m.add_assign stage t) levels occupied
    ok (record { levels = t ∷ rest.levels; occupied = false ∷ rest.occupied }, out)

  abbrev pub copy_out : List m.Poly → ℕ → Option m.Poly → List m.Poly
  copy_out dst col none = dst
  copy_out dst col (some p) = set dst col p

  unfoldable pub binary_tree_step :
      m.Poly → Tree m.Poly → List m.Poly → ℕ → Result (Tree m.Poly × List m.Poly)
  binary_tree_step stage tree dst dst_col = do
    (tree', out) ← climb stage tree.levels tree.occupied
    ok (tree', copy_out dst dst_col out)
