-- ===== src/Packing/Mask/Leaves.antt =====
-- `process_h_full` leaves in each of its two columns the sum of the rotated automorphisms of all leaves.
use poulpy_pir.Prelude.{
  ℕ, suc, ◌+◌, ◌^◌, ◌≤◌, ◌≡◌, refl, ◌∙◌, false, List, [], ◌∷◌, set, length, replicate, drop, ℤ,
  negate, arith,
}
use poulpy_pir.Error.{ok}
use poulpy_pir.Loop.{for_range}
use poulpy_pir.Loop.Suffix.{drop_suc, at-drop}
use poulpy_pir.Packing.{Module, IsAdditive, sum}
use poulpy_pir.Packing.Tree.{Tree}
use poulpy_pir.Packing.Mask.{Work, stream_leaf, process_h_full}
use native.Mathlib.Nat.{one-le-pow}
use poulpy_pir.Packing.Tree.Sums.{
  cleared-Holds, Holds, IsEmptied, binary_tree_step_kept, binary_tree_step_full,
}
use mathlib.Core.Path.{subst}

module _ (m : Module) (laws : IsAdditive m) where
  open m use {Poly, add_assign, zero_poly, automorphism_rotate}

  -- The leaves of the column of `h`, from the `k`-th on.
  abbrev pub rotated : ℤ → ℕ → List Poly → List Poly
  rotated h k [] = []
  rotated h k (x ∷ rest) = automorphism_rotate h k x ∷ rotated h (k + 1) rest

  -- The column of `h`: the sum over all `k` of the automorphism of the `k`-th polynomial, times `X^k`.
  abbrev pub column_of : ℤ → List Poly → Poly
  column_of h t = sum m (rotated h 0 t)

  -- A tree with a column for each level.
  pub record IsRoomy (log_n : ℕ) (tree : Tree Poly) : Type 0 where
    pub room : log_n ≤ length tree.levels
    pub height : length tree.occupied ≡ log_n

  add-zero_poly : (x : Poly) → add_assign x zero_poly ≡ x
  add-zero_poly x = laws.add_comm x zero_poly ∙ laws.zero-add x

  module _ (t : List Poly) (h : ℤ) (col_a col_b log_n : ℕ) where
    stream_leaves :
        (rest : List Poly) (x : Poly) (k : ℕ) (total_a total_b : Poly) (w : Work Poly)
        → drop k t ≡ x ∷ rest
        → k + suc (length rest) ≡ 2 ^ log_n
        → Holds m laws log_n k total_a w.tree_a
        → Holds m laws log_n k total_b w.tree_b
        → (w' : Work Poly) × (for_range (suc (length rest)) k (stream_leaf m t h col_a col_b) w
            ≡ ok w')
          × (w'.dst
              ≡ set
                  (set w.dst col_a (add_assign total_a (sum m (rotated (negate h) k (x ∷ rest)))))
                  col_b
                  (add_assign total_b (sum m (rotated h k (x ∷ rest)))))
          × IsEmptied m laws log_n w'.tree_a
          × IsEmptied m laws log_n w'.tree_b
    unfolding for_range
    stream_leaves [] x k total_a total_b w here last a b =
        let (ta, run_a, ea) =
          binary_tree_step_full m laws (automorphism_rotate (negate h) k x) total_a w.tree_a w.dst
            col_a log_n k a (omega arith) in
        let (tb, run_b, eb) =
          binary_tree_step_full m laws (automorphism_rotate h k x) total_b w.tree_b
            (set w.dst col_a (add_assign total_a (automorphism_rotate (negate h) k x))) col_b log_n
            k b (omega arith) in
        (
          record {
            tree_a = ta;
            tree_b = tb;
            dst =
                set (set w.dst col_a (add_assign total_a (automorphism_rotate (negate h) k x)))
                  col_b (add_assign total_b (automorphism_rotate h k x));
          },
          rw (at-drop k t x [] here, run_a, run_b),
          rw (
            add-zero_poly (automorphism_rotate (negate h) k x),
            add-zero_poly (automorphism_rotate h k x),
          ),
          ea,
          eb,
        )
    stream_leaves (y ∷ rest) x k total_a total_b w here last a b =
        let (ta, run_a, ha) =
          binary_tree_step_kept m laws (automorphism_rotate (negate h) k x) total_a w.tree_a w.dst
            col_a log_n k a (omega arith) in
        let (tb, run_b, hb) =
          binary_tree_step_kept m laws (automorphism_rotate h k x) total_b w.tree_b w.dst col_b
            log_n k b (omega arith) in
        let sum_a : Poly = add_assign total_a (automorphism_rotate (negate h) k x) in
        let sum_b : Poly = add_assign total_b (automorphism_rotate h k x) in
        let w1 : Work Poly = record { tree_a = ta; tree_b = tb; dst = w.dst } in
        let e : suc k ≡ k + 1 = omega arith in
        let (w', run, same, ea, eb) =
          stream_leaves rest y (k + 1) sum_a sum_b w1 (drop_suc k t x (y ∷ rest) here) (omega arith)
            (subst (λ j. Holds m laws log_n j sum_a ta) e ha)
            (subst (λ j. Holds m laws log_n j sum_b tb) e hb) in
        (
          w',
          rw (at-drop k t x (y ∷ rest) here, run_a, run_b) run,
          same ∙ rw (laws.add_assoc, laws.add_assoc),
          ea,
          eb,
        )

  -- The columns after a whole stream of leaves, and the trees, ready for the next.
  pub process_h_full_lem :
      (t : List Poly) (h : ℤ) (n col_a col_b log_n : ℕ) (w : Work Poly)
      → length t ≡ n
      → n ≡ 2 ^ log_n
      → IsRoomy log_n w.tree_a
      → IsRoomy log_n w.tree_b
      → (w' : Work Poly) × (process_h_full m t h n col_a col_b w ≡ ok w')
        × (w'.dst ≡ set (set w.dst col_a (column_of (negate h) t)) col_b (column_of h t))
        × IsRoomy log_n w'.tree_a
        × IsRoomy log_n w'.tree_b
  unfolding process_h_full
  process_h_full_lem [] h n col_a col_b log_n w len whole a b =
      absurd (omega (arith, one-le-pow log_n 2))
  process_h_full_lem (x ∷ rest) h n col_a col_b log_n w len whole a b =
      let (w', run, same, ea, eb) =
        stream_leaves (x ∷ rest) h col_a col_b log_n rest x 0 zero_poly zero_poly
          (record {
            tree_a = record { levels = w.tree_a.levels; occupied = replicate log_n false };
            tree_b = record { levels = w.tree_b.levels; occupied = replicate log_n false };
            dst = w.dst;
          })
          refl (omega (arith, len, whole)) (cleared-Holds m laws log_n w.tree_a.levels a.room)
          (cleared-Holds m laws log_n w.tree_b.levels b.room) in
      (
        w',
        rw (← len, a.height, b.height) run,
        same
            ∙ rw (
              laws.zero-add (sum m (rotated (negate h) 0 (x ∷ rest))),
              laws.zero-add (sum m (rotated h 0 (x ∷ rest))),
            ),
        record { room = ea.room; height = ea.height },
        record { room = eb.room; height = eb.height },
      )
