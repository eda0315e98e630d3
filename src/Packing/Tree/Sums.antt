-- ===== src/Packing/Tree/Sums.antt =====
-- After `2 ^ log_n` leaves the destination holds their sum, and no level is occupied.
use poulpy_pir.Prelude.{
  ℕ, zero, suc, ◌+◌, ◌*◌, ◌^◌, ◌≤◌, ◌<◌, ◌≡◌, refl, sym, ap, ◌∙◌, Bool, true, false, List, [], ◌∷◌,
  set, Option, some, none, length, replicate, length-replicate, arith,
}
use poulpy_pir.Error.{ok}
use poulpy_pir.Packing.{Module, IsAdditive}
use poulpy_pir.Packing.Tree.{Tree, climb, binary_tree_step}
use native.Mathlib.Nat.{pow-succ'}

-- The number of leaves that the occupied levels hold.
abbrev pub count : List Bool → ℕ
count [] = 0
count (true ∷ occupied) = 1 + 2 * count occupied
count (false ∷ occupied) = 2 * count occupied

module _ (m : Module) (laws : IsAdditive m) where
  open m use {Poly, add_assign, zero_poly}

  -- The sum of what the occupied levels hold.
  abbrev pub held : List Poly → List Bool → Poly
  held levels [] = zero_poly
  held [] (b ∷ occupied) = zero_poly
  held (t ∷ levels) (true ∷ occupied) = add_assign t (held levels occupied)
  held (t ∷ levels) (false ∷ occupied) = held levels occupied

  -- What one leaf does: the sum of the leaves so far stays in the levels, or comes out whole.
  abbrev Climbed :
      (stage : Poly) (levels : List Poly) (occupied : List Bool) → Tree Poly → Option Poly → Type 0
  Climbed stage levels occupied tree none =
      (count tree.occupied ≡ suc (count occupied))
      × (held tree.levels tree.occupied ≡ add_assign (held levels occupied) stage)
      × (suc (count occupied) < 2 ^ length occupied)
  Climbed stage levels occupied tree (some p) =
      (count tree.occupied ≡ 0)
      × (p ≡ add_assign (held levels occupied) stage)
      × (suc (count occupied) ≡ 2 ^ length occupied)

  abbrev HasClimbed : (stage : Poly) (levels : List Poly) (occupied : List Bool) → Type 0
  HasClimbed stage levels occupied =
      (tree : Tree Poly) × (out : Option Poly) × (climb m stage levels occupied ≡ ok (tree, out))
      × (length tree.levels ≡ length levels)
      × (length tree.occupied ≡ length occupied)
      × Climbed stage levels occupied tree out

  swap_stage :
      (t stage h : Poly) → add_assign h (add_assign stage t) ≡ add_assign (add_assign t h) stage
  swap_stage t stage h =
      rw (laws.add_comm stage t, ← laws.add_assoc h t stage, laws.add_comm h t) refl

  count-lt : (occupied : List Bool) → count occupied < 2 ^ length occupied
  count-lt [] = omega arith
  count-lt (true ∷ os) = omega (arith, count-lt os, pow-succ' 2 (length os))
  count-lt (false ∷ os) = omega (arith, count-lt os, pow-succ' 2 (length os))

  above :
      (t stage : Poly) (levels : List Poly) (occupied : List Bool)
      → (tree : Tree Poly) (out : Option Poly)
      → Climbed (add_assign stage t) levels occupied tree out
      → Climbed stage
          (t ∷ levels)
          (true ∷ occupied)
          (record { levels = t ∷ tree.levels; occupied = false ∷ tree.occupied })
          out
  above t stage levels occupied tree none (c, h, lt) = (
    omega arith,
    h ∙ swap_stage t stage (held levels occupied),
    omega (arith, pow-succ' 2 (length occupied)),
  )
  above t stage levels occupied tree (some p) (c, h, eq) = (
    omega arith,
    h ∙ swap_stage t stage (held levels occupied),
    omega (arith, pow-succ' 2 (length occupied)),
  )

  climb_lem :
      (stage : Poly) (levels : List Poly) (occupied : List Bool)
      → length occupied ≤ length levels
      → HasClimbed stage levels occupied
  climb_lem stage levels [] le = (
    record { levels = levels; occupied = [] },
    some stage,
    refl,
    refl,
    refl,
    (refl, sym (laws.zero-add stage), refl),
  )
  climb_lem stage [] (b ∷ occupied) le = absurd (omega arith)
  climb_lem stage (t ∷ levels) (false ∷ occupied) le = (
    record { levels = stage ∷ levels; occupied = true ∷ occupied },
    none,
    refl,
    refl,
    refl,
    (
      omega arith,
      laws.add_comm stage (held levels occupied),
      omega (arith, count-lt occupied, pow-succ' 2 (length occupied)),
    ),
  )
  climb_lem stage (t ∷ levels) (true ∷ occupied) le =
      let (tree, out, run, l, o, climbed) =
        climb_lem (add_assign stage t) levels occupied (omega arith) in
      (
        record { levels = t ∷ tree.levels; occupied = false ∷ tree.occupied },
        out,
        rw run,
        ap suc l,
        ap suc o,
        above t stage levels occupied tree out climbed,
      )

  -- A tree over `2 ^ log_n` leaves that has taken `k` of them, whose sum is `total`.
  pub record Holds (log_n k : ℕ) (total : Poly) (tree : Tree Poly) : Type 0 where
    pub room : log_n ≤ length tree.levels
    pub height : length tree.occupied ≡ log_n
    pub taken : count tree.occupied ≡ k
    pub same : held tree.levels tree.occupied ≡ total

  -- A tree between two destinations.
  pub record IsEmptied (log_n : ℕ) (tree : Tree Poly) : Type 0 where
    pub room : log_n ≤ length tree.levels
    pub height : length tree.occupied ≡ log_n
    pub taken : count tree.occupied ≡ 0

  -- A leaf that is not the last stays in the tree.
  pub binary_tree_step_kept :
      (stage total : Poly) (tree : Tree Poly) (dst : List Poly) (col log_n k : ℕ)
      → Holds log_n k total tree
      → suc k < 2 ^ log_n
      → (tree' : Tree Poly) × (binary_tree_step m stage tree dst col ≡ ok (tree', dst))
        × Holds log_n (suc k) (add_assign total stage) tree'
  unfolding binary_tree_step
  binary_tree_step_kept stage total tree dst col log_n k h lt =
      let (tree', out, run, l, o, climbed) =
        climb_lem stage tree.levels tree.occupied (omega (arith, h.room, h.height)) in
      kept tree' out run l o climbed
    where
      kept :
          (tree' : Tree Poly) (out : Option Poly)
          → climb m stage tree.levels tree.occupied ≡ ok (tree', out)
          → length tree'.levels ≡ length tree.levels
          → length tree'.occupied ≡ length tree.occupied
          → Climbed stage tree.levels tree.occupied tree' out
          → (tree' : Tree Poly) × (binary_tree_step m stage tree dst col ≡ ok (tree', dst))
            × Holds log_n (suc k) (add_assign total stage) tree'
      kept tree' none run l o (c, s, lt') = (
        tree',
        rw run,
        record {
          room = omega (arith, h.room);
          height = o ∙ h.height;
          taken = c ∙ ap suc h.taken;
          same = s ∙ ap (λ x. add_assign x stage) h.same;
        },
      )
      kept tree' (some p) run l o (c, s, eq) =
          absurd (omega (arith, eq, h.taken, ap (λ (x : ℕ). 2 ^ x) h.height))

  -- The last leaf brings the sum into the destination.
  pub binary_tree_step_full :
      (stage total : Poly) (tree : Tree Poly) (dst : List Poly) (col log_n k : ℕ)
      → Holds log_n k total tree
      → suc k ≡ 2 ^ log_n
      → (tree' : Tree Poly) × (binary_tree_step m stage tree dst col
          ≡ ok (tree', set dst col (add_assign total stage)))
        × IsEmptied log_n tree'
  unfolding binary_tree_step
  binary_tree_step_full stage total tree dst col log_n k h last =
      let (tree', out, run, l, o, climbed) =
        climb_lem stage tree.levels tree.occupied (omega (arith, h.room, h.height)) in
      out_whole tree' out run l o climbed
    where
      out_whole :
          (tree' : Tree Poly) (out : Option Poly)
          → climb m stage tree.levels tree.occupied ≡ ok (tree', out)
          → length tree'.levels ≡ length tree.levels
          → length tree'.occupied ≡ length tree.occupied
          → Climbed stage tree.levels tree.occupied tree' out
          → (tree' : Tree Poly) × (binary_tree_step m stage tree dst col
              ≡ ok (tree', set dst col (add_assign total stage)))
            × IsEmptied log_n tree'
      out_whole tree' (some p) run l o (c, s, eq) = (
        tree',
        rw run (ap (λ x. ok (tree', set dst col x)) (s ∙ ap (λ x. add_assign x stage) h.same)),
        record { room = omega (arith, h.room); height = o ∙ h.height; taken = c },
      )
      out_whole tree' none run l o (c, s, lt) =
          absurd (omega (arith, lt, h.taken, ap (λ (x : ℕ). 2 ^ x) h.height))

  count-replicate : (log_n : ℕ) → count (replicate log_n false) ≡ 0
  count-replicate zero = refl
  count-replicate (suc log_n) = omega (arith, count-replicate log_n)

  held-replicate :
      (log_n : ℕ) (levels : List Poly) → held levels (replicate log_n false) ≡ zero_poly
  held-replicate zero levels = refl
  held-replicate (suc log_n) [] = refl
  held-replicate (suc log_n) (t ∷ levels) = held-replicate log_n levels

  -- A tree with no occupied level has taken no leaf, whatever its columns hold.
  pub cleared-Holds :
      (log_n : ℕ) (levels : List Poly)
      → log_n ≤ length levels
      → Holds log_n 0 zero_poly (record { levels = levels; occupied = replicate log_n false })
  cleared-Holds log_n levels le = record {
    room = le;
    height = length-replicate log_n false;
    taken = count-replicate log_n;
    same = held-replicate log_n levels;
  }
