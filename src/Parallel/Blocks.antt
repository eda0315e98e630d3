-- ===== src/Parallel/Blocks.antt =====
-- `assign_blocks` cuts the grid into contiguous runs: every block once, in panel-major order.
use poulpy_pir.Prelude.{
  ℕ, zero, suc, ◌+◌, ◌-◌, ◌*◌, ◌/◌, ◌%◌, ◌≤◌, ◌<◌, ◌≡◌, refl, sym, ap, ap₂, ◌∙◌, ◌⊎◌, List, [], ◌∷◌,
  ◌++◌, All, length, ◌==◌, arith, mod_bound, min, inl, inr, Bool-cases, pos→==, false, div_of_parts,
  mod_of_parts,
}
use poulpy_pir.Parallel.{BlockWork, clamp_from_one, group_len, cut, block_groups, assign_blocks}
use poulpy_pir.Parallel.Dealt.{dealt, dealt_whole}
use mathlib.Core.List.{flatten, append_assoc}
use poulpy_pir.Parallel.Panels.{zero_of}
use Prim.Native.Nat.add
use native.Mathlib.Nat.{mul-zero, add-zero, div-add-mod}

-- The blocks of a tile.
pub cells_from : (panel col len : ℕ) → List (ℕ × ℕ)
cells_from panel col zero = []
cells_from panel col (suc len) = (panel, col) ∷ cells_from panel (col + 1) len

pub cells : List BlockWork → List (ℕ × ℕ)
cells [] = []
cells (w ∷ ws) = cells_from w.panel w.col_start w.col_len ++ cells ws

-- The blocks `from`, `from + 1`, … of the flattened grid of width `k`.
pub run_from : (k from count : ℕ) → List (ℕ × ℕ)
run_from k from zero = []
run_from k from (suc count) = (from / k, from % k) ∷ run_from k (from + 1) count

run_from-add :
    (k from a b : ℕ) → run_from k from (a + b) ≡ run_from k from a ++ run_from k (from + a) b
unfolding run_from
run_from-add k from zero b = rw (add.zero, add-zero)
run_from-add k from (suc a) b = rw add.suc (
    ap (λ rest. (from / k, from % k) ∷ rest)
      (run_from-add k (from + 1) a b
        ∙ ap (λ (m : ℕ). run_from k (from + 1) a ++ run_from k m b) (omega arith)))

cells_from-eq-run_from :
    (k panel col len : ℕ)
    → col + len ≤ k
    → cells_from panel col len ≡ run_from k (panel * k + col) len
unfolding cells_from run_from
cells_from-eq-run_from k panel col zero h = refl
cells_from-eq-run_from k panel col (suc len) h =
    let quot : (panel * k + col) / k ≡ panel = div_of_parts panel col k (omega arith) in
    let rem : (panel * k + col) % k ≡ col = mod_of_parts panel col k (omega arith) in
    rw (quot, rem)
      (ap (λ rest. (panel, col) ∷ rest)
        (cells_from-eq-run_from k panel (col + 1) len (omega arith)
          ∙ ap (λ (m : ℕ). run_from k m len) (omega arith)))

tile_lem :
    (k global taken : ℕ)
    → 0 < k
    → taken ≤ k - global % k
    → cells_from (global / k) (global % k) taken ≡ run_from k global taken
tile_lem k global taken pos le =
    cells_from-eq-run_from k (global / k) (global % k) taken (omega (arith, mod_bound global k pos))
    ∙ ap (λ (m : ℕ). run_from k m taken) (omega (arith, div-add-mod global k))

abbrev taken_of : ℕ → ℕ → ℕ → ℕ
taken_of k global remaining = min remaining (k - global % k)

takes_one :
    (k global remaining fuel : ℕ)
    → 0 < k
    → remaining ≤ suc fuel
    → (remaining == 0) ≡ false
    → remaining - taken_of k global remaining ≤ fuel
takes_one k global remaining fuel pos enough more = ground (arith, mod_bound global k pos)

width_pos : (p k : ℕ) → (p * k == 0) ≡ false → 0 < k
width_pos p zero more = ground (arith, mul-zero p)
width_pos p (suc k) more = omega arith

length-block_groups :
    (k base rem left i global : ℕ) → length (block_groups k base rem left i global) ≡ left
unfolding block_groups
length-block_groups k base rem zero i global = refl
length-block_groups k base rem (suc left) i global =
    ap suc (length-block_groups k base rem left (i + 1) (global + group_len base rem i))

cells-cut :
    (k fuel global remaining : ℕ)
    → 0 < k
    → remaining ≤ fuel
    → cells (cut k fuel global remaining) ≡ run_from k global remaining
unfolding cut cells
cells-cut k zero global remaining pos enough =
    let none : remaining ≡ 0 = omega arith in rw none (unfold run_from in refl)
cells-cut k (suc fuel) global remaining pos enough = elim (Bool-cases (remaining == 0)) [
  | inl done ↦ let none : remaining ≡ 0 = ground arith in rw (done, none) (unfold run_from in refl)
  | inr more ↦ rw more (
      ap₂ ◌++◌ (tile_lem k global (taken_of k global remaining) pos (omega arith)) (
        cells-cut k fuel (global + taken_of k global remaining)
          (remaining - taken_of k global remaining) pos
          (takes_one k global remaining fuel pos enough more))
      ∙ sym (run_from-add k global _ _)
      ∙ ap (run_from k global) (omega arith))
]

cells-append : (xs ys : List BlockWork) → cells (xs ++ ys) ≡ cells xs ++ cells ys
unfolding cells
cells-append [] ys = refl
cells-append (x ∷ xs) ys = rw (cells-append xs ys) (sym (append_assoc _ (cells xs) (cells ys)))

cells-block_groups :
    (k base rem left i global : ℕ)
    → 0 < k
    → cells (flatten (block_groups k base rem left i global))
      ≡ run_from k global (dealt base rem left i)
unfolding block_groups dealt flatten
cells-block_groups k base rem zero i global pos = unfold cells run_from in refl
cells-block_groups k base rem (suc left) i global pos =
    let len = group_len base rem i in
    cells-append (cut k len global len) _
    ∙ ap₂ ◌++◌ (cells-cut k len global len pos (omega arith))
        (cells-block_groups k base rem left (i + 1) (global + len) pos)
    ∙ sym (run_from-add k global len (dealt base rem left (i + 1)))

-- A tile stays inside its panel, and is not empty.
abbrev pub IsTile : ℕ → BlockWork → Type 0
IsTile k w = (w.col_start + w.col_len ≤ k) × (1 ≤ w.col_len)

cut-IsTile : (k fuel global remaining : ℕ) → 0 < k → All (IsTile k) (cut k fuel global remaining)
unfolding cut
cut-IsTile k zero global remaining pos = tt
cut-IsTile k (suc fuel) global remaining pos = elim (Bool-cases (remaining == 0)) [
  | inl done ↦ rw done tt
  | inr more ↦ rw more (
    ground (arith, mod_bound global k pos),
    cut-IsTile k fuel (global + taken_of k global remaining)
        (remaining - taken_of k global remaining) pos,
  )
]

block_groups-IsTile :
    (k base rem left i global : ℕ)
    → 0 < k
    → All (All (IsTile k)) (block_groups k base rem left i global)
unfolding block_groups
block_groups-IsTile k base rem zero i global pos = tt
block_groups-IsTile k base rem (suc left) i global pos = (
  cut-IsTile k (group_len base rem i) global (group_len base rem i) pos,
  block_groups-IsTile k base rem left (i + 1) (global + group_len base rem i) pos,
)

-- How many blocks a group holds.
pub load : List BlockWork → ℕ
load group = length (cells group)

abbrev pub IsEven : ℕ → List BlockWork → Type 0
IsEven base group = (load group ≡ base) ⊎ (load group ≡ base + 1)

length-run_from : (k from count : ℕ) → length (run_from k from count) ≡ count
unfolding run_from
length-run_from k from zero = refl
length-run_from k from (suc count) = ap suc (length-run_from k (from + 1) count)

load-cut : (k global len : ℕ) → 0 < k → load (cut k len global len) ≡ len
unfolding load
load-cut k global len pos =
    ap length (cells-cut k len global len pos (omega arith)) ∙ length-run_from k global len

block_groups-IsEven :
    (k base rem left i global : ℕ)
    → 0 < k
    → All (IsEven base) (block_groups k base rem left i global)
unfolding block_groups
block_groups-IsEven k base rem zero i global pos = tt
block_groups-IsEven k base rem (suc left) i global pos = (
  ground (arith, load-cut k global (group_len base rem i) pos),
  block_groups-IsEven k base rem left (i + 1) (global + group_len base rem i) pos,
)

module _ (p k threads : ℕ) where
  -- One after another the groups hold the blocks of the whole grid, each once, in panel-major
  -- order, for every number of threads.
  pub cells-assign_blocks : cells (flatten (assign_blocks p k threads)) ≡ run_from k 0 (p * k)
  unfolding assign_blocks flatten
  cells-assign_blocks = elim (Bool-cases (p * k == 0)) [
    | inl none ↦ rw none (unfold cells run_from in ap (run_from k 0) (zero_of none))
    | inr more ↦ rw more (
        cells-block_groups k _ _ (clamp_from_one threads (p * k)) 0 0 (width_pos p k more)
        ∙ ap (run_from k 0) (dealt_whole threads (p * k) (ground arith)))
  ]

  -- The groups are as many as the clamped number of threads, hold numbers of blocks that differ
  -- by one at most, and consist of tiles that each stay inside a panel and are not empty.
  pub assign_blocks_balanced :
      0 < p * k
      → (length (assign_blocks p k threads) ≡ clamp_from_one threads (p * k))
        × All (IsEven (p * k / clamp_from_one threads (p * k))) (assign_blocks p k threads)
        × All (All (IsTile k)) (assign_blocks p k threads)
  unfolding assign_blocks
  assign_blocks_balanced h =
      let t = clamp_from_one threads (p * k) in
      let pos = width_pos p k (pos→== (p * k) h) in
      rw (pos→== (p * k) h) (
        length-block_groups k _ _ t 0 0,
        block_groups-IsEven k _ _ t 0 0 pos,
        block_groups-IsTile k _ _ t 0 0 pos,
      )

  -- With a block at least, the groups hold the blocks of the whole grid, one after another, each once, in
  -- panel-major order; they are as many as the clamped number of threads, hold numbers of blocks that
  -- differ by one at most, and consist of tiles that each stay inside a panel and are not empty.
  pub assign_blocks_lem :
      0 < p * k
      → (cells (flatten (assign_blocks p k threads)) ≡ run_from k 0 (p * k))
        × (length (assign_blocks p k threads) ≡ clamp_from_one threads (p * k))
        × All (IsEven (p * k / clamp_from_one threads (p * k))) (assign_blocks p k threads)
        × All (All (IsTile k)) (assign_blocks p k threads)
  assign_blocks_lem h = let (a, b, c) = assign_blocks_balanced h in (cells-assign_blocks, a, b, c)
