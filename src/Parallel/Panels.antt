-- ===== src/Parallel/Panels.antt =====
-- `assign_panels` hands out every panel once, in order, in groups of nearly equal size.
use poulpy_pir.Prelude.{
  ℕ, zero, suc, ◌+◌, ◌/◌, ◌≤◌, ◌<◌, ◌≡◌, refl, sym, ap, ◌∙◌, ◌⊎◌, List, ◌∷◌, ◌++◌, All, length,
  get_elem?, some, ◌==◌, arith, inl, inr, Bool-cases, pos→==, true,
}
use poulpy_pir.Parallel.{
  BlockWork, clamp_from_one, group_len, full_panels, panel_groups, assign_panels,
}
use poulpy_pir.Parallel.Dealt.{dealt, dealt_whole, clamp_pos}
use mathlib.Core.List.{flatten}
use Prim.Native.Nat.add
use native.Mathlib.Nat.{add-zero}

full_panels-add :
    (k a b panel : ℕ)
    → full_panels k (a + b) panel ≡ full_panels k a panel ++ full_panels k b (panel + a)
unfolding full_panels
full_panels-add k zero b panel = rw (add.zero, add-zero)
full_panels-add k (suc a) b panel = rw (add.suc) (
    ap (λ rest. record { panel = panel; col_start = 0; col_len = k } ∷ rest)
      (full_panels-add k a b (panel + 1)
        ∙ ap (λ (m : ℕ). full_panels k a (panel + 1) ++ full_panels k b m) (omega arith)))

flatten-panel_groups :
    (k base rem left i panel : ℕ)
    → flatten (panel_groups k base rem left i panel) ≡ full_panels k (dealt base rem left i) panel
unfolding panel_groups dealt flatten
flatten-panel_groups k base rem zero i panel = refl
flatten-panel_groups k base rem (suc left) i panel =
    rw (flatten-panel_groups k base rem left (i + 1) (panel + group_len base rem i))
      (sym (full_panels-add k (group_len base rem i) (dealt base rem left (i + 1)) panel))

length-full_panels : (k len panel : ℕ) → length (full_panels k len panel) ≡ len
unfolding full_panels
length-full_panels k zero panel = refl
length-full_panels k (suc len) panel = ap suc (length-full_panels k len (panel + 1))

full_panels_lem :
    (k len panel i : ℕ)
    → i < len
    → get_elem? (full_panels k len panel) i
      ≡ some (record { panel = panel + i; col_start = 0; col_len = k })
unfolding full_panels
full_panels_lem k zero panel i lt = absurd (omega arith)
full_panels_lem k (suc len) panel zero lt =
    ap (λ (j : ℕ). some (record { panel = j; col_start = 0; col_len = k })) (omega arith)
full_panels_lem k (suc len) panel (suc i) lt =
    full_panels_lem k len (panel + 1) i (omega arith)
    ∙ ap (λ (j : ℕ). some (record { panel = j; col_start = 0; col_len = k })) (omega arith)

-- A group of `base` or `base + 1` panels.
abbrev pub IsEven : ℕ → List BlockWork → Type 0
IsEven base group = (length group ≡ base) ⊎ (length group ≡ base + 1)

panel_groups-IsEven :
    (k base rem left i panel : ℕ) → All (IsEven base) (panel_groups k base rem left i panel)
unfolding panel_groups
panel_groups-IsEven k base rem zero i panel = tt
panel_groups-IsEven k base rem (suc left) i panel = (
  ground (arith, length-full_panels k (group_len base rem i) panel),
  panel_groups-IsEven k base rem left (i + 1) (panel + group_len base rem i),
)

length-panel_groups :
    (k base rem left i panel : ℕ) → length (panel_groups k base rem left i panel) ≡ left
unfolding panel_groups
length-panel_groups k base rem zero i panel = refl
length-panel_groups k base rem (suc left) i panel =
    ap suc (length-panel_groups k base rem left (i + 1) (panel + group_len base rem i))

pub zero_of : {p : ℕ} → (p == 0) ≡ true → 0 ≡ p
zero_of none = ground arith

quot_pos : (p t : ℕ) → 0 < t → t ≤ p → 1 ≤ p / t
quot_pos p t h le = grind arith

module _ (p k threads : ℕ) where
  -- One after another the groups hold the panels `0`, …, `p - 1`, each once and at full width: the
  -- sequential order, for every number of threads.
  pub flatten-assign_panels : flatten (assign_panels p k threads) ≡ full_panels k p 0
  unfolding assign_panels full_panels flatten
  flatten-assign_panels = elim (Bool-cases (p == 0)) [
    | inl none ↦ rw none (ap (λ m. full_panels k m 0) (zero_of none))
    | inr more ↦ rw more (
        flatten-panel_groups k _ _ (clamp_from_one threads p) 0 0
        ∙ ap (λ m. full_panels k m 0) (dealt_whole threads p (ground arith)))
  ]

  -- With a panel at least there are `threads` groups, but one at least and `p` at most, and their
  -- sizes differ by one at most.
  pub assign_panels_balanced :
      0 < p
      → (length (assign_panels p k threads) ≡ clamp_from_one threads p)
        × All (IsEven (p / clamp_from_one threads p)) (assign_panels p k threads)
        × (1 ≤ p / clamp_from_one threads p)
  unfolding assign_panels
  assign_panels_balanced h = rw (pos→== p h) (
    length-panel_groups k _ _ (clamp_from_one threads p) 0 0,
    panel_groups-IsEven k _ _ (clamp_from_one threads p) 0 0,
    quot_pos p (clamp_from_one threads p) (clamp_pos threads p h) (omega arith),
  )

  -- With a panel at least, the groups hold `p` works one after another, the `i`-th of them the panel `i` from
  -- its first column on and at its full width `k`: every panel once, in the sequential order. There are
  -- `threads` groups, but one at least and `p` at most, and their sizes differ by one at most.
  pub assign_panels_lem :
      0 < p
      → (length (flatten (assign_panels p k threads)) ≡ p)
        × ((i : ℕ)
            → i < p
            → get_elem? (flatten (assign_panels p k threads)) i
              ≡ some (record { panel = i; col_start = 0; col_len = k }))
        × (length (assign_panels p k threads) ≡ clamp_from_one threads p)
        × All (IsEven (p / clamp_from_one threads p)) (assign_panels p k threads)
        × (1 ≤ p / clamp_from_one threads p)
  assign_panels_lem h =
      let (a, b, c) = assign_panels_balanced h in
      (
        ap length flatten-assign_panels ∙ length-full_panels k p 0,
        λ i lt.
            ap (λ works. get_elem? works i) flatten-assign_panels
            ∙ full_panels_lem k p 0 i lt
            ∙ ap (λ (j : ℕ). some (record { panel = j; col_start = 0; col_len = k })) (omega arith),
        a,
        b,
        c,
      )
