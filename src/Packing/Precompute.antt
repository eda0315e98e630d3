-- ===== src/Packing/Precompute.antt =====
-- src/packing/packing_precomputations.rs: the schedule of the steps of a packing, in groups of baby steps;
-- `Dft` and `Plan` are the backend's transformed polynomials and automorphism plans.
pub mod Groups
use poulpy_pir.Prelude.{
  ℕ, zero, suc, ◌+◌, ◌-◌, ◌*◌, ◌/◌, ◌%◌, max, min, Bool, true, false, leb, ltb, ◌==◌, if◌then◌else◌,
  List, [], ◌∷◌, length, map, replicate, div_ceil,
}
use poulpy_pir.Error.{Result, ok, panic, assert, ◌>>=◌, ◌>>◌}
use poulpy_pir.Packing.{Module}

-- `PACK_PRECOMPUTE_ARITHMETIC_BASE2K`.
abbrev pub pack_precompute_base2k : ℕ
pack_precompute_base2k = 50

pub record PackingPrecomputeInfos : Type 0 where
  pub steps : ℕ
  pub size : ℕ
  pub base2k : ℕ
  pub baby_size : ℕ
  pub partial : Bool
  pub stride : ℕ

unfoldable pub new : (steps size base2k baby_size : ℕ) → PackingPrecomputeInfos
new steps size base2k baby_size = record {
  steps = steps;
  size = size;
  base2k = base2k;
  baby_size = baby_size;
  partial = false;
  stride = 1;
}

unfoldable pub new_partial : (steps size base2k baby_size stride : ℕ) → PackingPrecomputeInfos
new_partial steps size base2k baby_size stride = record {
  steps = steps;
  size = size;
  base2k = base2k;
  baby_size = baby_size;
  partial = true;
  stride = stride;
}

unfoldable pub arithmetic_precompute_metadata : PackingPrecomputeInfos → PackingPrecomputeInfos
unfolding new new_partial
arithmetic_precompute_metadata metadata =
    let base2k = max pack_precompute_base2k metadata.base2k in
    let torus_bits = metadata.size * metadata.base2k in
    let size = max (div_ceil torus_bits base2k) 1 in
    if metadata.partial
    then new_partial metadata.steps size base2k metadata.baby_size metadata.stride
    else new metadata.steps size base2k metadata.baby_size

-- `size` is the number of limbs of each column of `body_vmp_masks`.
pub record PackingPrecomputations (Poly Dft Plan : Type 0) : Type 0 where
  pub body_vmp_masks : List Poly
  pub size : ℕ
  pub final_mask : Poly
  pub bsgs_masks : List Dft
  pub bsgs_giant_plans : List Plan
  pub bsgs_baby_size : ℕ
  pub base2k : ℕ
  pub steps : ℕ
  pub partial : Bool
  pub stride : ℕ

module _ {Poly Dft Plan : Type 0} where
  unfoldable pub metadata : PackingPrecomputations Poly Dft Plan → PackingPrecomputeInfos
  unfolding new new_partial
  metadata p =
      if p.partial
      then new_partial p.steps p.size p.base2k p.bsgs_baby_size p.stride
      else new p.steps p.size p.base2k p.bsgs_baby_size

  -- A subtraction that would underflow, and a division by zero, are panics.
  unfoldable pub bsgs_kg_steps : PackingPrecomputations Poly Dft Plan → Result ℕ
  bsgs_kg_steps p = if p.partial then ok p.steps else (assert (leb 1 p.steps) >> ok (p.steps - 1))

  unfoldable pub bsgs_half_steps : PackingPrecomputations Poly Dft Plan → Result ℕ
  unfolding bsgs_kg_steps
  bsgs_half_steps p = do
    kg_steps ← bsgs_kg_steps p
    ok (if p.partial then kg_steps else kg_steps / 2)

  unfoldable pub bsgs_groups_per_half : PackingPrecomputations Poly Dft Plan → Result ℕ
  unfolding bsgs_half_steps div_ceil
  bsgs_groups_per_half p = do
    half_steps ← bsgs_half_steps p
    assert (ltb 0 p.bsgs_baby_size)
    ok (div_ceil half_steps p.bsgs_baby_size)

  unfoldable pub bsgs_group_count : PackingPrecomputations Poly Dft Plan → Result ℕ
  unfolding bsgs_groups_per_half
  bsgs_group_count p = do
    groups_per_half ← bsgs_groups_per_half p
    ok (if p.partial then groups_per_half else 2 * groups_per_half)

  unfoldable pub bsgs_group_start_step : PackingPrecomputations Poly Dft Plan → ℕ → Result ℕ
  unfolding bsgs_groups_per_half
  bsgs_group_start_step p group_idx = do
    groups_per_half ← bsgs_groups_per_half p
    assert (ltb 0 groups_per_half)
    let half_idx = group_idx / groups_per_half
    let giant_idx = group_idx % groups_per_half
    half_steps ← bsgs_half_steps p
    ok (half_idx * half_steps + giant_idx * p.bsgs_baby_size)

  unfoldable pub bsgs_group_len : PackingPrecomputations Poly Dft Plan → ℕ → Result ℕ
  unfolding bsgs_group_start_step
  bsgs_group_len p group_idx = do
    start ← bsgs_group_start_step p group_idx
    half_steps ← bsgs_half_steps p
    assert (ltb 0 half_steps)
    let start_in_half = start % half_steps
    ok (min (half_steps - start_in_half) p.bsgs_baby_size)

-- A fresh column and fresh columns of the backend are zero.
unfoldable pub pack_precompute_alloc_default :
    (m : Module) (Dft Plan : Type 0) (steps size base2k baby_size : ℕ)
    → PackingPrecomputations m.Poly Dft Plan
pack_precompute_alloc_default m Dft Plan steps size base2k baby_size = record {
  body_vmp_masks = replicate steps m.zero_poly;
  size = size;
  final_mask = m.zero_poly;
  bsgs_masks = [];
  bsgs_giant_plans = [];
  bsgs_baby_size = baby_size;
  base2k = base2k;
  steps = steps;
  partial = false;
  stride = 1;
}

unfoldable pub pack_precompute_alloc_partial :
    (m : Module) (Dft Plan : Type 0) (steps size base2k baby_size stride : ℕ)
    → PackingPrecomputations m.Poly Dft Plan
pack_precompute_alloc_partial m Dft Plan steps size base2k baby_size stride = record {
  body_vmp_masks = replicate steps m.zero_poly;
  size = size;
  final_mask = m.zero_poly;
  bsgs_masks = [];
  bsgs_giant_plans = [];
  bsgs_baby_size = baby_size;
  base2k = base2k;
  steps = steps;
  partial = true;
  stride = stride;
}
