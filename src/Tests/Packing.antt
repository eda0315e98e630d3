-- ===== src/Tests/Packing.antt =====
-- A ring of degree 4 whose polynomials are numbers.
use poulpy_pir.Prelude.{
  ℕ, ◌<◌, false, some, inr, div_ceil, length, ◌+◌, ◌*◌, ◌^◌, ◌/◌, ◌≤◌, ◌≡◌, refl, true, pos, List,
  [], ◌∷◌, get_elem?, map, replicate, arith,
}
use poulpy_pir.Packing.Mask.{range}
use poulpy_pir.Packing.Partial.{
  packing_mask_preprocessing_partial_default, packing_mask_preprocessing_partial_threaded,
}
use poulpy_pir.Packing.Partial.Terms.{component}
use poulpy_pir.Packing.Partial.Columns.{element}
use poulpy_pir.Packing.Partial.Columns.Whole.{partial_input, packing_mask_preprocessing_partial_lem}
use poulpy_pir.Packing.Precompute.{
  PackingPrecomputations, bsgs_half_steps, bsgs_kg_steps, bsgs_group_count,
}
use poulpy_pir.Packing.Precompute.Groups.{IsScheduled, steps_of, steps_of_lem}
use poulpy_pir.Packing.Pack.{DftModule, PackingKeys, pack_default}
use poulpy_pir.Packing.Pack.Whole.{IsReady, direct_pack, pack_default_lem}
use mathlib.Core.Option.{get_or}
use poulpy_pir.Error.{ok}
use poulpy_pir.Packing.{Module, IsAdditive, trailing_zeros, is_power_of_two}
use poulpy_pir.Packing.Mask.{
  mask_preprocessing_arithmetic_base2k, packing_mask_preprocessing_default,
  packing_mask_preprocessing_threaded,
}
use poulpy_pir.Packing.Mask.Columns.{IsPreprocessed, input}
use poulpy_pir.Packing.Mask.Whole.{
  widened, packing_mask_preprocessing_default_lem, threaded-eq-default,
}
use poulpy_pir.Server.Float.{tabulate, length-tabulate}

abbrev number_ring : Module
number_ring = record {
  n = 4;
  Poly = ℕ;
  zero_poly = 0;
  add_assign = λ a b. a + b;
  automorphism_rotate = λ p k a. a * (k + 1);
  galois_element = λ i. pos (5 ^ i);
  transpose = λ cols a. tabulate (λ i. get_or (get_elem? a i) 0) 0 cols;
  rsh_assign = λ base2k k a. a / 2 ^ k;
  normalize = λ dst_base2k src_base2k a. a;
}

number_ring-IsAdditive : IsAdditive number_ring
number_ring-IsAdditive = record {
  add_assoc = λ a b c. omega arith;
  add_comm = λ a b. omega arith;
  zero-add = λ a. omega arith;
  length-transpose = λ cols a. length-tabulate _ 0 cols;
}

abbrev masks : List ℕ
masks = 8 ∷ 16 ∷ 24 ∷ 32 ∷ []

abbrev blank : List ℕ
blank = replicate 4 0

abbrev scratch : List ℕ
scratch = replicate 2 0

four-is_power_of_two : is_power_of_two 4 ≡ true
unfolding is_power_of_two trailing_zeros
four-is_power_of_two = refl

two_levels : trailing_zeros 4 ≤ 2
unfolding trailing_zeros
two_levels = omega arith

packing_mask_preprocessing_default_lem_example :
    (out : List ℕ) × (packing_mask_preprocessing_default number_ring 16 masks scratch scratch blank
        blank
      ≡ ok (map (number_ring.normalize 16 (mask_preprocessing_arithmetic_base2k 16)) out))
    × IsPreprocessed number_ring number_ring-IsAdditive
        (input number_ring number_ring-IsAdditive
          (mask_preprocessing_arithmetic_base2k 16)
          (widened number_ring number_ring-IsAdditive 16 masks))
        out
packing_mask_preprocessing_default_lem_example =
    packing_mask_preprocessing_default_lem number_ring number_ring-IsAdditive 16 masks scratch
      scratch blank blank four-is_power_of_two (omega arith) refl refl refl two_levels two_levels

threaded-eq-default_example :
    packing_mask_preprocessing_threaded number_ring 16 3 masks blank blank
    ≡ packing_mask_preprocessing_default number_ring 16 masks scratch scratch blank blank
threaded-eq-default_example =
    threaded-eq-default number_ring number_ring-IsAdditive 16 3 masks scratch scratch blank blank
      four-is_power_of_two (omega arith) refl refl two_levels two_levels

-- A ring of degree 8 and a partial packing of 4.
abbrev octic_ring : Module
octic_ring = record number_ring { n = 8 }

octic_ring-IsAdditive : IsAdditive octic_ring
octic_ring-IsAdditive = record {
  add_assoc = λ a b c. omega arith;
  add_comm = λ a b. omega arith;
  zero-add = λ a. omega arith;
  length-transpose = λ cols a. length-tabulate _ 0 cols;
}

abbrev eight_columns : List ℕ
eight_columns = 8 ∷ 16 ∷ 24 ∷ 32 ∷ 40 ∷ 48 ∷ 56 ∷ 64 ∷ []

eight-is_power_of_two : is_power_of_two 8 ≡ true
unfolding is_power_of_two trailing_zeros
eight-is_power_of_two = refl

abbrev four_terms : List ℕ
four_terms =
    partial_input octic_ring octic_ring-IsAdditive 16 4 3 eight_columns blank blank
      eight-is_power_of_two four-is_power_of_two (omega arith) refl refl refl

packing_mask_preprocessing_partial_lem_example :
    (out : List ℕ) × (packing_mask_preprocessing_partial_default octic_ring 16 4 eight_columns blank
        blank
      ≡ ok (map (octic_ring.normalize 16 (mask_preprocessing_arithmetic_base2k 16)) out))
    × (packing_mask_preprocessing_partial_threaded octic_ring 16 4 3 eight_columns blank blank
        ≡ ok (map (octic_ring.normalize 16 (mask_preprocessing_arithmetic_base2k 16)) out))
    × (length out ≡ 4)
    × ((j : ℕ)
        → j < 4
        → get_elem? out j ≡ some (component octic_ring (element octic_ring 4 j) four_terms))
packing_mask_preprocessing_partial_lem_example =
    packing_mask_preprocessing_partial_lem octic_ring octic_ring-IsAdditive 16 4 3 eight_columns
      blank blank eight-is_power_of_two four-is_power_of_two (omega arith) refl refl refl

-- A full packing of 8: 6 steps in two halves, in groups of 2 and 1, and the step of `key_h`.
abbrev seven_steps : PackingPrecomputations ℕ ℕ ℕ
seven_steps = record {
  body_vmp_masks = replicate 7 0;
  size = 1;
  final_mask = 99;
  bsgs_masks = 1 ∷ 2 ∷ 3 ∷ 4 ∷ 5 ∷ 6 ∷ 7 ∷ [];
  bsgs_giant_plans = 1 ∷ 10 ∷ 100 ∷ 1000 ∷ [];
  bsgs_baby_size = 2;
  base2k = 16;
  steps = 7;
  partial = false;
  stride = 1;
}

seven_steps-IsScheduled : IsScheduled seven_steps
unfolding bsgs_half_steps bsgs_kg_steps
seven_steps-IsScheduled = record {
  half = 3;
  halves = 2;
  half_eq = refl;
  kg_eq = refl;
  halves_eq = refl;
  baby_pos = omega arith;
}

steps_of_lem_example :
    (count kg : ℕ) × (bsgs_group_count seven_steps ≡ ok count)
    × (bsgs_kg_steps seven_steps ≡ ok kg)
    × (steps_of seven_steps 0 count ≡ ok (range 0 kg))
steps_of_lem_example = steps_of_lem seven_steps seven_steps-IsScheduled

abbrev number_dft : DftModule octic_ring
number_dft = record {
  Dft = ℕ;
  Big = ℕ;
  Plan = ℕ;
  Key = ℕ;
  dft_zero = 0;
  dft_add_assign = λ a b. a + b;
  dft_apply = λ a. a;
  vmp_apply = λ mask key. mask * key;
  dft_automorphism = λ plan a. plan * a;
  idft_apply = λ a. a;
  big_normalize = λ dst_base2k src_base2k a. a;
}

abbrev three_keys : PackingKeys ℕ
three_keys = record { baby_key_g_bodies = 3 ∷ 5 ∷ []; key_h_body = some 2 }

seven_steps-IsReady : IsReady number_dft seven_steps three_keys seven_steps-IsScheduled
unfolding seven_steps-IsScheduled div_ceil
seven_steps-IsReady = record {
  masks_len = omega arith;
  plans_len = omega arith;
  keys_len = omega arith;
  last = inr (2, refl, refl, omega arith);
}

pack_default_lem_example :
    (out : ℕ × ℕ) × (direct_pack number_dft seven_steps three_keys seven_steps-IsScheduled 11
      ≡ ok out)
    × (pack_default number_dft seven_steps three_keys 3 (replicate 6 77) 11 ≡ ok out)
pack_default_lem_example =
    pack_default_lem number_dft seven_steps three_keys seven_steps-IsScheduled seven_steps-IsReady 3
      (replicate 6 77) 11 (omega arith) refl
