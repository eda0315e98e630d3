-- ===== src/Packing/Partial.antt =====
-- src/packing/packing_mask_preprocessing.rs: the preprocessing of a mask for a partial packing of `gamma`
-- ciphertexts, on one thread and on several. The degrees of the columns are the backend's.
pub mod Terms
pub mod Columns
use poulpy_pir.Prelude.{
  ℕ, zero, suc, ◌+◌, ◌*◌, ◌/◌, ◌%◌, max, ◌==◌, leb, ℤ, negate, List, [], ◌∷◌, map, length, set,
  replicate,
}
use poulpy_pir.Error.{Result, ok, assert, ◌>>=◌, ◌>>◌}
use poulpy_pir.Loop.{for_range, at}
use poulpy_pir.Parallel.{clamp_from_one, ranges}
use poulpy_pir.Packing.{Module, trailing_zeros, is_power_of_two}
use poulpy_pir.Packing.Mask.{
  range, shifted, mask_preprocessing_arithmetic_base2k, normalize_mask_preprocessing,
}

module _ (m : Module) where
  open m use {Poly, n, zero_poly, add_assign, automorphism_rotate, galois_element}

  -- The body of the innermost loop.
  abbrev pub add_term : List Poly → ℤ → (dst_col k : ℕ) → List Poly → Result (List Poly)
  add_term t h dst_col k dst = do
    t_k ← at t k
    d ← at dst dst_col
    ok (set dst dst_col (add_assign d (automorphism_rotate (negate h) k t_k)))

  unfoldable pub process_h_partial :
      List Poly → ℤ → (gamma : ℕ) → List Poly → (dst_col : ℕ) → Result (List Poly)
  unfolding for_range
  process_h_partial t h gamma dst dst_col =
      for_range gamma 0 (add_term t h dst_col) (set dst dst_col zero_poly)

  -- The Galois elements of the powers of the generator `5 ^ stride`.
  abbrev pub strided_h_list : ℕ → List ℤ
  strided_h_list gamma = map (λ i. galois_element (n / 2 / gamma * i)) (range 0 gamma)

  unfoldable pub packing_mask_preprocessing_partial_work :
      (base2k gamma : ℕ) → (a dst : List Poly) → Result (List Poly)
  unfolding for_range trailing_zeros
  packing_mask_preprocessing_partial_work base2k gamma a dst = do
    assert (length dst == gamma)
    assert (length a == n)
    let t = shifted m base2k (trailing_zeros gamma) gamma a
    for_range gamma 0
        (λ j dst. do h ← at (strided_h_list gamma) j; for_range gamma 0 (add_term t h j) dst)
        (replicate gamma zero_poly)

  unfoldable pub packing_mask_preprocessing_partial_default :
      (base2k gamma : ℕ) → (a arithmetic_dst dst : List Poly) → Result (List Poly)
  unfolding normalize_mask_preprocessing packing_mask_preprocessing_partial_work
  packing_mask_preprocessing_partial_default base2k gamma a arithmetic_dst dst = do
    assert (is_power_of_two n)
    assert (is_power_of_two gamma)
    assert (leb gamma (n / 2))
    assert (length dst == gamma)
    assert (length a == n)
    let wide = mask_preprocessing_arithmetic_base2k base2k
    arithmetic_input ← normalize_mask_preprocessing m n wide base2k a
    out ← packing_mask_preprocessing_partial_work wide gamma arithmetic_input arithmetic_dst
    normalize_mask_preprocessing m (length dst) base2k wide out

  -- A worker's column `jj` is that of its `jj`-th element.
  abbrev pub partial_worker : List Poly → (gamma start len : ℕ) → Result (List Poly)
  partial_worker t gamma start len =
      for_range len 0
        (λ jj dst. do
          h ← at (strided_h_list gamma) (start + jj)
          process_h_partial t h gamma dst jj)
        (replicate (max len 1) zero_poly)

  abbrev pub partial_workers :
      List Poly → (gamma : ℕ) → List (ℕ × ℕ) → Result (List (ℕ × ℕ × List Poly))
  partial_workers t gamma [] = ok []
  partial_workers t gamma ((start, len) ∷ rest) = do
    local ← partial_worker t gamma start len
    locals ← partial_workers t gamma rest
    ok ((start, len, local) ∷ locals)

  -- The copies of the columns of the workers into `dst`.
  abbrev pub merge : List (ℕ × ℕ × List Poly) → List Poly → Result (List Poly)
  merge [] dst = ok dst
  merge ((start, len, local) ∷ rest) dst = do
    dst' ← for_range len 0 (λ jj dst. do a ← at local jj; ok (set dst (start + jj) a)) dst
    merge rest dst'

  unfoldable pub packing_mask_preprocessing_partial_work_threaded :
      (base2k gamma intra_threads : ℕ) → (a dst : List Poly) → Result (List Poly)
  unfolding process_h_partial for_range trailing_zeros
  packing_mask_preprocessing_partial_work_threaded base2k gamma intra_threads a dst = do
    assert (length dst == gamma)
    assert (length a == n)
    let nt = clamp_from_one intra_threads gamma
    let t = shifted m base2k (trailing_zeros gamma) gamma a
    locals ← partial_workers t gamma (ranges (gamma / nt) (gamma % nt) nt 0 0)
    merge locals dst

  unfoldable pub packing_mask_preprocessing_partial_threaded :
      (base2k gamma intra_threads : ℕ) → (a arithmetic_dst dst : List Poly) → Result (List Poly)
  unfolding normalize_mask_preprocessing
  packing_mask_preprocessing_partial_threaded base2k gamma intra_threads a arithmetic_dst dst = do
    assert (is_power_of_two gamma)
    assert (leb gamma (n / 2))
    let wide = mask_preprocessing_arithmetic_base2k base2k
    arithmetic_input ← normalize_mask_preprocessing m n wide base2k a
    out ←
        packing_mask_preprocessing_partial_work_threaded wide gamma intra_threads arithmetic_input
          arithmetic_dst
    normalize_mask_preprocessing m (length dst) base2k wide out
