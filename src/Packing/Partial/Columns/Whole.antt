-- ===== src/Packing/Partial/Columns/Whole.antt =====
-- The partial preprocessing with its assertions and its changes of base.
use poulpy_pir.Prelude.{
  ℕ, suc, ◌/◌, ◌%◌, ◌≤◌, ◌<◌, ◌≡◌, refl, sym, ◌∙◌, true, List, [], ◌∷◌, ap₂, some, map, length,
  length-map, replicate, length-replicate, get_elem?, eq→==, le→leb, arith,
}
use native.Mathlib.Nat.{one-le-pow}
use poulpy_pir.Error.{ok}
use poulpy_pir.Parallel.{clamp_from_one}
use poulpy_pir.Parallel.Dealt.{dealt, dealt_whole}
use poulpy_pir.Packing.{Module, IsAdditive, trailing_zeros, is_power_of_two}
use poulpy_pir.Packing.Mask.{shifted, mask_preprocessing_arithmetic_base2k}
use poulpy_pir.Packing.Mask.Columns.{power_of_two}
use poulpy_pir.Packing.Partial.{
  packing_mask_preprocessing_partial_work, packing_mask_preprocessing_partial_work_threaded,
  packing_mask_preprocessing_partial_default, packing_mask_preprocessing_partial_threaded,
}
use poulpy_pir.Packing.Partial.Terms.{component}
use poulpy_pir.Packing.Partial.Columns.{
  components, element, write_run, length-write_run, write_run_inside, get_elem?-replicate,
  sequential_rounds, gathered,
}

get_elem?-ext {ℓ} :
    {A : Type ℓ} (xs ys : List A)
    → length xs ≡ length ys
    → ((i : ℕ) → i < length xs → get_elem? xs i ≡ get_elem? ys i)
    → xs ≡ ys
get_elem?-ext [] [] len same = refl
get_elem?-ext [] (y ∷ ys) len same = absurd (omega arith)
get_elem?-ext (x ∷ xs) [] len same = absurd (omega arith)
get_elem?-ext (x ∷ xs) (y ∷ ys) len same =
    let here : some x ≡ some y = same 0 (omega arith) in
    ap₂ ◌∷◌ (cc here) (get_elem?-ext xs ys (omega arith) (λ i lt. same (suc i) (omega arith)))

module _ (m : Module) (laws : IsAdditive m) (base2k gamma intra_threads : ℕ)
    (a arithmetic_dst dst : List m.Poly) (pow_n : is_power_of_two m.n ≡ true)
    (pow_gamma : is_power_of_two gamma ≡ true) (le : gamma ≤ m.n / 2) (len_a : length a ≡ m.n)
    (len_mid : length arithmetic_dst ≡ gamma) (len_dst : length dst ≡ gamma) where
  open m use {Poly, n, zero_poly}

  abbrev wide : ℕ
  wide = mask_preprocessing_arithmetic_base2k base2k

  -- The input in the base of the arithmetic, transposed and shifted.
  abbrev pub partial_input : List Poly
  partial_input = shifted m wide (trailing_zeros gamma) gamma (map (m.normalize wide base2k) a)

  length-partial_input : length partial_input ≡ gamma
  length-partial_input =
      length-map (m.rsh_assign wide (trailing_zeros gamma))
        (m.transpose gamma (map (m.normalize wide base2k) a))
      ∙ laws.length-transpose gamma (map (m.normalize wide base2k) a)

  abbrev parts : ℕ → Poly
  parts = components m gamma partial_input length-partial_input

  abbrev columns : List Poly
  columns = write_run parts gamma 0 (replicate gamma zero_poly)

  gamma_pos : 0 < gamma
  gamma_pos = omega (arith, power_of_two gamma pow_gamma, one-le-pow (trailing_zeros gamma) 2)

  work_lem :
      packing_mask_preprocessing_partial_work m wide gamma
        (map (m.normalize wide base2k) a)
        arithmetic_dst
      ≡ ok columns
  unfolding packing_mask_preprocessing_partial_work
  work_lem =
      rw
        (
          eq→== (length arithmetic_dst) gamma len_mid,
          eq→== (length (map (m.normalize wide base2k) a)) n
              (length-map (m.normalize wide base2k) a ∙ len_a),
        )
        (sequential_rounds m gamma partial_input length-partial_input gamma 0
          (replicate gamma zero_poly) (omega arith) (length-replicate gamma zero_poly)
          (λ j ge lt. get_elem?-replicate gamma j zero_poly lt))

  threaded_work_lem :
      packing_mask_preprocessing_partial_work_threaded m wide gamma intra_threads
        (map (m.normalize wide base2k) a)
        arithmetic_dst
      ≡ ok (write_run parts gamma 0 arithmetic_dst)
  unfolding packing_mask_preprocessing_partial_work_threaded
  threaded_work_lem =
      let nt : ℕ = clamp_from_one intra_threads gamma in
      let share : dealt (gamma / nt) (gamma % nt) nt 0 ≡ gamma =
        dealt_whole intra_threads gamma gamma_pos in
      let (locals, run, all) =
        gathered m gamma partial_input length-partial_input (gamma / nt) (gamma % nt) nt 0 0
          (omega (arith, share)) in
      rw (
        eq→== (length arithmetic_dst) gamma len_mid,
        eq→== (length (map (m.normalize wide base2k) a)) n
            (length-map (m.normalize wide base2k) a ∙ len_a),
        run,
        all arithmetic_dst,
        share,
      )

  len_columns : length columns ≡ gamma
  len_columns =
      length-write_run parts gamma 0 (replicate gamma zero_poly) ∙ length-replicate gamma zero_poly

  same_columns : write_run parts gamma 0 arithmetic_dst ≡ columns
  same_columns =
      let len : length (write_run parts gamma 0 arithmetic_dst) ≡ gamma =
        length-write_run parts gamma 0 arithmetic_dst ∙ len_mid in
      get_elem?-ext (write_run parts gamma 0 arithmetic_dst) columns (len ∙ sym len_columns)
        (λ i lt.
          write_run_inside parts gamma 0 i arithmetic_dst (omega arith) (omega arith) (omega arith)
          ∙ sym (
              write_run_inside parts gamma 0 i (replicate gamma zero_poly) (omega arith)
                (omega arith) (omega (arith, length-replicate gamma zero_poly))))

  -- For a ring degree and a `gamma` that are powers of two, `gamma` half the degree at most, an input of
  -- `n` columns and destinations of `gamma`, the partial preprocessing returns. Its column `j` is, in the
  -- base of the arithmetic, the sum of the polynomials of the transposed and shifted input under the
  -- automorphism for minus the `j`-th element of stride `n / 2 / gamma`, the `k`-th times `X^k`; and on
  -- any number of threads it returns the same.
  pub packing_mask_preprocessing_partial_lem :
      (out : List Poly) × (packing_mask_preprocessing_partial_default m base2k gamma a
          arithmetic_dst dst
        ≡ ok (map (m.normalize base2k wide) out))
      × (packing_mask_preprocessing_partial_threaded m base2k gamma intra_threads a arithmetic_dst
            dst
          ≡ ok (map (m.normalize base2k wide) out))
      × (length out ≡ gamma)
      × ((j : ℕ)
          → j < gamma
          → get_elem? out j ≡ some (component m (element m gamma j) partial_input))
  unfolding packing_mask_preprocessing_partial_default packing_mask_preprocessing_partial_threaded
  packing_mask_preprocessing_partial_lem = (
    columns,
    rw (
      pow_n,
      pow_gamma,
      le→leb gamma (n / 2) le,
      eq→== (length dst) gamma len_dst,
      eq→== (length a) n len_a,
      eq→== n (length a) (sym len_a),
      work_lem,
      eq→== (length dst) (length columns) (len_dst ∙ sym len_columns),
    ),
    rw (
      pow_gamma,
      le→leb gamma (n / 2) le,
      eq→== n (length a) (sym len_a),
      threaded_work_lem,
      same_columns,
      eq→== (length dst) (length columns) (len_dst ∙ sym len_columns),
    ),
    len_columns,
    λ j lt.
        write_run_inside parts gamma 0 j (replicate gamma zero_poly) (omega arith) (omega arith)
          (omega (arith, length-replicate gamma zero_poly)),
  )
