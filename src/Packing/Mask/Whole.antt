-- ===== src/Packing/Mask/Whole.antt =====
-- The preprocessing with its assertions and its two changes of base.
use poulpy_pir.Prelude.{ℕ, ◌≤◌, ◌≡◌, ◌∙◌, sym, true, List, map, length-map, length, eq→==, le→leb}
use poulpy_pir.Error.{ok}
use poulpy_pir.Packing.{Module, IsAdditive, trailing_zeros, is_power_of_two}
use poulpy_pir.Packing.Mask.{
  mask_preprocessing_arithmetic_base2k, packing_mask_preprocessing_default,
  packing_mask_preprocessing_threaded,
}
use poulpy_pir.Packing.Mask.Columns.{IsPreprocessed, input, packing_mask_preprocessing_work_lem}
use poulpy_pir.Packing.Mask.Threads.{work_threaded-eq-work}

module _ (m : Module) (laws : IsAdditive m) where
  open m use {Poly, n}

  -- The input in the base of the arithmetic.
  abbrev pub widened : ℕ → List Poly → List Poly
  widened base2k a = map (m.normalize (mask_preprocessing_arithmetic_base2k base2k) base2k) a

  -- For a ring degree that is a power of two, at least 2, an input and destinations of `n` columns, and
  -- scratch trees with a column for each level, `packing_mask_preprocessing_default` returns, and what
  -- it returns is every column of the preprocessed mask of the widened input, brought back to `base2k`.
  pub packing_mask_preprocessing_default_lem :
      (base2k : ℕ) (a tree_a tree_b arithmetic_dst dst : List Poly)
      → is_power_of_two n ≡ true
      → 2 ≤ n
      → length a ≡ n
      → length arithmetic_dst ≡ n
      → length dst ≡ n
      → trailing_zeros n ≤ length tree_a
      → trailing_zeros n ≤ length tree_b
      → let wide = mask_preprocessing_arithmetic_base2k base2k in
        (out : List Poly) × (packing_mask_preprocessing_default m base2k a tree_a tree_b
            arithmetic_dst dst
          ≡ ok (map (m.normalize base2k wide) out))
        × IsPreprocessed m laws (input m laws wide (widened base2k a)) out
  unfolding packing_mask_preprocessing_default
  packing_mask_preprocessing_default_lem base2k a tree_a tree_b arithmetic_dst dst pow two len_a
        len_mid len_dst room_a room_b =
      let wide : ℕ = mask_preprocessing_arithmetic_base2k base2k in
      let len : length (widened base2k a) ≡ n = length-map (m.normalize wide base2k) a ∙ len_a in
      let (out, run, done) =
        packing_mask_preprocessing_work_lem m laws wide (widened base2k a) tree_a tree_b
          arithmetic_dst pow two len len_mid room_a room_b in
      (
        out,
        rw (
          pow,
          le→leb 2 n two,
          eq→== (length dst) n len_dst,
          eq→== (length a) n len_a,
          eq→== n (length a) (sym len_a),
          run,
          eq→== (length dst) (length out) (len_dst ∙ sym done.len),
        ),
        done,
      )

  -- For such a ring degree, an input and a destination of `n` columns, and such scratch trees, the
  -- version for several threads returns the same, whatever the number of threads.
  pub threaded-eq-default :
      (base2k intra_threads : ℕ) (a tree_a tree_b arithmetic_dst dst : List Poly)
      → is_power_of_two n ≡ true
      → 2 ≤ n
      → length a ≡ n
      → length dst ≡ n
      → trailing_zeros n ≤ length tree_a
      → trailing_zeros n ≤ length tree_b
      → packing_mask_preprocessing_threaded m base2k intra_threads a arithmetic_dst dst
        ≡ packing_mask_preprocessing_default m base2k a tree_a tree_b arithmetic_dst dst
  unfolding packing_mask_preprocessing_default packing_mask_preprocessing_threaded
  threaded-eq-default base2k intra_threads a tree_a tree_b arithmetic_dst dst pow two len_a len_dst
        room_a room_b =
      let wide : ℕ = mask_preprocessing_arithmetic_base2k base2k in
      rw (
        pow,
        le→leb 2 n two,
        eq→== (length dst) n len_dst,
        eq→== (length a) n len_a,
        eq→== n (length a) (sym len_a),
        work_threaded-eq-work m laws wide intra_threads (widened base2k a) tree_a tree_b
            arithmetic_dst pow two room_a room_b,
      )
