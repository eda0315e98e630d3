-- ===== src/Packing/Mask/Columns.antt =====
-- Every column of the preprocessed mask, on one thread.
use poulpy_pir.Prelude.{
  ℕ, zero, suc, ◌+◌, ◌*◌, ◌/◌, ◌^◌, ◌≤◌, ◌<◌, ◌≡◌, refl, ap, ◌∙◌, true, false, List, some, length,
  get_elem?, get_elem?-map, length-map, length-replicate, negate, arith, eq→==,
}
use poulpy_pir.Error.{ok, ◌>>=◌}
use poulpy_pir.Loop.{for_range, at}
use poulpy_pir.Loop.Suffix.{at-some}
use native.Mathlib.Nat.{pow-succ'}
use poulpy_pir.Packing.{Module, IsAdditive, trailing_zeros, is_power_of_two}
use poulpy_pir.Packing.Mask.{
  Work, range, process_h_full, h_list, shifted, fresh, packing_mask_preprocessing_work,
}
use poulpy_pir.Packing.Mask.Pairs.{
  AreApart, write_pairs, length-write_pairs, write_pairs_left, write_pairs_right,
}
use poulpy_pir.Packing.Mask.Leaves.{column_of, IsRoomy, process_h_full_lem}

pub get_elem?-range :
    (start count i : ℕ) → i < count → get_elem? (range start count) i ≡ some (start + i)
get_elem?-range start zero i h = absurd (omega arith)
get_elem?-range start (suc count) zero h = ap some (omega arith)
get_elem?-range start (suc count) (suc i) h =
    get_elem?-range (start + 1) count i (omega arith) ∙ ap some (omega arith)

module _ (m : Module) (laws : IsAdditive m) (t : List m.Poly) (log_n n_half : ℕ)
    (whole : m.n ≡ 2 ^ log_n) (len : length t ≡ m.n) where
  open m use {Poly, galois_element}

  -- The two columns of the `j`-th automorphism.
  abbrev pub first_column : ℕ → Poly
  first_column j = column_of m laws (negate (galois_element j)) t

  abbrev pub second_column : ℕ → Poly
  second_column j = column_of m laws (galois_element j) t

  pub at-h_list : (j : ℕ) → j < n_half → at (h_list m n_half) j ≡ ok (galois_element j)
  at-h_list j lt = at-some (h_list m n_half) j (galois_element j) (
      get_elem?-map galois_element (range 0 n_half) j (0 + j) (get_elem?-range 0 n_half j lt)
      ∙ ap some (ap galois_element (omega arith)))

  -- A run of rounds, on the automorphisms that `index` names.
  pub rounds :
      (index ca cb : ℕ → ℕ) (count i : ℕ) (w : Work Poly)
      → ((j : ℕ) → i ≤ j → j < i + count → index j < n_half)
      → IsRoomy m laws log_n w.tree_a
      → IsRoomy m laws log_n w.tree_b
      → (w' : Work Poly) × (for_range count i
            (λ j w. do h ← at (h_list m n_half) (index j); process_h_full m t h m.n (ca j) (cb j) w)
            w
          ≡ ok w')
        × (w'.dst
            ≡ write_pairs ca cb
                (λ j. first_column (index j))
                (λ j. second_column (index j))
                count
                i
                w.dst)
  unfolding for_range
  rounds index ca cb zero i w below ra rb = (w, refl, refl)
  rounds index ca cb (suc count) i w below ra rb =
      let (w1, run, same, ra1, rb1) =
        process_h_full_lem m laws t (galois_element (index i)) m.n (ca i) (cb i) log_n w len whole
          ra rb in
      let (w', run', same') =
        rounds index ca cb count (i + 1) w1 (λ j ge lt. below j (omega arith) (omega arith)) ra1
          rb1 in
      (
        w',
        rw (at-h_list (index i) (below i (omega arith) (omega arith)), run) run',
        same' ∙ rw same,
      )

-- The destination holds, for the transposed and shifted input `t`, in each column of its first half the
-- sum for `-h` and at the same place of its second half the sum for `h`, of `h` the Galois element of
-- that place.
pub record IsPreprocessed (m : Module) (laws : IsAdditive m) (t dst : List m.Poly) : Type 0 where
  pub len : length dst ≡ m.n
  pub columns :
      (j : ℕ)
      → j < m.n / 2
      → (get_elem? dst j ≡ some (column_of m laws (negate (m.galois_element j)) t))
        × (get_elem? dst (j + m.n / 2) ≡ some (column_of m laws (m.galois_element j) t))

pub even_of_power : (n log_n : ℕ) → n ≡ 2 ^ log_n → 2 ≤ n → n / 2 * 2 ≡ n
even_of_power n zero e le = absurd (omega arith)
even_of_power n (suc log_n) e le = omega (arith, pow-succ' 2 log_n)

pub halves-AreApart : (half : ℕ) → AreApart half (λ j. j) (λ j. j + half)
halves-AreApart half = record {
  left = λ i j ne. ne;
  right = λ i j ne e. ne (omega arith);
  across = λ i j lt lt' e. absurd (omega arith);
}

pub power_of_two : (n : ℕ) → is_power_of_two n ≡ true → n ≡ 2 ^ trailing_zeros n
unfolding is_power_of_two
power_of_two n h = ground arith

module _ (m : Module) (laws : IsAdditive m) where
  open m use {Poly, n}

  abbrev pub input : (base2k : ℕ) → List Poly → List Poly
  input base2k a = shifted m base2k (trailing_zeros n) n a

  pub length-input : (base2k : ℕ) (a : List Poly) → length (input base2k a) ≡ n
  length-input base2k a =
      length-map (m.rsh_assign base2k (trailing_zeros n)) (m.transpose n a)
      ∙ laws.length-transpose n a

  -- On one thread: for a ring degree that is a power of two, at least 2, an input and a destination
  -- with as many columns, and scratch trees with a column for each level, the preprocessing returns
  -- every column of the preprocessed mask.
  pub packing_mask_preprocessing_work_lem :
      (base2k : ℕ) (a tree_a tree_b dst : List Poly)
      → is_power_of_two n ≡ true
      → 2 ≤ n
      → length a ≡ n
      → length dst ≡ n
      → trailing_zeros n ≤ length tree_a
      → trailing_zeros n ≤ length tree_b
      → (out : List Poly) × (packing_mask_preprocessing_work m base2k a tree_a tree_b dst ≡ ok out)
        × IsPreprocessed m laws (input base2k a) out
  unfolding packing_mask_preprocessing_work
  packing_mask_preprocessing_work_lem base2k a tree_a tree_b dst pow two len_a len_dst room_a
        room_b =
      let log_n : ℕ = trailing_zeros n in
      let half : ℕ = n / 2 in
      let t : List Poly = input base2k a in
      let whole : n ≡ 2 ^ log_n = power_of_two n pow in
      let even : half * 2 ≡ n = even_of_power n log_n whole two in
      let (w, run, same) =
        rounds m laws t log_n half whole (length-input base2k a) (λ j. j) (λ j. j) (λ j. j + half)
          half 0 (fresh m log_n tree_a tree_b dst) (λ j ge lt. omega arith)
          (record { room = room_a; height = length-replicate log_n false })
          (record { room = room_b; height = length-replicate log_n false }) in
      let firsts : ℕ → Poly = first_column m laws t log_n half whole (length-input base2k a) in
      let seconds : ℕ → Poly = second_column m laws t log_n half whole (length-input base2k a) in
      (
        w.dst,
        rw (eq→== (length dst) n len_dst, eq→== (length a) n len_a, run),
        record {
          len =
              rw same
                (length-write_pairs (λ j. j) (λ j. j + half) firsts seconds half 0 dst ∙ len_dst);
          columns = λ j lt. (
            rw same (
                write_pairs_left (λ j. j) (λ j. j + half) firsts seconds half (halves-AreApart half)
                  half 0 j dst (omega arith) (omega arith) (omega arith) (omega arith)),
            rw same (
                write_pairs_right (λ j. j) (λ j. j + half) firsts seconds half
                  (halves-AreApart half) half 0 j dst (omega arith) (omega arith) (omega arith)
                  (omega arith)),
          );
        },
      )
