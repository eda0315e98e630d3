-- ===== src/Packing/Mask.antt =====
-- src/packing/packing_mask_preprocessing.rs: the columns of a preprocessed mask, each a sum of rotated
-- automorphisms, for a full and for a partial packing, on one thread and on several.
pub mod Pairs
pub mod Leaves
pub mod Columns
pub mod Threads
pub mod Whole
use poulpy_pir.Prelude.{
  ℕ, zero, suc, ◌+◌, ◌*◌, ◌/◌, ◌%◌, max, min, Bool, true, false, ◌&&◌, ◌==◌, leb, ℤ, negate, List,
  [], ◌∷◌, ◌++◌, map, length, set, replicate, div_ceil,
}
use poulpy_pir.Error.{Result, ok, panic, assert, ◌>>=◌, ◌>>◌}
use poulpy_pir.Loop.{for_range, at}
use poulpy_pir.Parallel.{clamp_from_one, ranges}
use poulpy_pir.Packing.{Module, trailing_zeros, is_power_of_two}
use poulpy_pir.Packing.Tree.{Tree, binary_tree_step}

-- `MASK_PREPROCESSING_ARITHMETIC_BASE2K`.
abbrev pub arithmetic_base2k : ℕ
arithmetic_base2k = 60

unfoldable pub mask_preprocessing_arithmetic_base2k : ℕ → ℕ
mask_preprocessing_arithmetic_base2k base2k = max arithmetic_base2k base2k

unfoldable pub mask_preprocessing_arithmetic_size : (size base2k : ℕ) → ℕ
unfolding mask_preprocessing_arithmetic_base2k
mask_preprocessing_arithmetic_size size base2k =
    max (div_ceil (size * base2k) (mask_preprocessing_arithmetic_base2k base2k)) 1

-- `(i..i + count).collect()`.
abbrev pub range : ℕ → ℕ → List ℕ
range i zero = []
range i (suc count) = i ∷ range (i + 1) count

-- The two trees of the workers, and the destination.
pub record Work (Poly : Type 0) : Type 0 where
  pub tree_a : Tree Poly
  pub tree_b : Tree Poly
  pub dst : List Poly

module _ (m : Module) where
  open m use {Poly, n, automorphism_rotate, galois_element}

  abbrev pub cleared : Tree Poly → Tree Poly
  cleared tree = record { levels = tree.levels; occupied = replicate (length tree.occupied) false }

  -- One round of the loop of `process_h_full`.
  abbrev pub stream_leaf : List Poly → ℤ → (col_a col_b k : ℕ) → Work Poly → Result (Work Poly)
  stream_leaf t h col_a col_b k w = do
    t_k ← at t k
    let shared = automorphism_rotate h k t_k
    let stage_a = automorphism_rotate (negate h) k t_k
    (tree_a, dst) ← binary_tree_step m stage_a w.tree_a w.dst col_a
    (tree_b, dst') ← binary_tree_step m shared w.tree_b dst col_b
    ok (record { tree_a = tree_a; tree_b = tree_b; dst = dst' })

  unfoldable pub process_h_full :
      List Poly → ℤ → (n col_a col_b : ℕ) → Work Poly → Result (Work Poly)
  unfolding binary_tree_step for_range
  process_h_full t h n col_a col_b w =
      for_range n 0 (stream_leaf t h col_a col_b)
        (record w { tree_a = cleared w.tree_a; tree_b = cleared w.tree_b })

  abbrev pub h_list : ℕ → List ℤ
  h_list n_half = map galois_element (range 0 n_half)

  -- The transposed input, each column shifted by `log_n` bits.
  abbrev pub shifted : (base2k log_n cols : ℕ) → List Poly → List Poly
  shifted base2k log_n cols a = map (m.rsh_assign base2k log_n) (m.transpose cols a)

  -- Trees over the given scratch columns, with no level occupied.
  abbrev pub fresh : (log_n : ℕ) → (tree_a tree_b dst : List Poly) → Work Poly
  fresh log_n tree_a tree_b dst = record {
    tree_a = record { levels = tree_a; occupied = replicate log_n false };
    tree_b = record { levels = tree_b; occupied = replicate log_n false };
    dst = dst;
  }

  -- The columns `col_a` and `col_b` of the `j`-th round stand at `j` and `j + n_half`.
  unfoldable pub packing_mask_preprocessing_work :
      (base2k : ℕ) → (a tree_a tree_b dst : List Poly) → Result (List Poly)
  unfolding process_h_full trailing_zeros
  packing_mask_preprocessing_work base2k a tree_a tree_b dst = do
    assert (length dst == n)
    assert (length a == n)
    let n_half = n / 2
    let log_n = trailing_zeros n
    let t = shifted base2k log_n n a
    w ←
        for_range n_half 0
          (λ j w. do h ← at (h_list n_half) j; process_h_full t h n j (j + n_half) w)
          (fresh log_n tree_a tree_b dst)
    ok w.dst

  -- `normalize_mask_preprocessing_input`, and `_output`, which does the same.
  unfoldable pub normalize_mask_preprocessing :
      (cols dst_base2k src_base2k : ℕ) → List Poly → Result (List Poly)
  normalize_mask_preprocessing cols dst_base2k src_base2k src = do
    assert (cols == length src)
    ok (map (m.normalize dst_base2k src_base2k) src)

  unfoldable pub packing_mask_preprocessing_default :
      (base2k : ℕ) → (a tree_a tree_b arithmetic_dst dst : List Poly) → Result (List Poly)
  unfolding normalize_mask_preprocessing
  packing_mask_preprocessing_default base2k a tree_a tree_b arithmetic_dst dst = do
    assert (is_power_of_two n)
    assert (leb 2 n)
    assert (length dst == n)
    assert (length a == n)
    let wide = mask_preprocessing_arithmetic_base2k base2k
    arithmetic_input ← normalize_mask_preprocessing n wide base2k a
    out ← packing_mask_preprocessing_work wide arithmetic_input tree_a tree_b arithmetic_dst
    normalize_mask_preprocessing (length dst) base2k wide out

  -- A worker's columns `2 * jj` and `2 * jj + 1` are those of its `jj`-th element.
  abbrev pub worker : List Poly → (log_n n_half start len : ℕ) → Result (List Poly)
  worker t log_n n_half start len = do
    let tree = replicate log_n m.zero_poly
    w ←
        for_range len 0
          (λ jj w. do
            h ← at (h_list n_half) (start + jj)
            process_h_full t h n (2 * jj) (2 * jj + 1) w)
          (fresh log_n tree tree (replicate (2 * max len 1) m.zero_poly))
    ok w.dst

  abbrev pub workers :
      List Poly → (log_n n_half : ℕ) → List (ℕ × ℕ) → Result (List (ℕ × ℕ × List Poly))
  workers t log_n n_half [] = ok []
  workers t log_n n_half ((start, len) ∷ rest) = do
    local ← worker t log_n n_half start len
    locals ← workers t log_n n_half rest
    ok ((start, len, local) ∷ locals)

  -- The copies of the columns of the workers into `dst`.
  abbrev pub collect : (n_half : ℕ) → List (ℕ × ℕ × List Poly) → List Poly → Result (List Poly)
  collect n_half [] dst = ok dst
  collect n_half ((start, len, local) ∷ rest) dst = do
    dst' ←
        for_range len 0
          (λ jj dst. do
            a ← at local (2 * jj)
            b ← at local (2 * jj + 1)
            ok (set (set dst (start + jj) a) (start + jj + n_half) b))
          dst
    collect n_half rest dst'

  unfoldable pub packing_mask_preprocessing_work_threaded :
      (base2k intra_threads : ℕ) → (a dst : List Poly) → Result (List Poly)
  unfolding process_h_full trailing_zeros for_range
  packing_mask_preprocessing_work_threaded base2k intra_threads a dst = do
    assert (length dst == n)
    assert (length a == n)
    let n_half = n / 2
    let log_n = trailing_zeros n
    let nt = clamp_from_one intra_threads n_half
    let t = shifted base2k log_n n a
    locals ← workers t log_n n_half (ranges (n_half / nt) (n_half % nt) nt 0 0)
    collect n_half locals dst

  unfoldable pub packing_mask_preprocessing_threaded :
      (base2k intra_threads : ℕ) → (a arithmetic_dst dst : List Poly) → Result (List Poly)
  unfolding normalize_mask_preprocessing
  packing_mask_preprocessing_threaded base2k intra_threads a arithmetic_dst dst = do
    let wide = mask_preprocessing_arithmetic_base2k base2k
    arithmetic_input ← normalize_mask_preprocessing n wide base2k a
    out ←
        packing_mask_preprocessing_work_threaded wide intra_threads arithmetic_input arithmetic_dst
    normalize_mask_preprocessing (length dst) base2k wide out
