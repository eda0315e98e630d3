-- ===== src/Server/Gemm/Portable.antt =====
-- The portable `gemm_f64_add` is a kernel: it computes each cell from the old cell, a row and a column.
use poulpy_pir.Prelude.{
  ℕ, zero, suc, ◌+◌, ◌*◌, ◌≤◌, ◌<◌, ◌≡◌, ◌≢◌, refl, ap, ◌∙◌, if◌then◌else◌, Bool-cases, inl, inr,
  List, [], ◌∷◌, length, set, get_elem?-set_self, get_elem?-set_ne, length-set, mul_mono, eq→==,
  arith,
}
use mathlib.Core.Option.{get_or}
use native.Mathlib.Decide.{ℕ_discrete, dec_lt}
use poulpy_pir.Error.{ok}
use poulpy_pir.Server.Float.{Float, entry, tabulate}
use poulpy_pir.Server.Gemm.{Gemm, IsKernel, repeat, add_row, gemm_f64_add, default_gemv_i16_f64_add}

module _ (f : Float) where
  open f use {F64, zero_f, add_f, mul_f, is_zero}

  entry-set_self : (d : List F64) (i : ℕ) (v : F64) → i < length d → entry f (set d i v) i ≡ v
  entry-set_self d i v lt = ap (λ o. get_or o zero_f) (get_elem?-set_self d i v lt)

  entry-set_ne : (d : List F64) (i j : ℕ) (v : F64) → i ≢ j → entry f (set d i v) j ≡ entry f d j
  entry-set_ne d i j v ne = ap (λ o. get_or o zero_f) (get_elem?-set_ne d i j v ne)

  -- The inner loop, over the columns from `j` on.
  module _ (a : F64) (row_out row_in : ℕ) (rhs : List F64) where
    abbrev add_cell : ℕ → List F64 → List F64
    add_cell j d =
        set d (row_out + j) (add_f (entry f d (row_out + j)) (mul_f a (entry f rhs (row_in + j))))

    length-columns : (count j : ℕ) (d : List F64) → length (repeat count j add_cell d) ≡ length d
    unfolding repeat
    length-columns zero j d = refl
    length-columns (suc count) j d =
        length-columns count (j + 1) (add_cell j d)
        ∙ length-set d (row_out + j)
            (add_f (entry f d (row_out + j)) (mul_f a (entry f rhs (row_in + j))))

    columns_outside :
        (count j i : ℕ) (d : List F64)
        → ((k : ℕ) → j ≤ k → k < j + count → row_out + k ≢ i)
        → entry f (repeat count j add_cell d) i ≡ entry f d i
    unfolding repeat
    columns_outside zero j i d away = refl
    columns_outside (suc count) j i d away =
        columns_outside count (j + 1) i (add_cell j d)
          (λ k ge lt. away k (omega arith) (omega arith))
        ∙ entry-set_ne d (row_out + j) i
            (add_f (entry f d (row_out + j)) (mul_f a (entry f rhs (row_in + j))))
            (away j (omega arith) (omega arith))

    columns_inside :
        (count j k : ℕ) (d : List F64)
        → j ≤ k
        → k < j + count
        → row_out + k < length d
        → entry f (repeat count j add_cell d) (row_out + k)
          ≡ add_f (entry f d (row_out + k)) (mul_f a (entry f rhs (row_in + k)))
    unfolding repeat
    columns_inside zero j k d ge lt room = absurd (omega arith)
    columns_inside (suc count) j k d ge lt room =
        let v : F64 = add_f (entry f d (row_out + j)) (mul_f a (entry f rhs (row_in + j))) in
        elim (ℕ_discrete j k) [
          | yes e ↦
              columns_outside count (j + 1) (row_out + k) (add_cell j d)
                (λ l ge' lt' same. absurd (omega arith))
              ∙ rw (← e) (entry-set_self d (row_out + j) v (omega arith))
          | no ne ↦
              columns_inside count (j + 1) k (add_cell j d) (omega arith) (omega arith)
                (omega (arith, length-set d (row_out + j) v))
              ∙ rw (entry-set_ne d (row_out + j) (row_out + k) v (λ e. ne (omega arith)))
        ]

  -- An operation on row `i` of a matrix with `n` columns: what it does to the cells of the row, and
  -- that it leaves the others.
  record IsOnRow (m n i : ℕ) (change : ℕ → F64 → F64) (op : List F64 → List F64) : Type 0 where
    pub len : (d : List F64) → length d ≡ m * n → length (op d) ≡ m * n
    pub here :
        (d : List F64) (j : ℕ)
        → length d ≡ m * n
        → j < n
        → entry f (op d) (i * n + j) ≡ change j (entry f d (i * n + j))
    pub elsewhere :
        (d : List F64) (i' j : ℕ)
        → length d ≡ m * n
        → i ≢ i'
        → j < n
        → entry f (op d) (i' * n + j) ≡ entry f d (i' * n + j)

  -- Rows do not overlap.
  apart_rows : (n i i' j k : ℕ) → i ≢ i' → j < n → k < n → i * n + k ≢ i' * n + j
  apart_rows n i i' j k ne lj lk e = elim (dec_lt i i') [
    | yes lt ↦ absurd (omega (arith, mul_mono (suc i) i' n lt))
    | no ge ↦ absurd (omega (arith, mul_mono (suc i') i n (omega arith)))
  ]

  -- One term of a cell; a factor 0 is skipped.
  abbrev term : F64 → F64 → F64 → F64
  term x a b = if is_zero a then x else add_f x (mul_f a b)

  abbrev pub terms : F64 → List F64 → List F64 → F64
  terms x [] bs = x
  terms x (a ∷ rest) [] = x
  terms x (a ∷ rest) (b ∷ bs) = terms (term x a b) rest bs

  module _ (m k n : ℕ) (lhs rhs : List F64) where
    abbrev row_op : (i p : ℕ) → List F64 → List F64
    row_op i p d =
        let a = entry f lhs (i * k + p) in
        if is_zero a then d else add_row f a (i * n) (p * n) n rhs d

    row_op-IsOnRow :
        (i p : ℕ)
        → i < m
        → IsOnRow m n i
            (λ j x. term x (entry f lhs (i * k + p)) (entry f rhs (p * n + j)))
            (row_op i p)
    row_op-IsOnRow i p lt =
        let a : F64 = entry f lhs (i * k + p) in
        elim (Bool-cases (is_zero a)) [
          | inl skip ↦ record {
            len = λ d len. rw skip len;
            here = λ d j len lj. rw skip;
            elsewhere = λ d i' j len ne lj. rw skip;
          }
          | inr add ↦ record {
            len = λ d len. rw add (length-columns a (i * n) (p * n) rhs n 0 d ∙ len);
            here = λ d j len lj. rw add (
                columns_inside a (i * n) (p * n) rhs n 0 j d (omega arith) (omega arith)
                  (omega (arith, mul_mono (suc i) m n lt)));
            elsewhere = λ d i' j len ne lj. rw add (
                columns_outside a (i * n) (p * n) rhs n 0 (i' * n + j) d
                  (λ l ge ll. apart_rows n i i' j l ne lj (omega arith)));
          }
        ]

    -- The terms `p`, …, `p + count - 1` of a cell.
    abbrev some_terms : (i p count j : ℕ) → F64 → F64
    some_terms i p count j x =
        terms x (tabulate (λ q. entry f lhs (i * k + q)) p count)
          (tabulate (λ q. entry f rhs (q * n + j)) p count)

    whole_row-IsOnRow :
        (i count p : ℕ) → i < m → IsOnRow m n i (some_terms i p count) (repeat count p (row_op i))
    unfolding repeat
    whole_row-IsOnRow i zero p lt = record {
      len = λ d len. len;
      here = λ d j len lj. refl;
      elsewhere = λ d i' j len ne lj. refl;
    }
    whole_row-IsOnRow i (suc count) p lt =
        let first = row_op-IsOnRow i p lt in
        let rest = whole_row-IsOnRow i count (p + 1) lt in
        record {
          len = λ d len. rest.len (row_op i p d) (first.len d len);
          here = λ d j len lj.
              rest.here (row_op i p d) j (first.len d len) lj
              ∙ ap (some_terms i (p + 1) count j) (first.here d j len lj);
          elsewhere = λ d i' j len ne lj.
              rest.elsewhere (row_op i p d) i' j (first.len d len) ne lj
              ∙ first.elsewhere d i' j len ne lj;
        }

    abbrev rows_from : (count i : ℕ) → List F64 → List F64
    rows_from count i = repeat count i (λ i d. repeat k 0 (row_op i) d)

    length-rows_from :
        (count i : ℕ) (d : List F64)
        → i + count ≤ m
        → length d ≡ m * n
        → length (rows_from count i d) ≡ m * n
    unfolding repeat
    length-rows_from zero i d le len = len
    length-rows_from (suc count) i d le len =
        length-rows_from count (i + 1) (repeat k 0 (row_op i) d) (omega arith)
          ((whole_row-IsOnRow i k 0 (omega arith)).len d len)

    rows_outside :
        (count i i' j : ℕ) (d : List F64)
        → i + count ≤ m
        → length d ≡ m * n
        → i' < i
        → j < n
        → entry f (rows_from count i d) (i' * n + j) ≡ entry f d (i' * n + j)
    unfolding repeat
    rows_outside zero i i' j d le len lt lj = refl
    rows_outside (suc count) i i' j d le len lt lj =
        let row = whole_row-IsOnRow i k 0 (omega arith) in
        rows_outside count (i + 1) i' j (repeat k 0 (row_op i) d) (omega arith) (row.len d len)
          (omega arith) lj
        ∙ row.elsewhere d i' j len (λ e. absurd (omega arith)) lj

    rows_inside :
        (count i i' j : ℕ) (d : List F64)
        → i + count ≤ m
        → length d ≡ m * n
        → i ≤ i'
        → i' < i + count
        → j < n
        → entry f (rows_from count i d) (i' * n + j) ≡ some_terms i' 0 k j (entry f d (i' * n + j))
    unfolding repeat
    rows_inside zero i i' j d le len ge lt lj = absurd (omega arith)
    rows_inside (suc count) i i' j d le len ge lt lj =
        let row = whole_row-IsOnRow i k 0 (omega arith) in
        elim (ℕ_discrete i i') [
          | yes e ↦ rw (← e) (
              rows_outside count (i + 1) i j (repeat k 0 (row_op i) d) (omega arith) (row.len d len)
                (omega arith) lj
              ∙ row.here d j len lj)
          | no ne ↦
              rows_inside count (i + 1) i' j (repeat k 0 (row_op i) d) (omega arith) (row.len d len)
                (omega arith) (omega arith) lj
              ∙ ap (some_terms i' 0 k j) (row.elsewhere d i' j len ne lj)
        ]

  -- The portable kernels.
  abbrev pub portable : Gemm f
  portable = record { gemm_f64_add = gemm_f64_add f; gemv_i16_f64_add = default_gemv_i16_f64_add f }

  -- For buffers of the right sizes the portable `gemm_f64_add` returns, and each cell is the old one plus
  -- the products of a row of the left factor and a column of the right one, added one after the other,
  -- without those whose first factor is 0.
  pub gemm_f64_add_lem :
      (dst lhs rhs : List F64) (m k n : ℕ)
      → length dst ≡ m * n
      → length lhs ≡ m * k
      → length rhs ≡ k * n
      → (out : List F64) × (gemm_f64_add f dst lhs rhs m k n ≡ ok out)
        × (length out ≡ m * n)
        × ((i j : ℕ)
            → i < m
            → j < n
            → entry f out (i * n + j)
              ≡ terms
                  (entry f dst (i * n + j))
                  (tabulate (λ p. entry f lhs (i * k + p)) 0 k)
                  (tabulate (λ p. entry f rhs (p * n + j)) 0 k))
  unfolding gemm_f64_add
  gemm_f64_add_lem dst lhs rhs m k n len_dst len_lhs len_rhs = (
    rows_from m k n lhs rhs m 0 dst,
    rw (
      eq→== (length dst) (m * n) len_dst,
      eq→== (length lhs) (m * k) len_lhs,
      eq→== (length rhs) (k * n) len_rhs,
    ),
    length-rows_from m k n lhs rhs m 0 dst (omega arith) len_dst,
    λ i j li lj.
        rows_inside m k n lhs rhs m 0 i j dst (omega arith) len_dst (omega arith) (omega arith) lj,
  )

  -- So a cell depends on its old value, its row and its column only.
  pub portable-IsKernel : IsKernel f portable
  portable-IsKernel = record { cell = terms; returns = gemm_f64_add_lem }
