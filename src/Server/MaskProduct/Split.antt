-- ===== src/Server/MaskProduct/Split.antt =====
-- The product in strips of columns is the product on one thread.
use poulpy_pir.Prelude.{
  ℕ, zero, suc, ◌+◌, ◌-◌, ◌*◌, ◌/◌, ◌%◌, ◌≤◌, ◌<◌, ◌≡◌, refl, sym, ap, ◌∙◌, leb, Bool-cases, inl,
  inr, List, length, replicate, length-replicate, get_elem?, mod_bound, div-lt_of_lt_mul, arith,
}
use mathlib.Core.Option.{get_or}
use native.Mathlib.Nat.{div-add-mod}
use native.Mathlib.Decide.{dec_lt}
use poulpy_pir.Error.{ok}
use poulpy_pir.Parallel.{clamp_from_one, group_len, ranges}
use poulpy_pir.Parallel.Dealt.{dealt, dealt_whole}
use poulpy_pir.Server.Float.{Float, entry, entry_ext}
use poulpy_pir.Server.Gemm.{Gemm, IsKernel}
use poulpy_pir.Server.MaskProduct.{
  PreparedF64, QueryMask, MaskSplit, accumulate_mask_range, strip_product, strips_product,
  mask_product_acc, rhs_strip, place_strip,
}
use poulpy_pir.Server.MaskProduct.Strip.{
  length-rhs_strip, get_elem?-rhs_strip, length-place_strip, place_strip_inside, place_strip_before,
}
use poulpy_pir.Server.MaskProduct.Cells.{AreShaped, cell_over, fold_lem}

module _ (f : Float) (g : Gemm f) (kernel : IsKernel f g) (prepared : List PreparedF64)
    (masks : List (QueryMask f)) (rows_out lwe_n : ℕ)
    (shaped : AreShaped f rows_out lwe_n prepared masks) where
  open f use {F64, zero_f}

  entry-replicate : (k i : ℕ) → entry f (replicate k zero_f) i ≡ zero_f
  entry-replicate zero i = refl
  entry-replicate (suc k) zero = refl
  entry-replicate (suc k) (suc i) = entry-replicate k i

  -- The cell of the whole product.
  abbrev pub product_cell : (r c : ℕ) → F64
  product_cell r c = cell_over f rows_out lwe_n g kernel prepared masks r c zero_f

  -- The first `columns` columns are those of the product.
  abbrev HasColumns : ℕ → List F64 → Type 0
  HasColumns columns acc =
      (length acc ≡ rows_out * lwe_n)
      × ((r c : ℕ) → r < rows_out → c < columns → entry f acc (r * lwe_n + c) ≡ product_cell r c)

  abbrev blank : ℕ → List F64
  blank width = replicate (rows_out * width) zero_f

  whole_lem :
      (out : List F64) × (accumulate_mask_range f g prepared masks rows_out lwe_n 0
          (length prepared)
          (blank lwe_n)
        ≡ ok out)
      × HasColumns lwe_n out
  unfolding accumulate_mask_range
  whole_lem =
      let (out, run, len, cells) =
        fold_lem f rows_out lwe_n g kernel (λ u a. a.values) lwe_n 0
          (λ u a size. (size, λ p c lt lc. ap (entry f a.values) (omega arith))) prepared masks
          prepared masks 0 (blank lwe_n) refl refl shaped
          (length-replicate (rows_out * lwe_n) zero_f) in
      (
        out,
        run,
        (
          len,
          λ r c lr lc.
              cells r c lr lc
              ∙ ap
                  (λ (p : ℕ).
                    cell_over f rows_out lwe_n g kernel prepared masks r p
                      (entry f (blank lwe_n) (r * lwe_n + c)))
                  (omega arith)
              ∙ ap (cell_over f rows_out lwe_n g kernel prepared masks r c)
                  (entry-replicate (rows_out * lwe_n) (r * lwe_n + c)),
        ),
      )

  strip_lem :
      (start width : ℕ)
      → start + width ≤ lwe_n
      → (local : List F64) × (strip_product f g prepared masks rows_out lwe_n start width
          ≡ ok local)
        × (length local ≡ rows_out * width)
        × ((r c : ℕ)
            → r < rows_out
            → c < width
            → entry f local (r * width + c) ≡ product_cell r (start + c))
  unfolding strip_product
  strip_lem start width le =
      let (local, run, len, cells) =
        fold_lem f rows_out lwe_n g kernel
          (λ u a. rhs_strip f a.values lwe_n start width 0 u.rows_in) width start
          (λ u a size. (
            length-rhs_strip f lwe_n start width le a.values 0 u.rows_in (omega (arith, size)),
            λ p c lt lc.
                ap (λ o. get_or o zero_f)
                  (get_elem?-rhs_strip f lwe_n start width le a.values 0 u.rows_in p c
                      (omega (arith, size)) lt lc
                    ∙ ap (get_elem? a.values) (omega arith)),
          ))
          prepared masks prepared masks 0 (blank width) refl refl shaped
          (length-replicate (rows_out * width) zero_f) in
      (
        local,
        run,
        len,
        λ r c lr lc.
            cells r c lr lc
            ∙ ap (cell_over f rows_out lwe_n g kernel prepared masks r (start + c))
                (entry-replicate (rows_out * width) (r * width + c)),
      )

  strips_lem :
      (base rem left i start : ℕ) (acc : List F64)
      → start + dealt base rem left i ≤ lwe_n
      → HasColumns start acc
      → (out : List F64) × (strips_product f g prepared masks rows_out lwe_n
            (ranges base rem left i start)
            acc
          ≡ ok out)
        × HasColumns (start + dealt base rem left i) out
  unfolding strips_product dealt
  strips_lem base rem zero i start acc le (len, cells) =
      (acc, refl, (len, λ r c lr lc. cells r c lr (omega arith)))
  strips_lem base rem (suc left) i start acc le (len, cells) =
      let width : ℕ = group_len base rem i in
      let inside : start + width ≤ lwe_n = omega arith in
      let (local, run, size, mine) = strip_lem start width inside in
      let next : List F64 = place_strip f lwe_n start width local 0 rows_out acc in
      let (out, run', (len', cells')) =
        strips_lem base rem left (i + 1) (start + width) next (omega arith) (
          length-place_strip f lwe_n start width inside local rows_out size 0 rows_out acc
              (omega arith) len,
          λ r c lr lc. elim (dec_lt c start) [
            | yes before ↦
                ap (λ o. get_or o zero_f)
                  (place_strip_before f lwe_n start width inside local rows_out size 0 rows_out r c
                    acc (omega arith) len lr before)
                ∙ cells r c lr before
            | no within ↦
                strip_cell start width inside local size mine acc len r c lr (omega arith) lc
          ],
        ) in
      (out, rw run run', (len', λ r c lr lc. cells' r c lr (omega arith)))
    where
      strip_cell :
          (start width : ℕ) (inside : start + width ≤ lwe_n) (local : List F64)
          (size : length local ≡ rows_out * width)
          → ((r c : ℕ)
              → r < rows_out
              → c < width
              → entry f local (r * width + c) ≡ product_cell r (start + c))
          → (acc : List F64) → length acc ≡ rows_out * lwe_n
          → (r c : ℕ) → r < rows_out
          → start ≤ c
          → c < start + width
          → entry f (place_strip f lwe_n start width local 0 rows_out acc) (r * lwe_n + c)
            ≡ product_cell r c
      strip_cell start width inside local size mine acc len r c lr ge lc =
          let col : ℕ = c - start in
          let e : start + col ≡ c = omega arith in
          rw (← e) (
            ap (λ o. get_or o zero_f)
              (place_strip_inside f lwe_n start width inside local rows_out size 0 rows_out r col
                acc (omega arith) len (omega arith) lr (omega arith))
            ∙ mine r col lr (omega arith))

  same_product :
      (xs ys : List F64) → 0 < lwe_n → HasColumns lwe_n xs → HasColumns lwe_n ys → xs ≡ ys
  same_product xs ys pos (len, cells) (len', cells') = entry_ext f xs ys (len ∙ sym len') (λ i lt.
      let r : ℕ = i / lwe_n in
      let c : ℕ = i % lwe_n in
      let e : r * lwe_n + c ≡ i = omega (arith, div-add-mod i lwe_n) in
      let lr : r < rows_out = div-lt_of_lt_mul i rows_out lwe_n (omega arith) in
      let lc : c < lwe_n = mod_bound i lwe_n pos in
      rw (← e) (cells r c lr lc ∙ sym (cells' r c lr lc)))

  -- Split by columns, the mask product does not depend on the number of threads: it returns what one
  -- thread returns, bit for bit, for any kernel that computes a cell from the old cell, a row and a
  -- column, blocks and masks of the sizes that the caller asserts, and at least one column.
  pub mask_product_acc_cols :
      (mask_threads : ℕ)
      → 0 < lwe_n
      → (out : List F64) × (mask_product_acc f g MaskSplit.cols prepared masks rows_out lwe_n
            mask_threads
          ≡ ok out)
        × (accumulate_mask_range f g prepared masks rows_out lwe_n 0 (length prepared) (blank lwe_n)
            ≡ ok out)
  unfolding mask_product_acc
  mask_product_acc_cols mask_threads pos =
      let (out, run, has) = whole_lem in
      let nt : ℕ = clamp_from_one mask_threads lwe_n in
      let share : dealt (lwe_n / nt) (lwe_n % nt) nt 0 ≡ lwe_n =
        dealt_whole mask_threads lwe_n pos in
      let (out', run', (len', cells')) =
        strips_lem (lwe_n / nt) (lwe_n % nt) nt 0 0 (blank lwe_n) (omega arith)
          (length-replicate (rows_out * lwe_n) zero_f, λ r c lr lc. absurd (omega arith)) in
      let same : out' ≡ out =
        same_product out' out pos (len', λ r c lr lc. cells' r c lr (omega arith)) has in
      (
        out,
        elim (Bool-cases (leb nt 1)) [
          | inl one ↦ rw one run
          | inr more ↦ rw more (run' ∙ ap ok same)
        ],
        run,
      )
