-- ===== src/Server/MaskProduct.antt =====
-- src/server/common.rs: the product of the database with the query masks, whole or in strips.
pub mod Strip
pub mod Cells
pub mod Split
use poulpy_pir.Prelude.{
  ℕ, zero, suc, ◌+◌, ◌-◌, ◌*◌, ◌/◌, ◌%◌, min, max, leb, ltb, ◌&&◌, ◌==◌, if◌then◌else◌, Bool, true,
  false, not, ℤ, List, [], ◌∷◌, ◌++◌, length, map, set, replicate, splice,
}
use poulpy_pir.Error.{Result, ok, panic, assert, ◌>>=◌, ◌>>◌}
use poulpy_pir.Loop.{for_range, at}
use poulpy_pir.Parallel.{clamp_from_one, ranges}
use poulpy_pir.Server.Float.{Float, entry}
use poulpy_pir.Server.Gemm.{Gemm, slice, widen_i16_to_f64}

pub record PreparedF64 : Type 0 where
  pub values : List ℤ
  pub rows_out : ℕ
  pub rows_in : ℕ

pub data MaskSplit : Type 0 where
  cols : MaskSplit
  blocks : MaskSplit

module _ (f : Float) where
  open f use {F64, zero_f, add_f}

  pub record QueryMask : Type 0 where
    pub values : List F64
    pub rows : ℕ
    pub cols : ℕ

  unfoldable pub accumulate_mask_range :
      Gemm f
      → List PreparedF64
      → List QueryMask
      → (rows_out lwe_n start count : ℕ) → List F64
      → Result (List F64)
  unfolding for_range
  accumulate_mask_range g prepared masks rows_out lwe_n start count acc =
      for_range count start
        (λ bc acc. do
          u ← at prepared bc
          rhs ← at masks bc
          g.gemm_f64_add acc (widen_i16_to_f64 f u.values) rhs.values rows_out u.rows_in lwe_n)
        acc

  -- The copy of a strip of columns, row by row.
  abbrev pub rhs_strip : List F64 → (lwe_n col_start width : ℕ) → (r count : ℕ) → List F64
  rhs_strip values lwe_n col_start width r zero = []
  rhs_strip values lwe_n col_start width r (suc count) =
      let src = r * lwe_n + col_start in
      slice src (src + width) values ++ rhs_strip values lwe_n col_start width (r + 1) count

  -- A worker's strip.
  unfoldable pub strip_product :
      Gemm f
      → List PreparedF64
      → List QueryMask
      → (rows_out lwe_n col_start width : ℕ) → Result (List F64)
  unfolding for_range
  strip_product g prepared masks rows_out lwe_n col_start width =
      for_range (length prepared) 0
        (λ bc local. do
          u ← at prepared bc
          rhs ← at masks bc
          g.gemm_f64_add local (widen_i16_to_f64 f u.values)
              (rhs_strip rhs.values lwe_n col_start width 0 u.rows_in) rows_out u.rows_in width)
        (replicate (rows_out * width) zero_f)

  -- The copy of a strip into the accumulator, row by row.
  abbrev pub place_strip :
      (lwe_n col_start width : ℕ) → List F64 → (r count : ℕ) → List F64 → List F64
  place_strip lwe_n col_start width local r zero acc = acc
  place_strip lwe_n col_start width local r (suc count) acc =
      let dst = r * lwe_n + col_start in
      place_strip lwe_n col_start width local (r + 1) count
        (splice dst (dst + width) acc (slice (r * width) ((r + 1) * width) local))

  unfoldable pub strips_product :
      Gemm f
      → List PreparedF64
      → List QueryMask
      → (rows_out lwe_n : ℕ) → List (ℕ × ℕ)
      → List F64
      → Result (List F64)
  unfolding strip_product
  strips_product g prepared masks rows_out lwe_n [] acc = ok acc
  strips_product g prepared masks rows_out lwe_n ((col_start, width) ∷ strips) acc = do
    local ← strip_product g prepared masks rows_out lwe_n col_start width
    strips_product g prepared masks rows_out lwe_n strips
        (place_strip lwe_n col_start width local 0 rows_out acc)

  abbrev pub add_all : List F64 → List F64 → List F64
  add_all [] ps = []
  add_all (a ∷ acc) [] = a ∷ acc
  add_all (a ∷ acc) (p ∷ ps) = add_f a p ∷ add_all acc ps

  -- One partial for each range of blocks, added up in order.
  unfoldable pub partials :
      Gemm f
      → List PreparedF64
      → List QueryMask
      → (rows_out lwe_n : ℕ) → List (ℕ × ℕ)
      → Result (List (List F64))
  unfolding accumulate_mask_range
  partials g prepared masks rows_out lwe_n [] = ok []
  partials g prepared masks rows_out lwe_n ((start, len) ∷ rest) = do
    part ←
        accumulate_mask_range g prepared masks rows_out lwe_n start len
          (replicate (rows_out * lwe_n) zero_f)
    parts ← partials g prepared masks rows_out lwe_n rest
    ok (part ∷ parts)

  abbrev pub add_partials : List F64 → List (List F64) → List F64
  add_partials acc [] = acc
  add_partials acc (part ∷ parts) = add_partials (add_all acc part) parts

  abbrev pub reduce_partials : List (List F64) → Result (List F64)
  reduce_partials [] = panic
  reduce_partials (part ∷ parts) = ok (add_partials part parts)

  abbrev pub is_blocks : MaskSplit → Bool
  is_blocks MaskSplit.blocks = true
  is_blocks MaskSplit.cols = false

  unfoldable pub mask_product_acc :
      Gemm f
      → MaskSplit
      → List PreparedF64
      → List QueryMask
      → (rows_out lwe_n mask_threads : ℕ) → Result (List F64)
  unfolding accumulate_mask_range strips_product partials
  mask_product_acc g split prepared masks rows_out lwe_n mask_threads =
      let k = length prepared in
      let nt = clamp_from_one mask_threads lwe_n in
      let blank = replicate (rows_out * lwe_n) zero_f in
      let ntk = min nt k in
      let in_blocks =
        partials g prepared masks rows_out lwe_n (ranges (k / ntk) (k % ntk) ntk 0 0)
        >>= reduce_partials in
      let in_strips =
        strips_product g prepared masks rows_out lwe_n (ranges (lwe_n / nt) (lwe_n % nt) nt 0 0)
          blank in
      if leb nt 1
      then accumulate_mask_range g prepared masks rows_out lwe_n 0 k blank
      else if is_blocks split && leb 2 k
      then in_blocks
      else in_strips
