-- ===== src/Server/BodyProduct.antt =====
-- src/server/common.rs: the products of the database with the bodies of a batch of queries, group by group
-- and in parallel. A body's column, decoded by poulpy to torus reals, is a parameter.
pub mod Bands
pub mod Groups
use poulpy_pir.Prelude.{
  ℕ, zero, suc, ◌+◌, ◌-◌, ◌*◌, min, max, Bool, true, false, leb, ltb, ◌&&◌, ◌==◌, if◌then◌else◌, ℤ,
  List, [], ◌∷◌, ◌++◌, length, set, replicate, div_ceil,
}
use poulpy_pir.Error.{Result, ok, panic, assert, ◌>>=◌, ◌>>◌}
use poulpy_pir.Loop.{for_range, at}
use poulpy_pir.Server.Float.{Float}
use poulpy_pir.Server.Gemm.{Gemm, slice, gemm_i16_f64_add}
use poulpy_pir.Server.MaskProduct.{PreparedF64}

abbrev pub same_lengths {ℓ} : {Body : Type ℓ} → ℕ → List (List Body) → Bool
same_lengths nblocks [] = true
same_lengths nblocks (bodies ∷ rest) = length bodies == nblocks && same_lengths nblocks rest

module _ (f : Float) {Body : Type 0} (reals : Body → List f.F64) where
  open f use {F64, zero_f}

  unfoldable pub decode_torus_body_into_col :
      List F64 → (col ncols : ℕ) → Body → (rows : ℕ) → Result (List F64)
  unfolding for_range
  decode_torus_body_into_col rhs col ncols body rows =
      for_range rows 0
        (λ r rhs. do
          v ← at (reals body) r
          assert (ltb (r * ncols + col) (length rhs))
          ok (set rhs (r * ncols + col) v))
        rhs

  -- The bodies of the block `bc`, one column for each query.
  unfoldable pub stack_columns :
      (rows_in q bc qi : ℕ) → List (List Body) → List F64 → Result (List F64)
  unfolding decode_torus_body_into_col
  stack_columns rows_in q bc qi [] rhs = ok rhs
  stack_columns rows_in q bc qi (bodies ∷ rest) rhs = do
    body ← at bodies bc
    rhs' ← decode_torus_body_into_col rhs qi q body rows_in
    stack_columns rows_in q bc (qi + 1) rest rhs'

  -- The accumulation of `full_torus_f64_body_product_batch`, from the block `bc` on.
  unfoldable pub batch_blocks :
      Gemm f
      → List PreparedF64
      → List (List Body)
      → (rows_out q bc : ℕ) → List F64
      → Result (List F64)
  unfolding stack_columns gemm_i16_f64_add
  batch_blocks g [] queries rows_out q bc acc = ok acc
  batch_blocks g (u ∷ prepared) queries rows_out q bc acc = do
    assert (u.rows_out == rows_out)
    rhs ← stack_columns u.rows_in q bc 0 queries (replicate (u.rows_in * q) zero_f)
    acc' ← gemm_i16_f64_add f g acc u.values rhs rows_out u.rows_in q
    batch_blocks g prepared queries rows_out q (bc + 1) acc'

  -- `full_torus_f64_body_product_batch`, up to the encoding of the columns of what it accumulates.
  unfoldable pub body_product_batch :
      Gemm f → List PreparedF64 → List (List Body) → Result (List F64)
  unfolding batch_blocks
  body_product_batch g prepared queries = do
    let q = length queries
    assert (ltb 0 q)
    assert (ltb 0 (length prepared))
    assert (same_lengths (length prepared) queries)
    first ← at prepared 0
    batch_blocks g prepared queries first.rows_out q 0 (replicate (first.rows_out * q) zero_f)

  -- The columns of all blocks, decoded once.
  unfoldable pub decode_all :
      (q bc : ℕ) → List PreparedF64 → List (List Body) → Result (List (List F64))
  unfolding stack_columns
  decode_all q bc [] queries = ok []
  decode_all q bc (u ∷ prepared) queries = do
    rhs ← stack_columns u.rows_in q bc 0 queries (replicate (u.rows_in * q) zero_f)
    rest ← decode_all q (bc + 1) prepared queries
    ok (rhs ∷ rest)

  -- A worker's tile: the rows `r0`, …, `r0 + rows_band - 1` of a row group. `nblocks` blocks are read.
  unfoldable pub tile_product :
      Gemm f → List PreparedF64 → List (List F64) → (nblocks q r0 rows_band : ℕ) → Result (List F64)
  unfolding for_range gemm_i16_f64_add
  tile_product g views rhs_all nblocks q r0 rows_band =
      for_range nblocks 0
        (λ bc tile. do
          u ← at views bc
          rhs ← at rhs_all bc
          gemm_i16_f64_add f g tile (slice (r0 * u.rows_in) ((r0 + rows_band) * u.rows_in) u.values)
              rhs rows_band u.rows_in q)
        (replicate (rows_band * q) zero_f)

  -- The bands of a row group, one after another in its accumulator. A band has a row at least, so
  -- `rows_out` rounds are enough.
  unfoldable pub bands_product :
      Gemm f
      → List PreparedF64
      → List (List F64)
      → (nblocks q rows_out band fuel r0 : ℕ) → Result (List F64)
  unfolding tile_product
  bands_product g views rhs_all nblocks q rows_out band zero r0 = ok []
  bands_product g views rhs_all nblocks q rows_out band (suc fuel) r0 =
      let len = min band (rows_out - r0) in
      let tiles = tile_product g views rhs_all nblocks q r0 len >>= λ head.
      bands_product g views rhs_all nblocks q rows_out band fuel (r0 + len) >>= λ tail.
      ok (head ++ tail) in
      if ltb r0 rows_out then tiles else ok []

  unfoldable pub group_products :
      Gemm f
      → List (List PreparedF64)
      → List (List F64)
      → (nblocks q rows_out band : ℕ) → Result (List (List F64))
  unfolding bands_product
  group_products g [] rhs_all nblocks q rows_out band = ok []
  group_products g (views ∷ rest) rhs_all nblocks q rows_out band = do
    acc ← bands_product g views rhs_all nblocks q rows_out band rows_out 0
    accs ← group_products g rest rhs_all nblocks q rows_out band
    ok (acc ∷ accs)

  -- The tiles are disjoint bands of the accumulators, so it does not matter which worker has which.
  unfoldable pub body_product_acc_parallel :
      Gemm f
      → List (List PreparedF64)
      → List (List Body)
      → (nthreads : ℕ) → Result (List (List F64))
  unfolding decode_all group_products div_ceil
  body_product_acc_parallel g db_views queries nthreads = do
    let physical_rows = length db_views
    assert (ltb 0 physical_rows)
    first ← at db_views 0
    let nblocks = length first
    let q = length queries
    assert (ltb 0 q)
    assert (same_lengths nblocks queries)
    u ← at first 0
    rhs_all ← decode_all q 0 first queries
    let tiles_per_group = max (div_ceil nthreads physical_rows) 1
    let band = max (div_ceil u.rows_out tiles_per_group) 1
    group_products g db_views rhs_all nblocks q u.rows_out band
