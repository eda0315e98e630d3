-- ===== src/Server/Gemm.antt =====
-- src/server/gemm.rs: the trait `Gemm`, its default methods, and the portable kernels. The kernels for
-- x86-64 and the BLAS are foreign code.

pub mod Portable
pub mod Tiles
pub mod Products
pub mod Vectors
use poulpy_pir.Prelude.{
  ℕ, zero, suc, ◌+◌, ◌-◌, ◌*◌, ◌<◌, ◌≡◌, min, max, ltb, ◌==◌, if◌then◌else◌, true, false, ℤ, List,
  [], ◌∷◌, length, map, set, take, drop, splice,
}
use poulpy_pir.Error.{Result, ok, assert, ◌>>=◌, ◌>>◌}
use poulpy_pir.Server.Float.{Float, entry, tabulate}

-- `for i in lo..lo + count { body }`, of a body that does not fail.
unfoldable pub repeat {ℓ} : {S : Type ℓ} → (count lo : ℕ) → (ℕ → S → S) → S → S
repeat zero lo body s = s
repeat (suc count) lo body s = repeat count (lo + 1) body (body lo s)

-- `buffer[lo..hi]`.
abbrev pub slice {ℓ} : {A : Type ℓ} → (lo hi : ℕ) → List A → List A
slice lo hi xs = take (hi - lo) (drop lo xs)

module _ (f : Float) where
  open f use {F64, zero_f, add_f, mul_f, is_zero, of_i16}

  -- `trait Gemm`: the required kernel and the product with a vector, `dst += lhs · rhs`.
  pub record Gemm : Type 0 where
    pub gemm_f64_add : (dst lhs rhs : List F64) → (m k n : ℕ) → Result (List F64)
    pub gemv_i16_f64_add : List F64 → List ℤ → List F64 → (rows_out rows_in : ℕ) → Result (List F64)

  abbrev pub row_tile : ℕ
  row_tile = 512

  abbrev pub widen_i16_to_f64 : List ℤ → List F64
  widen_i16_to_f64 = map of_i16

  -- The loop over tiles of rows, from row `r` on. A tile has a row at least, so `rows_out` rounds are
  -- enough.
  unfoldable pub row_tiles :
      Gemm
      → (fuel r : ℕ) → List F64
      → List ℤ
      → List F64
      → (rows_out rows_in n : ℕ) → Result (List F64)
  row_tiles g zero r acc u b rows_out rows_in n = ok acc
  row_tiles g (suc fuel) r acc u b rows_out rows_in n =
      let rt = min row_tile (rows_out - r) in
      let wide = widen_i16_to_f64 (slice (r * rows_in) ((r + rt) * rows_in) u) in
      let round = g.gemm_f64_add (slice (r * n) ((r + rt) * n) acc) wide b rt rows_in n >>= λ tile.
      row_tiles g fuel (r + rt) (splice (r * n) ((r + rt) * n) acc tile) u b rows_out rows_in n in
      if ltb r rows_out then round else ok acc

  unfoldable pub gemm_i16_f64_add :
      Gemm → List F64 → List ℤ → List F64 → (rows_out rows_in n : ℕ) → Result (List F64)
  unfolding row_tiles
  gemm_i16_f64_add g acc u b rows_out rows_in n =
      if n == 1
      then g.gemv_i16_f64_add acc u b rows_out rows_in
      else row_tiles g rows_out 0 acc u b rows_out rows_in n

  -- The portable `gemm_f64_add`.
  abbrev pub add_row : F64 → (row_out row_in n : ℕ) → List F64 → List F64 → List F64
  add_row a row_out row_in n rhs dst =
      repeat n 0
        (λ j d.
          set d (row_out + j)
            (add_f (entry f d (row_out + j)) (mul_f a (entry f rhs (row_in + j)))))
        dst

  unfoldable pub gemm_f64_add : (dst lhs rhs : List F64) → (m k n : ℕ) → Result (List F64)
  unfolding repeat
  gemm_f64_add dst lhs rhs m k n = do
    assert (length dst == m * n)
    assert (length lhs == m * k)
    assert (length rhs == k * n)
    ok (
        repeat m 0
          (λ i d.
            repeat k 0
              (λ p d'.
                let a = entry f lhs (i * k + p) in
                if is_zero a then d' else add_row a (i * n) (p * n) n rhs d')
              d)
          dst)

  -- The portable `default_gemv_i16_f64_add`: a sum for each row, added to the accumulator at the end.
  abbrev pub dot_i16 : List ℤ → List F64 → F64 → F64
  dot_i16 [] b s = s
  dot_i16 (x ∷ row) [] s = s
  dot_i16 (x ∷ row) (y ∷ b) s = dot_i16 row b (add_f s (mul_f (of_i16 x) y))

  abbrev pub gemv_rows : (i : ℕ) → List F64 → List ℤ → List F64 → (rows_in : ℕ) → List F64
  gemv_rows i [] u b rows_in = []
  gemv_rows i (a ∷ acc) u b rows_in =
      add_f a (dot_i16 (slice (i * rows_in) (i * rows_in + rows_in) u) b zero_f)
      ∷ gemv_rows (i + 1) acc u b rows_in

  unfoldable pub default_gemv_i16_f64_add :
      List F64 → List ℤ → List F64 → (rows_out rows_in : ℕ) → Result (List F64)
  default_gemv_i16_f64_add acc u b rows_out rows_in = ok (gemv_rows 0 acc u b rows_in)

  -- What the code relies on: a kernel returns for buffers of the right sizes, and gives each cell of
  -- the product from the old cell, a row and a column, in a way that does not depend on the rest.
  pub record IsKernel (g : Gemm) : Type 0 where
    pub cell : F64 → List F64 → List F64 → F64
    pub returns :
        (dst lhs rhs : List F64) (m k n : ℕ)
        → length dst ≡ m * n
        → length lhs ≡ m * k
        → length rhs ≡ k * n
        → (out : List F64) × (g.gemm_f64_add dst lhs rhs m k n ≡ ok out)
          × (length out ≡ m * n)
          × ((i j : ℕ)
              → i < m
              → j < n
              → entry f out (i * n + j)
                ≡ cell
                    (entry f dst (i * n + j))
                    (tabulate (λ p. entry f lhs (i * k + p)) 0 k)
                    (tabulate (λ p. entry f rhs (p * n + j)) 0 k))
