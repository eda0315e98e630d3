-- ===== src/Server/Gemm/Products.antt =====
-- The product of a block of `i16` with any number of columns, cell by cell: a vector goes to the kernel for
-- vectors, more columns to the tiles.
use poulpy_pir.Prelude.{
  ℕ, ◌+◌, ◌*◌, ◌<◌, ◌≡◌, sym, ap, ap₂, ◌∙◌, eq→==, ne→==, ◌==◌, if◌then◌else◌, ℤ, List, length,
  length-map, arith,
}
use native.Mathlib.Decide.{ℕ_discrete}
use poulpy_pir.Error.{ok}
use poulpy_pir.Server.Float.{Float, entry, tabulate, tabulate_ext}
use poulpy_pir.Server.Gemm.{Gemm, IsKernel, widen_i16_to_f64, gemm_i16_f64_add}
use poulpy_pir.Server.Gemm.Tiles.{gemm_i16_f64_add_lem}

times_one : (k n : ℕ) → n ≡ 1 → k * n ≡ k
times_one k n one = rw one (omega arith)

module _ (f : Float) (g : Gemm f) where
  open f use {F64}

  -- What the code relies on in the kernel for vectors: each cell depends on the old cell, its row and the
  -- vector.
  pub record IsVectorKernel : Type 0 where
    pub dot : F64 → List F64 → List F64 → F64
    pub returns :
        (acc : List F64) (u : List ℤ) (b : List F64) (rows_out rows_in : ℕ)
        → length acc ≡ rows_out
        → length u ≡ rows_out * rows_in
        → length b ≡ rows_in
        → (out : List F64) × (g.gemv_i16_f64_add acc u b rows_out rows_in ≡ ok out)
          × (length out ≡ rows_out)
          × ((i : ℕ)
              → i < rows_out
              → entry f out i
                ≡ dot
                    (entry f acc i)
                    (tabulate (λ p. entry f (widen_i16_to_f64 f u) (i * rows_in + p)) 0 rows_in)
                    (tabulate (λ p. entry f b p) 0 rows_in))

  module _ (kernel : IsKernel f g) (vectors : IsVectorKernel) where
    abbrev pub product_cell : ℕ → F64 → List F64 → List F64 → F64
    product_cell n x row column =
        if n == 1 then vectors.dot x row column else kernel.cell x row column

    pub product_lem :
        (acc : List F64) (u : List ℤ) (b : List F64) (rows_out rows_in n : ℕ)
        → length acc ≡ rows_out * n
        → length u ≡ rows_out * rows_in
        → length b ≡ rows_in * n
        → (out : List F64) × (gemm_i16_f64_add f g acc u b rows_out rows_in n ≡ ok out)
          × (length out ≡ rows_out * n)
          × ((i c : ℕ)
              → i < rows_out
              → c < n
              → entry f out (i * n + c)
                ≡ product_cell n
                    (entry f acc (i * n + c))
                    (tabulate (λ p. entry f (widen_i16_to_f64 f u) (i * rows_in + p)) 0 rows_in)
                    (tabulate (λ p. entry f b (p * n + c)) 0 rows_in))
    unfolding gemm_i16_f64_add
    product_lem acc u b rows_out rows_in n len_acc len_u len_b = elim (ℕ_discrete n 1) [
      | yes one ↦
          let (out, run, len, cells) =
            vectors.returns acc u b rows_out rows_in
              (omega (arith, one, len_acc, times_one rows_out n one)) len_u
              (omega (arith, len_b, times_one rows_in n one)) in
          (
            out,
            rw (eq→== n 1 one) run,
            omega (arith, len, times_one rows_out n one),
            λ i c li lc.
                let row : List F64 =
                  tabulate (λ p. entry f (widen_i16_to_f64 f u) (i * rows_in + p)) 0 rows_in in
                let here : (k : ℕ) → k * n + c ≡ k =
                  λ k. omega (arith, one, lc, times_one k n one) in
                rw (eq→== n 1 one) (
                  ap (entry f out) (here i)
                  ∙ cells i li
                  ∙ ap₂ (λ x column. vectors.dot x row column) (ap (entry f acc) (sym (here i)))
                      (tabulate_ext (λ p. entry f b p) (λ p. entry f b (p * n + c)) 0 rows_in
                        (λ p ge lt. ap (entry f b) (sym (here p))))),
          )
      | no many ↦
          let (out, run, same) =
            gemm_i16_f64_add_lem f g kernel u b rows_out rows_in n len_u len_b acc len_acc many in
          let (out', run', len, cells) =
            kernel.returns acc (widen_i16_to_f64 f u) b rows_out rows_in n len_acc
              (length-map (f.of_i16) u ∙ len_u) len_b in
          let e : out' ≡ out = cc (run', same) in
          (
            out,
            run,
            ap length (sym e) ∙ len,
            λ i c li lc. rw (ne→== n 1 many, ← e) (cells i c li lc),
          )
    ]
