-- ===== src/Server/BodyProduct/Bands/Whole.antt =====
-- The parallel products of all row groups are the products of each group by itself.
use poulpy_pir.Prelude.{
  ℕ, zero, suc, ◌+◌, ◌-◌, ◌*◌, ◌/◌, ◌%◌, ◌≤◌, ◌<◌, ◌≡◌, refl, sym, ap, ◌∙◌, min, List, [], ◌∷◌,
  ◌++◌, length, length-append, length-replicate, replicate, drop, get_elem?, get_elem?-append_left,
  get_elem?-append_right, lt→ltb, le→ltb, mul_mono, mod_bound, div-lt_of_lt_mul, arith,
}
use mathlib.Core.Option.{get_or}
use native.Mathlib.Nat.{div-add-mod}
use native.Mathlib.Decide.{dec_lt}
use poulpy_pir.Error.{ok, ◌>>=◌}
use poulpy_pir.Loop.{for_range, at}
use poulpy_pir.Loop.Suffix.{drop_suc, at-drop}
use poulpy_pir.Server.Float.{Float, entry, entry_ext, tabulate, tabulate_ext}
use poulpy_pir.Server.Gemm.{Gemm, IsKernel, slice, widen_i16_to_f64, gemm_i16_f64_add}
use poulpy_pir.Server.Gemm.Tiles.{map-slice, positive}
use poulpy_pir.Server.Gemm.Products.{IsVectorKernel, product_cell, product_lem}
use poulpy_pir.Server.MaskProduct.{PreparedF64}
use poulpy_pir.Server.MaskProduct.Strip.{length-slice, get_elem?-slice}
use poulpy_pir.Server.BodyProduct.{tile_product, bands_product, batch_blocks}
use poulpy_pir.Server.BodyProduct.Bands.{AreFit, cell_over, batch_lem}

module _ (f : Float) {Body : Type 0} (reals : Body → List f.F64) (degree : ℕ)
    (full : (body : Body) → length (reals body) ≡ degree) (q : ℕ) (queries : List (List Body))
    (rows_out : ℕ) (g : Gemm f) (kernel : IsKernel f g) (vectors : IsVectorKernel f g) where
  open f use {F64, zero_f}

  abbrev Fit : (bc : ℕ) → List PreparedF64 → List (List F64) → Type 0
  Fit = AreFit f reals degree full q queries rows_out

  abbrev cell : List PreparedF64 → List (List F64) → (i c : ℕ) → F64 → F64
  cell = cell_over f reals degree full q queries rows_out g kernel vectors

  -- The row of a band, in the band and in the block.
  band_row :
      (u : PreparedF64) (r0 len i : ℕ)
      → length u.values ≡ rows_out * u.rows_in
      → r0 + len ≤ rows_out
      → i < len
      → tabulate
          (λ p.
            entry f
              (widen_i16_to_f64 f (slice (r0 * u.rows_in) ((r0 + len) * u.rows_in) u.values))
              (i * u.rows_in + p))
          0
          u.rows_in
        ≡ tabulate
            (λ p. entry f (widen_i16_to_f64 f u.values) ((r0 + i) * u.rows_in + p))
            0
            u.rows_in
  band_row u r0 len i size le lt =
      let below = mul_mono (i + 1) len u.rows_in (omega arith) in
      tabulate_ext _ _ 0 u.rows_in (λ p ge lp.
        rw (map-slice (f.of_i16) (r0 * u.rows_in) ((r0 + len) * u.rows_in) u.values) (
          ap (λ o. get_or o zero_f)
            (get_elem?-slice (r0 * u.rows_in) ((r0 + len) * u.rows_in) (i * u.rows_in + p)
                (widen_i16_to_f64 f u.values) (omega (arith, below))
              ∙ ap (get_elem? (widen_i16_to_f64 f u.values)) (omega arith))))

  module _ (views : List PreparedF64) (rhs_all : List (List F64)) where
    tile_loop :
        (us : List PreparedF64) (rhss : List (List F64)) (bc r0 len : ℕ) (tile : List F64)
        → drop bc views ≡ us
        → drop bc rhs_all ≡ rhss
        → Fit bc us rhss
        → r0 + len ≤ rows_out
        → length tile ≡ len * q
        → (out : List F64) × (for_range
              (length us)
              bc
              (λ bc tile. do
                u ← at views bc
                rhs ← at rhs_all bc
                gemm_i16_f64_add f g tile
                    (slice (r0 * u.rows_in) ((r0 + len) * u.rows_in) u.values)
                    rhs
                    len
                    u.rows_in
                    q)
              tile
            ≡ ok out)
          × (length out ≡ len * q)
          × ((i c : ℕ)
              → i < len
              → c < q
              → entry f out (i * q + c) ≡ cell us rhss (r0 + i) c (entry f tile (i * q + c)))
    unfolding for_range
    tile_loop [] [] bc r0 len tile here there fit le size = (tile, refl, size, λ i c li lc. refl)
    tile_loop [] (rhs ∷ rest) bc r0 len tile here there fit le size = absurd fit
    tile_loop (u ∷ us) [] bc r0 len tile here there fit le size = absurd fit
    tile_loop (u ∷ us) (rhs ∷ rest) bc r0 len tile here there (same, values, columns, stack, more)
          le size =
        let lo : ℕ = r0 * u.rows_in in
        let hi : ℕ = (r0 + len) * u.rows_in in
        let room = mul_mono (r0 + len) rows_out u.rows_in le in
        let (next, run, size', step) =
          product_lem f g kernel vectors tile (slice lo hi u.values) rhs len u.rows_in q size
            (length-slice lo hi u.values (omega (arith, room, values)) ∙ omega arith) columns in
        let (out, run', size'', all) =
          tile_loop us rest (bc + 1) r0 len next (drop_suc bc views u us here)
            (drop_suc bc rhs_all rhs rest there) more le size' in
        (
          out,
          rw (at-drop bc views u us here, at-drop bc rhs_all rhs rest there) (rw run run'),
          size'',
          λ i c li lc.
              all i c li lc
              ∙ ap (cell us rest (r0 + i) c) (
                  step i c li lc
                  ∙ ap
                      (λ row.
                        product_cell f g kernel vectors q (entry f tile (i * q + c)) row
                          (tabulate (λ p. entry f rhs (p * q + c)) 0 u.rows_in))
                      (band_row u r0 len i values le li)),
        )

    module _ (fit : Fit 0 views rhs_all) where
      entry-blank : (k i : ℕ) → entry f (replicate k zero_f) i ≡ zero_f
      entry-blank zero i = refl
      entry-blank (suc k) zero = refl
      entry-blank (suc k) (suc i) = entry-blank k i

      abbrev whole_cell : (i c : ℕ) → F64
      whole_cell i c = cell views rhs_all i c zero_f

      tile_lem :
          (r0 len : ℕ)
          → r0 + len ≤ rows_out
          → (out : List F64) × (tile_product f reals g views rhs_all (length views) q r0 len
              ≡ ok out)
            × (length out ≡ len * q)
            × ((i c : ℕ) → i < len → c < q → entry f out (i * q + c) ≡ whole_cell (r0 + i) c)
      unfolding tile_product
      tile_lem r0 len le =
          let (out, run, size, cells) =
            tile_loop views rhs_all 0 r0 len (replicate (len * q) zero_f) refl refl fit le
              (length-replicate (len * q) zero_f) in
          (
            out,
            run,
            size,
            λ i c li lc.
                cells i c li lc
                ∙ ap (cell views rhs_all (r0 + i) c) (entry-blank (len * q) (i * q + c)),
          )

      -- Two pieces of an accumulator, one after the other.
      join_lem :
          (head tail : List F64) (a b : ℕ) (t : (i c : ℕ) → F64)
          → length head ≡ a * q
          → length tail ≡ b * q
          → ((i c : ℕ) → i < a → c < q → entry f head (i * q + c) ≡ t i c)
          → ((i c : ℕ) → i < b → c < q → entry f tail (i * q + c) ≡ t (a + i) c)
          → (length (head ++ tail) ≡ (a + b) * q)
            × ((i c : ℕ) → i < a + b → c < q → entry f (head ++ tail) (i * q + c) ≡ t i c)
      join_lem head tail a b t la lb first second = (
        length-append head tail ∙ omega (arith, la, lb),
        λ i c lt lc. elim (dec_lt i a) [
          | yes inner ↦
              ap (λ o. get_or o zero_f)
                (get_elem?-append_left head tail (i * q + c)
                  (omega (arith, la, lc, mul_mono (i + 1) a q (omega arith))))
              ∙ first i c inner lc
          | no outer ↦
              let j : ℕ = i - a in
              let e : i ≡ a + j = omega arith in
              let past : i * q ≡ a * q + j * q = ap (λ (k : ℕ). k * q) e ∙ omega arith in
              ap (λ o. get_or o zero_f)
                (get_elem?-append_right head tail (i * q + c) (omega (arith, la, past))
                  ∙ ap (get_elem? tail) (omega (arith, la, past)))
              ∙ second j c (omega arith) lc
              ∙ ap (λ (r : ℕ). t r c) (sym e)
        ],
      )

      bands_lem :
          (band fuel r0 k : ℕ)
          → 0 < band
          → k ≤ fuel
          → r0 + k ≡ rows_out
          → (out : List F64) × (bands_product f reals g views rhs_all
                (length views)
                q
                rows_out
                band
                fuel
                r0
              ≡ ok out)
            × (length out ≡ k * q)
            × ((i c : ℕ) → i < k → c < q → entry f out (i * q + c) ≡ whole_cell (r0 + i) c)
      unfolding bands_product
      bands_lem band zero r0 k pos enough e =
          let none : k ≡ 0 = omega arith in
          ([], refl, rw none (omega arith), λ i c lt lc. absurd (omega arith))
      bands_lem band (suc fuel) r0 zero pos enough e = (
        [],
        rw (le→ltb r0 rows_out (omega arith)) refl,
        omega arith,
        λ i c lt lc. absurd (omega arith),
      )
      bands_lem band (suc fuel) r0 (suc k) pos enough e =
          let len : ℕ = min band (rows_out - r0) in
          let b : ℕ = suc k - len in
          let whole : len + b ≡ suc k = omega arith in
          let (head, run, size, cells) = tile_lem r0 len (omega arith) in
          let (tail, run', size', cells') =
            bands_lem band fuel (r0 + len) b pos (omega arith) (omega arith) in
          let (size'', cells'') =
            join_lem head tail len b (λ i c. whole_cell (r0 + i) c) size size' cells
              (λ i c lt lc. cells' i c lt lc ∙ ap (λ (r : ℕ). whole_cell r c) (omega arith)) in
          (
            head ++ tail,
            rw (lt→ltb r0 rows_out (omega arith)) (rw run (rw run' refl)),
            size'' ∙ ap (λ (n : ℕ). n * q) whole,
            λ i c lt lc. cells'' i c (omega (arith, whole, lt)) lc,
          )

      -- A row group in bands is the row group in one piece.
      pub group_lem :
          (band : ℕ)
          → 0 < band
          → (out : List F64) × (bands_product f reals g views rhs_all
                (length views)
                q
                rows_out
                band
                rows_out
                0
              ≡ ok out)
            × (batch_blocks f reals g views queries rows_out q 0 (replicate (rows_out * q) zero_f)
                ≡ ok out)
      group_lem band pos =
          let (out, run, size, cells) =
            bands_lem band rows_out 0 rows_out pos (omega arith) (omega arith) in
          let (out', run', size', cells') =
            batch_lem f reals degree full q queries rows_out g kernel vectors views rhs_all 0
              (replicate (rows_out * q) zero_f) fit (length-replicate (rows_out * q) zero_f) in
          let same : out' ≡ out = entry_ext f out' out (size' ∙ sym size) (λ k lt.
            let i : ℕ = k / q in
            let c : ℕ = k % q in
            let e : i * q + c ≡ k = omega (arith, div-add-mod k q) in
            let li : i < rows_out = div-lt_of_lt_mul k rows_out q (omega arith) in
            let lc : c < q = mod_bound k q (positive k q rows_out (omega arith)) in
            rw (← e) (
              cells' i c li lc
              ∙ ap (cell views rhs_all i c) (entry-blank (rows_out * q) (i * q + c))
              ∙ sym (cells i c (omega arith) lc ∙ ap (λ (r : ℕ). whole_cell r c) (omega arith)))) in
          (out, run, run' ∙ ap ok same)
