-- ===== src/Server/Gemm/Tiles.antt =====
-- The product of a block of `i16` in tiles of 512 rows is the product of the whole block.
use poulpy_pir.Prelude.{
  ℕ, zero, suc, ◌+◌, ◌-◌, ◌*◌, ◌/◌, ◌%◌, ◌≤◌, ◌<◌, ◌≡◌, ◌≢◌, refl, sym, ap, ap₂, ◌∙◌, min, ℤ, List,
  [], ◌∷◌, map, take, drop, length, length-map, get_elem?, splice, splice-inside, splice-before,
  splice-after, length-splice, lt→ltb, le→ltb, ne→==, mul_mono, mod_bound, div-lt_of_lt_mul, arith,
}
use mathlib.Core.Option.{get_or}
use native.Mathlib.Nat.{div-add-mod}
use native.Mathlib.Decide.{dec_lt}
use poulpy_pir.Error.{ok}
use poulpy_pir.Server.Float.{Float, entry, entry_ext, tabulate, tabulate_ext}
use poulpy_pir.Server.Gemm.{
  Gemm, IsKernel, slice, row_tile, row_tiles, widen_i16_to_f64, gemm_i16_f64_add,
}
use poulpy_pir.Server.MaskProduct.Strip.{length-slice, get_elem?-slice}

map-take {ℓ κ} :
    {A : Type ℓ} {B : Type κ} (f : A → B) (k : ℕ) (xs : List A)
    → map f (take k xs) ≡ take k (map f xs)
map-take f zero xs = refl
map-take f (suc k) [] = refl
map-take f (suc k) (x ∷ xs) = ap (λ ys. f x ∷ ys) (map-take f k xs)

map-drop {ℓ κ} :
    {A : Type ℓ} {B : Type κ} (f : A → B) (k : ℕ) (xs : List A)
    → map f (drop k xs) ≡ drop k (map f xs)
map-drop f zero xs = refl
map-drop f (suc k) [] = refl
map-drop f (suc k) (x ∷ xs) = map-drop f k xs

pub map-slice {ℓ κ} :
    {A : Type ℓ} {B : Type κ} (f : A → B) (lo hi : ℕ) (xs : List A)
    → map f (slice lo hi xs) ≡ slice lo hi (map f xs)
map-slice f lo hi xs = map-take f (hi - lo) (drop lo xs) ∙ ap (take (hi - lo)) (map-drop f lo xs)

pub positive : (i n k : ℕ) → i < k * n → 0 < n
positive i zero k lt = absurd (omega arith)
positive i (suc n) k lt = omega arith

module _ (f : Float) (g : Gemm f) (kernel : IsKernel f g) (u : List ℤ) (b : List f.F64)
    (rows_out rows_in n : ℕ) (len_u : length u ≡ rows_out * rows_in)
    (len_b : length b ≡ rows_in * n) where
  open f use {F64, zero_f}

  abbrev wide : List F64
  wide = widen_i16_to_f64 f u

  abbrev column : ℕ → List F64
  column c = tabulate (λ p. entry f b (p * n + c)) 0 rows_in

  -- The cell of the product in row `i` and column `c`.
  abbrev new_cell : List F64 → (i c : ℕ) → F64
  new_cell acc i c =
      kernel.cell (entry f acc (i * n + c))
        (tabulate (λ p. entry f wide (i * rows_in + p)) 0 rows_in) (column c)

  entry-slice :
      (lo hi j : ℕ) (xs : List F64) → j < hi - lo → entry f (slice lo hi xs) j ≡ entry f xs (lo + j)
  entry-slice lo hi j xs lt = ap (λ o. get_or o zero_f) (get_elem?-slice lo hi j xs lt)

  entry-wide :
      (lo hi j : ℕ)
      → j < hi - lo
      → entry f (widen_i16_to_f64 f (slice lo hi u)) j ≡ entry f wide (lo + j)
  entry-wide lo hi j lt = rw (map-slice (f.of_i16) lo hi u) (entry-slice lo hi j wide lt)

  -- What the rows from `r` on become, and the rows before `r` stay.
  abbrev AreTiled : (r : ℕ) → (acc out : List F64) → Type 0
  AreTiled r acc out =
      (length out ≡ rows_out * n)
      × ((i c : ℕ) → r ≤ i → i < rows_out → c < n → entry f out (i * n + c) ≡ new_cell acc i c)
      × ((i c : ℕ) → i < r → c < n → entry f out (i * n + c) ≡ entry f acc (i * n + c))

  one_tile :
      (r rt : ℕ) (acc : List F64)
      → r + rt ≤ rows_out
      → length acc ≡ rows_out * n
      → (tile : List F64) × (g.gemm_f64_add
            (slice (r * n) ((r + rt) * n) acc)
            (widen_i16_to_f64 f (slice (r * rows_in) ((r + rt) * rows_in) u))
            b
            rt
            rows_in
            n
          ≡ ok tile)
        × (length tile ≡ rt * n)
        × ((q c : ℕ) → q < rt → c < n → entry f tile (q * n + c) ≡ new_cell acc (r + q) c)
  one_tile r rt acc le len =
      let room = mul_mono (r + rt) rows_out n le in
      let room' = mul_mono (r + rt) rows_out rows_in le in
      let (tile, run, size, cells) =
        kernel.returns (slice (r * n) ((r + rt) * n) acc)
          (widen_i16_to_f64 f (slice (r * rows_in) ((r + rt) * rows_in) u)) b rt rows_in n
          (length-slice (r * n) ((r + rt) * n) acc (omega (arith, room)) ∙ omega arith)
          (length-map (f.of_i16) (slice (r * rows_in) ((r + rt) * rows_in) u)
            ∙ length-slice (r * rows_in) ((r + rt) * rows_in) u (omega (arith, room'))
            ∙ omega arith)
          len_b in
      (
        tile,
        run,
        size,
        λ q c lq lc.
            let below = mul_mono (q + 1) rt n (omega arith) in
            let below' = mul_mono (q + 1) rt rows_in (omega arith) in
            cells q c lq lc
            ∙ ap₂ (λ x row. kernel.cell x row (column c))
                (entry-slice (r * n) ((r + rt) * n) (q * n + c) acc (omega (arith, below))
                  ∙ ap (entry f acc) (omega arith))
                (tabulate_ext _ _ 0 rows_in (λ p ge lt.
                  entry-wide (r * rows_in) ((r + rt) * rows_in) (q * rows_in + p)
                    (omega (arith, below'))
                  ∙ ap (entry f wide) (omega arith))),
      )

  -- The rows of a tile, and those around it, after it is written back.
  module _ (r rt : ℕ) (acc tile : List F64) (le : r + rt ≤ rows_out)
      (len : length acc ≡ rows_out * n) (size : length tile ≡ rt * n) where
    abbrev back : List F64
    back = splice (r * n) ((r + rt) * n) acc tile

    fits : (r + rt) * n ≤ length acc
    fits = omega (arith, mul_mono (r + rt) rows_out n le, len)

    length-back : length back ≡ rows_out * n
    length-back =
        length-splice acc tile (r * n) ((r + rt) * n) 0 (omega arith) fits (omega (arith, size))
        ∙ len

    back_inside :
        (i c q : ℕ)
        → i ≡ r + q
        → q < rt
        → c < n
        → entry f back (i * n + c) ≡ entry f tile (q * n + c)
    back_inside i c q e lq lc =
        let below = mul_mono (q + 1) rt n (omega arith) in
        rw e (
          ap (λ o. get_or o zero_f)
            (splice-inside acc tile (r * n) ((r + rt) * n) ((r + q) * n + c) (omega arith) fits
                (omega (arith, size)) (omega arith) (omega (arith, below))
              ∙ ap (get_elem? tile) (omega arith)))

    back_after : (i c : ℕ) → r + rt ≤ i → entry f back (i * n + c) ≡ entry f acc (i * n + c)
    back_after i c ge =
        ap (λ o. get_or o zero_f)
          (splice-after acc tile (r * n) ((r + rt) * n) (i * n + c) (omega arith) fits
            (omega (arith, size)) (omega (arith, mul_mono (r + rt) i n ge)))

    back_before : (i c : ℕ) → i < r → c < n → entry f back (i * n + c) ≡ entry f acc (i * n + c)
    back_before i c lt lc =
        ap (λ o. get_or o zero_f)
          (splice-before acc tile (r * n) ((r + rt) * n) (i * n + c) (omega arith) fits
            (omega (arith, size)) (omega (arith, mul_mono (i + 1) r n (omega arith))))

  tiles_lem :
      (fuel r : ℕ) (acc : List F64)
      → rows_out ≤ r + fuel
      → r ≤ rows_out
      → length acc ≡ rows_out * n
      → (out : List F64) × (row_tiles f g fuel r acc u b rows_out rows_in n ≡ ok out)
        × AreTiled r acc out
  unfolding row_tiles
  tiles_lem zero r acc enough le len =
      (acc, refl, (len, (λ i c ge lt lc. absurd (omega arith)), λ i c lt lc. refl))
  tiles_lem (suc fuel) r acc enough le len = elim (dec_lt r rows_out) [
    | no done ↦ (
      acc,
      rw (le→ltb r rows_out (omega arith)),
      (len, (λ i c ge lt lc. absurd (omega arith)), λ i c lt lc. refl),
    )
    | yes more ↦
        let rt : ℕ = min (row_tile f) (rows_out - r) in
        let le' : r + rt ≤ rows_out = omega arith in
        let (tile, run, size, cells) = one_tile r rt acc le' len in
        let acc' = back r rt acc tile le' len size in
        let (out, run', (len', after, before)) =
          tiles_lem fuel (r + rt) acc' (omega arith) le' (length-back r rt acc tile le' len size) in
        (
          out,
          rw (lt→ltb r rows_out more, run) run',
          (
            len',
            (λ i c ge lt lc. elim (dec_lt i (r + rt)) [
              | yes inner ↦
                  let q : ℕ = i - r in
                  let e : i ≡ r + q = omega arith in
                  before i c inner lc
                  ∙ back_inside r rt acc tile le' len size i c q e (omega arith) lc
                  ∙ cells q c (omega arith) lc
                  ∙ ap (λ (p : ℕ). new_cell acc p c) (sym e)
              | no outer ↦
                  after i c (omega arith) lt lc
                  ∙ ap
                      (λ x.
                        kernel.cell x (tabulate (λ p. entry f wide (i * rows_in + p)) 0 rows_in)
                          (column c))
                      (back_after r rt acc tile le' len size i c (omega arith))
            ]),
            λ i c lt lc.
                before i c (omega arith) lc ∙ back_before r rt acc tile le' len size i c lt lc,
          ),
        )
  ]

  -- For a kernel, buffers of the right sizes, and a product of more or fewer columns than one, the product
  -- in tiles of 512 rows returns, and what it returns is bit for bit what one call of the kernel on the
  -- whole block returns.
  pub gemm_i16_f64_add_lem :
      (acc : List F64)
      → length acc ≡ rows_out * n
      → n ≢ 1
      → (out : List F64) × (gemm_i16_f64_add f g acc u b rows_out rows_in n ≡ ok out)
        × (g.gemm_f64_add acc (widen_i16_to_f64 f u) b rows_out rows_in n ≡ ok out)
  unfolding gemm_i16_f64_add
  gemm_i16_f64_add_lem acc len many =
      let (out, run, (len', cells, _)) = tiles_lem rows_out 0 acc (omega arith) (omega arith) len in
      let (out', run', len'', cells') =
        kernel.returns acc wide b rows_out rows_in n len (length-map (f.of_i16) u ∙ len_u) len_b in
      let same : out' ≡ out = entry_ext f out' out (len'' ∙ sym len') (λ i lt.
        let r : ℕ = i / n in
        let c : ℕ = i % n in
        let e : r * n + c ≡ i = omega (arith, div-add-mod i n) in
        let lr : r < rows_out = div-lt_of_lt_mul i rows_out n (omega arith) in
        let lc : c < n = mod_bound i n (positive i n rows_out (omega arith)) in
        rw (← e) (cells' r c lr lc ∙ sym (cells r c (omega arith) lr lc))) in
      (out, rw (ne→== n 1 many) run, run' ∙ ap ok same)
