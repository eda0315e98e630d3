-- ===== src/Encoding/Round.antt =====
-- Rounding to the grid and back loses nothing, since the grid has more points than residues.
use poulpy_pir.Prelude.{
  ℕ, ◌+◌, ◌-◌, ◌*◌, ◌/◌, ◌%◌, ◌≤◌, ◌<◌, ◌≡◌, arith, mod_bound, div_of_parts, div-lt_of_lt_mul,
  mul_mono, ap, leb, le→leb, lt→leb, if◌then◌else◌,
}
use native.Mathlib.Decide.{dec_le}
use native.Mathlib.Nat.{div-add-mod}

-- `a` a magnitude, `t` the even number of grid points.
pub round_back :
    (a p t half : ℕ) → 1 < p → p < t → t ≡ 2 * half → ((a * t + p / 2) / p * p + t / 2) / t ≡ a
round_back a p t half p_gt t_gt even =
    let n = a * t + p / 2 in
    let r_lt = mod_bound n p (omega arith) in
    let whole : n / p * p + t / 2 ≡ a * t + (p / 2 + t / 2 - n % p) =
      omega (arith, div-add-mod n p, r_lt, even) in
    rw whole (div_of_parts a (p / 2 + t / 2 - n % p) t (omega (arith, even)))

pub round_bound :
    (a p t half : ℕ) → 1 < p → p < t → t ≡ 2 * half → a ≤ p / 2 → (a * t + p / 2) / p ≤ half
round_bound a p t half p_gt t_gt even small =
    let twice = mul_mono (p / 2 * 2) p half (omega arith) in
    let scaled = ap (λ (x : ℕ). p / 2 * x) even in
    let top : a * t ≤ p * half = omega (arith, mul_mono a (p / 2) t small, scaled, twice) in
    let less : a * t + p / 2 < (half + 1) * p = omega (arith, top) in
    omega (arith, div-lt_of_lt_mul (a * t + p / 2) (half + 1) p less)

-- Below half of the modulus the grid point stays below half of the grid.
pub round_below :
    (a p t half : ℕ) → 1 < p → p < t → t ≡ 2 * half → 2 * a < p → (a * t + p / 2) / p < half
round_below a p t half p_gt t_gt even small =
    let twice = mul_mono (2 * a + 1) p half (omega arith) in
    let scaled = ap (λ (x : ℕ). a * x) even in
    div-lt_of_lt_mul (a * t + p / 2) half p (omega (arith, scaled, twice, even))

pub round_zero : (p t : ℕ) → 1 < t → (0 * p + t / 2) / t ≡ 0
round_zero p t h = grind arith

-- Rounding 2^K / p by the remainder is rounding it by adding half.
pub round_unit :
    (p t : ℕ)
    → 1 < p
    → (1 * t + p / 2) / p ≡ (if leb p (2 * (t - t / p * p)) then t / p + 1 else t / p)
round_unit p t p_gt =
    let r_lt = mod_bound t p (omega arith) in
    let parts = div-add-mod t p in
    elim (dec_le p (2 * (t - t / p * p))) [
      | yes up ↦
          let e : 1 * t + p / 2 ≡ (t / p + 1) * p + (t % p + p / 2 - p) =
            omega (arith, parts, r_lt) in
          rw (le→leb _ _ up, e)
            (div_of_parts (t / p + 1) (t % p + p / 2 - p) p (omega (arith, r_lt)))
      | no down ↦
          let e : 1 * t + p / 2 ≡ t / p * p + (t % p + p / 2) = omega (arith, parts) in
          rw (lt→leb p (2 * (t - t / p * p)) (omega arith), e)
            (div_of_parts (t / p) (t % p + p / 2) p (omega (arith, parts, r_lt)))
    ]
