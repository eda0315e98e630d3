-- ===== src/Prelude/Divide.antt =====
-- Quotients and remainders by a variable, and `usize::div_ceil`.
use Prim.Native.Nat.{◌≤◌, ℕ, ◌+◌, ◌*◌, ◌/◌, ◌%◌, ◌<◌}
use mathlib.Core.Path.{◌≡◌}
use native.Mathlib.Omega.{arith}
use native.Mathlib.Decide.{dec_lt}
use native.Mathlib.Nat.{div-add-mod}
use poulpy_pir.Prelude.Tests.{ltb, if◌then◌else◌, lt→ltb, le→ltb}

-- `a.div_ceil(b)`, for a positive `b`.
unfoldable pub div_ceil : ℕ → ℕ → ℕ
div_ceil a b = if ltb 0 (a % b) then a / b + 1 else a / b

pub mod_bound : (a b : ℕ) → 0 < b → a % b < b
mod_bound a b h = grind arith

pub div_of_parts : (q r b : ℕ) → r < b → (q * b + r) / b ≡ q
div_of_parts q r b h = grind arith

pub mod_of_parts : (q r b : ℕ) → r < b → (q * b + r) % b ≡ r
mod_of_parts q r b h = grind arith

pub div-lt_of_lt_mul : (a q b : ℕ) → a < q * b → a / b < q
div-lt_of_lt_mul a q b h = grind arith

pub parts-lt : (q r b k : ℕ) → q < k → r < b → q * b + r < k * b
parts-lt q r b k h g = grind arith

pub le-div_ceil-mul : (a b : ℕ) → 0 < b → a ≤ div_ceil a b * b
unfolding div_ceil
le-div_ceil-mul a b h = elim (dec_lt 0 (a % b)) [
  | yes more ↦ rw (lt→ltb _ _ more) (omega (arith, div-add-mod a b, mod_bound a b h))
  | no none ↦ rw (le→ltb 0 (a % b) (omega arith)) (omega (arith, div-add-mod a b))
]

-- One block less does not reach `a`.
pub div_ceil_least : (a b q : ℕ) → 0 < b → a ≤ q * b → div_ceil a b ≤ q
unfolding div_ceil
div_ceil_least a b q h le = elim (dec_lt 0 (a % b)) [
  | yes more ↦ rw (lt→ltb _ _ more) (grind (arith, div-add-mod a b))
  | no none ↦ rw (le→ltb 0 (a % b) (omega arith)) (grind (arith, div-add-mod a b))
]

pub lt-div_ceil : (a b c : ℕ) → 0 < b → c < a → c / b < div_ceil a b
lt-div_ceil a b c h lt = div-lt_of_lt_mul c (div_ceil a b) b (omega (arith, le-div_ceil-mul a b h))

pub div_mono : (a b c : ℕ) → 0 < c → a ≤ b → a / c ≤ b / c
div_mono a b c h le =
    grind (arith, div-add-mod a c, div-add-mod b c, mod_bound a c h, mod_bound b c h)

pub mul_mono : (a b c : ℕ) → a ≤ b → a * c ≤ b * c
mul_mono a b c h = grind arith
