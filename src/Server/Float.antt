-- ===== src/Server/Float.antt =====
-- The `f64` numbers of the matrix products, and buffers of them in row-major order.
use poulpy_pir.Prelude.{
  ℕ, zero, suc, ◌+◌, ◌≤◌, ◌<◌, ◌≡◌, refl, ap, ℤ, List, [], ◌∷◌, length, get_elem?, Bool, arith,
}
use mathlib.Core.Option.{get_or}

-- The operations of `f64` that the code uses.
pub record Float : Type 1 where
  pub F64 : Type 0
  pub zero_f : F64
  pub add_f : F64 → F64 → F64
  pub mul_f : F64 → F64 → F64
  pub is_zero : F64 → Bool
  -- `v as f64` of an `i16`.
  pub of_i16 : ℤ → F64

-- The elements `i`, …, `i + count - 1` of a function.
abbrev pub tabulate {ℓ} : {A : Type ℓ} → (ℕ → A) → (i count : ℕ) → List A
tabulate f i zero = []
tabulate f i (suc count) = f i ∷ tabulate f (i + 1) count

pub length-tabulate {ℓ} :
    {A : Type ℓ} (f : ℕ → A) (i count : ℕ) → length (tabulate f i count) ≡ count
length-tabulate f i zero = refl
length-tabulate f i (suc count) = ap suc (length-tabulate f (i + 1) count)

-- `tabulate` looks at a function only where it counts.
pub tabulate_ext {ℓ} :
    {A : Type ℓ} (f g : ℕ → A) (i count : ℕ)
    → ((p : ℕ) → i ≤ p → p < i + count → f p ≡ g p)
    → tabulate f i count ≡ tabulate g i count
tabulate_ext f g i zero same = refl
tabulate_ext f g i (suc count) same = rw (same i (omega arith) (omega arith)) (
    ap (λ rest. g i ∷ rest)
      (tabulate_ext f g (i + 1) count (λ p ge lt. same p (omega arith) (omega arith))))

module _ (f : Float) where
  open f use {F64, zero_f}

  -- `buffer[i]`, for an index in range.
  abbrev pub entry : List F64 → ℕ → F64
  entry xs i = get_or (get_elem? xs i) zero_f

  pub entry_ext :
      (xs ys : List F64)
      → length xs ≡ length ys
      → ((i : ℕ) → i < length xs → entry xs i ≡ entry ys i)
      → xs ≡ ys
  entry_ext [] [] len same = refl
  entry_ext [] (y ∷ ys) len same = absurd (omega arith)
  entry_ext (x ∷ xs) [] len same = absurd (omega arith)
  entry_ext (x ∷ xs) (y ∷ ys) len same =
      rw (same 0 (omega arith))
        (ap (λ rest. y ∷ rest) (entry_ext xs ys (omega arith) (λ i lt. same (suc i) (omega arith))))
