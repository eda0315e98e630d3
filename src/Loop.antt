-- ===== src/Loop.antt =====
-- `for` loops over a range whose body can fail, and slices indexed with bounds checks.
pub mod Suffix
use poulpy_pir.Prelude.{ℕ, zero, suc, ◌+◌, Bool, if◌then◌else◌, List, Option, none, some, get_elem?}
use poulpy_pir.Error.{Result, ok, panic, ◌>>=◌}

-- `for j in lo..lo + count { if stop(j) { break; } body }`.
unfoldable pub for_until {ℓ} :
    {S : Type ℓ} → (ℕ → Bool) → (count lo : ℕ) → (ℕ → S → Result S) → S → Result S
for_until stop zero lo body s = ok s
for_until stop (suc count) lo body s =
    if stop lo then ok s else (body lo s >>= λ t. for_until stop count (lo + 1) body t)

-- `for j in lo..lo + count { body }`.
unfoldable pub for_range {ℓ} : {S : Type ℓ} → (count lo : ℕ) → (ℕ → S → Result S) → S → Result S
for_range zero lo body s = ok s
for_range (suc count) lo body s = body lo s >>= λ t. for_range count (lo + 1) body t

abbrev present {ℓ} : {A : Type ℓ} → Option A → Result A
present none = panic
present (some a) = ok a

-- `xs[i]`.
abbrev pub at {ℓ} : {A : Type ℓ} → List A → ℕ → Result A
at xs i = present (get_elem? xs i)
