-- ===== src/Loop/Suffix.antt =====
-- Loops by index over a list, seen as recursion on the elements that are left.
use poulpy_pir.Prelude.{ℕ, zero, suc, ◌+◌, ◌≡◌, List, [], ◌∷◌, drop, some, get_elem?, arith}
use poulpy_pir.Error.{ok}
use poulpy_pir.Loop.{at}

pub drop_suc {ℓ} :
    {A : Type ℓ} (k : ℕ) (xs : List A) (x : A) (rest : List A)
    → drop k xs ≡ x ∷ rest
    → drop (k + 1) xs ≡ rest
drop_suc zero [] x rest h = cc
drop_suc zero (y ∷ ys) x rest h = cc
drop_suc (suc k) [] x rest h = cc
drop_suc (suc k) (y ∷ ys) x rest h =
    let e : suc k + 1 ≡ suc (k + 1) = omega arith in rw e (drop_suc k ys x rest h)

pub at-drop {ℓ} :
    {A : Type ℓ} (k : ℕ) (xs : List A) (x : A) (rest : List A)
    → drop k xs ≡ x ∷ rest
    → at xs k ≡ ok x
at-drop zero [] x rest h = cc
at-drop zero (y ∷ ys) x rest h = cc
at-drop (suc k) [] x rest h = cc
at-drop (suc k) (y ∷ ys) x rest h = at-drop k ys x rest h

pub at-some {ℓ} :
    {A : Type ℓ} (xs : List A) (i : ℕ) (x : A) → get_elem? xs i ≡ some x → at xs i ≡ ok x
at-some xs i x h = rw h
