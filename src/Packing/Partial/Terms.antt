-- ===== src/Packing/Partial/Terms.antt =====
-- The terms of one column of a partial packing, added one after another.
use poulpy_pir.Prelude.{
  ℕ, zero, suc, ◌+◌, ◌<◌, ◌≡◌, refl, sym, ap, ◌∙◌, ℤ, negate, List, [], ◌∷◌, set, some, length,
  drop, get_elem?, get_elem?-set_self, length-set, arith,
}
use poulpy_pir.Error.{ok}
use poulpy_pir.Loop.{for_range}
use poulpy_pir.Loop.Suffix.{drop_suc, at-drop, at-some}
use poulpy_pir.Packing.{Module}
use poulpy_pir.Packing.Partial.{add_term, process_h_partial}

pub set-set {ℓ} : {A : Type ℓ} (xs : List A) (i : ℕ) (a b : A) → set (set xs i a) i b ≡ set xs i b
set-set [] i a b = refl
set-set (x ∷ xs) zero a b = refl
set-set (x ∷ xs) (suc i) a b = ap (λ ys. x ∷ ys) (set-set xs i a b)

pub set_same {ℓ} :
    {A : Type ℓ} (xs : List A) (i : ℕ) (a : A) → get_elem? xs i ≡ some a → set xs i a ≡ xs
set_same [] i a h = refl
set_same (x ∷ xs) zero a h = cc
set_same (x ∷ xs) (suc i) a h = ap (λ ys. x ∷ ys) (set_same xs i a h)

module _ (m : Module) where
  open m use {Poly, zero_poly, add_assign, automorphism_rotate}

  -- The automorphisms for `-h` of some polynomials, from the `k`-th on, each times `X^k`, added to `d`.
  abbrev pub add_terms : ℤ → (k : ℕ) → List Poly → Poly → Poly
  add_terms h k [] d = d
  add_terms h k (x ∷ rest) d =
      add_terms h (k + 1) rest (add_assign d (automorphism_rotate (negate h) k x))

  -- The component of a partial packing for `h`.
  abbrev pub component : ℤ → List Poly → Poly
  component h t = add_terms h 0 t zero_poly

  add_term_loop :
      (t : List Poly) (h : ℤ) (col : ℕ) (rest : List Poly) (k : ℕ) (d : Poly) (dst : List Poly)
      → drop k t ≡ rest
      → get_elem? dst col ≡ some d
      → col < length dst
      → for_range (length rest) k (add_term m t h col) dst ≡ ok (set dst col (add_terms h k rest d))
  unfolding for_range
  add_term_loop t h col [] k d dst here old room = ap ok (sym (set_same dst col d old))
  add_term_loop t h col (x ∷ rest) k d dst here old room =
      let next : Poly = add_assign d (automorphism_rotate (negate h) k x) in
      rw (at-drop k t x rest here, at-some dst col d old)
        (add_term_loop t h col rest (k + 1) next (set dst col next) (drop_suc k t x rest here)
            (get_elem?-set_self dst col next room) (omega (arith, length-set dst col next, room))
          ∙ ap ok (set-set dst col next (add_terms h (k + 1) rest next)))

  pub whole_column :
      (t : List Poly) (h : ℤ) (gamma col : ℕ) (dst : List Poly)
      → length t ≡ gamma
      → get_elem? dst col ≡ some zero_poly
      → col < length dst
      → for_range gamma 0 (add_term m t h col) dst ≡ ok (set dst col (component h t))
  whole_column t h gamma col dst len old room =
      rw (← len) (add_term_loop t h col t 0 zero_poly dst refl old room)

  pub process_h_partial_lem :
      (t : List Poly) (h : ℤ) (gamma col : ℕ) (dst : List Poly)
      → length t ≡ gamma
      → col < length dst
      → process_h_partial m t h gamma dst col ≡ ok (set dst col (component h t))
  unfolding process_h_partial
  process_h_partial_lem t h gamma col dst len room =
      whole_column t h gamma col (set dst col zero_poly) len
        (get_elem?-set_self dst col zero_poly room)
        (omega (arith, length-set dst col zero_poly, room))
      ∙ ap ok (set-set dst col zero_poly (component h t))
