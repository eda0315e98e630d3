-- ===== src/Prelude/Splice.antt =====
-- Entries of slices, and of a list one window of which is replaced.
use Prim.Native.Nat.{ℕ, zero, suc, ◌+◌, ◌-◌, ◌≤◌, ◌<◌}
use mathlib.Core.Path.{◌≡◌, refl, ap, ◌∙◌}
use mathlib.Core.List.{List, [], ◌∷◌, ◌++◌}
use native.Mathlib.Omega.{arith}
use poulpy_pir.Prelude.Lists.{
  length, get_elem?, take, drop, length-append, length-take, length-drop, get_elem?-append_left,
}

module _ {ℓ} {A : Type ℓ} where
  pub get_elem?-append_right :
      (xs ys : List A) (i : ℕ)
      → length xs ≤ i
      → get_elem? (xs ++ ys) i ≡ get_elem? ys (i - length xs)
  get_elem?-append_right [] ys i h = ap (get_elem? ys) (omega arith)
  get_elem?-append_right (x ∷ xs) ys zero h = absurd (omega arith)
  get_elem?-append_right (x ∷ xs) ys (suc i) h =
      get_elem?-append_right xs ys i (omega arith) ∙ ap (get_elem? ys) (omega arith)

  pub get_elem?-take :
      (k : ℕ) (xs : List A) (i : ℕ) → i < k → get_elem? (take k xs) i ≡ get_elem? xs i
  get_elem?-take zero xs i h = absurd (omega arith)
  get_elem?-take (suc k) [] i h = refl
  get_elem?-take (suc k) (x ∷ xs) zero h = refl
  get_elem?-take (suc k) (x ∷ xs) (suc i) h = get_elem?-take k xs i (omega arith)

  pub get_elem?-drop :
      (k : ℕ) (xs : List A) (i : ℕ) → get_elem? (drop k xs) i ≡ get_elem? xs (k + i)
  get_elem?-drop zero xs i = ap (get_elem? xs) (omega arith)
  get_elem?-drop (suc k) [] i = refl
  get_elem?-drop (suc k) (x ∷ xs) i =
      let e : suc (k + i) ≡ suc k + i = omega arith in
      get_elem?-drop k xs i ∙ ap (get_elem? (x ∷ xs)) e

  -- A list with the window `lo..hi` replaced.
  abbrev pub splice : (lo hi : ℕ) → List A → List A → List A
  splice lo hi xs ys = take lo xs ++ (ys ++ drop hi xs)

  module _ (xs ys : List A) (lo hi j : ℕ) (le : lo ≤ hi) (fit : hi ≤ length xs)
      (len : length ys ≡ hi - lo) where
    pub splice-inside : lo ≤ j → j < hi → get_elem? (splice lo hi xs ys) j ≡ get_elem? ys (j - lo)
    splice-inside le' lt =
        let front = length-take lo xs (omega arith) in
        get_elem?-append_right (take lo xs) (ys ++ drop hi xs) j (omega (arith, front))
        ∙ get_elem?-append_left ys (drop hi xs) (j - length (take lo xs)) (omega (arith, front))
        ∙ ap (get_elem? ys) (omega (arith, front))

    pub splice-before : j < lo → get_elem? (splice lo hi xs ys) j ≡ get_elem? xs j
    splice-before lt =
        let front = length-take lo xs (omega arith) in
        get_elem?-append_left (take lo xs) (ys ++ drop hi xs) j (omega (arith, front))
        ∙ get_elem?-take lo xs j lt

    pub splice-after : hi ≤ j → get_elem? (splice lo hi xs ys) j ≡ get_elem? xs j
    splice-after ge =
        let front = length-take lo xs (omega arith) in
        get_elem?-append_right (take lo xs) (ys ++ drop hi xs) j (omega (arith, front))
        ∙ get_elem?-append_right ys (drop hi xs) (j - length (take lo xs)) (omega (arith, front))
        ∙ get_elem?-drop hi xs (j - length (take lo xs) - length ys)
        ∙ ap (get_elem? xs) (omega (arith, front))

    pub length-splice : length (splice lo hi xs ys) ≡ length xs
    length-splice =
        let front = length-take lo xs (omega arith) in
        omega (
          arith,
          front,
          length-append (take lo xs) (ys ++ drop hi xs),
          length-append ys (drop hi xs),
          length-drop hi xs,
        )
