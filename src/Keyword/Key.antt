-- ===== src/Keyword/Key.antt =====
-- Keys `[u8; N]`, and `HashMap<[u8; N], u32>` as an association list whose newest entry counts.
use poulpy_pir.Prelude.{
  ℕ, suc, ◌+◌, ◌≡◌, ◌≢◌, refl, List, [], ◌∷◌, ◌++◌, Bool, true, false, ◌&&◌, ◌==◌, Option, none,
  some, arith, if◌then◌else◌, length, Bool-cases, inl, inr,
}

abbrev pub IsKey : ℕ → List ℕ → Type 0
IsKey n key = length key ≡ n

unfoldable pub same_key : List ℕ → List ℕ → Bool
same_key [] [] = true
same_key (a ∷ as') (b ∷ bs) = a == b && same_key as' bs
same_key _ _ = false

pub same_key→eq : (a b : List ℕ) → same_key a b ≡ true → a ≡ b
unfolding same_key
same_key→eq [] [] h = refl
same_key→eq [] (b ∷ bs) h = cc
same_key→eq (a ∷ as') [] h = cc
same_key→eq (a ∷ as') (b ∷ bs) h = ground (arith, same_key→eq as' bs)

pub same_key_refl : (a : List ℕ) → same_key a a ≡ true
unfolding same_key
same_key_refl [] = refl
same_key_refl (a ∷ as') = ground (arith, same_key_refl as')

pub same_key_ne : (a b : List ℕ) → a ≢ b → same_key a b ≡ false
same_key_ne a b ne = elim (Bool-cases (same_key a b)) [
  | inl same ↦ absurd (ne (same_key→eq a b same))
  | inr differ ↦ differ
]

abbrev pub KeyMap : Type 0
KeyMap = List (List ℕ × ℕ)

unfoldable pub lookup : List ℕ → KeyMap → Option ℕ
lookup key [] = none
lookup key ((k, v) ∷ rest) = if same_key k key then some v else lookup key rest

-- The position of a key in a list of keys, counted from `from`.
unfoldable pub position : List ℕ → ℕ → List (List ℕ) → Option ℕ
position key from [] = none
position key from (k ∷ ks) =
    let rest = position key (suc from) ks in if same_key k key then some from else rest

pub position-append :
    (key k : List ℕ) (from : ℕ) (ks : List (List ℕ))
    → position key from (ks ++ k ∷ []) ≡ elim (position key from ks) [
      | some i ↦ some i
      | none ↦ if same_key k key then some (length ks + from) else none
    ]
unfolding position
position-append key k from [] = ground arith
position-append key k from (j ∷ ks) = ground (arith, position-append key k (suc from) ks)
