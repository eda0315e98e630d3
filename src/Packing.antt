-- ===== src/Packing.antt =====
-- src/packing/: packing of LWE ciphertexts into ring ciphertexts. The polynomials and the operations
-- of the backend that the code calls on them are a parameter, `Module`.
pub mod Tree
pub mod Mask
pub mod Partial
pub mod Precompute
pub mod Pack
use poulpy_pir.Prelude.{
  ℕ, zero, suc, ◌^◌, ◌/◌, Bool, ◌%◌, ◌==◌, ◌≡◌, if◌then◌else◌, ℤ, List, [], ◌∷◌, length,
}

-- `Module<BE>` and the columns of a `VecZnx<BE>`.
pub record Module : Type 1 where
  pub n : ℕ
  pub Poly : Type 0
  pub zero_poly : Poly
  pub add_assign : Poly → Poly → Poly
  -- `automorphism_rotate p k a`: the automorphism `X -> X^p` of `a`, times `X^k`.
  pub automorphism_rotate : ℤ → ℕ → Poly → Poly
  pub galois_element : ℕ → ℤ
  -- `transpose cols a`: the `cols` columns of the transposed coefficient matrix.
  pub transpose : ℕ → List Poly → List Poly
  pub rsh_assign : (base2k k : ℕ) → Poly → Poly
  pub normalize : (dst_base2k src_base2k : ℕ) → Poly → Poly

-- What the code relies on: addition goes by coefficients, and a transposition has the columns that
-- it is asked for.
pub record IsAdditive (m : Module) : Type 0 where
  pub add_assoc :
      (a b c : m.Poly) → m.add_assign (m.add_assign a b) c ≡ m.add_assign a (m.add_assign b c)
  pub add_comm : (a b : m.Poly) → m.add_assign a b ≡ m.add_assign b a
  pub zero-add : (a : m.Poly) → m.add_assign m.zero_poly a ≡ a
  pub length-transpose : (cols : ℕ) (a : List m.Poly) → length (m.transpose cols a) ≡ cols

-- The sum of some polynomials.
abbrev pub sum : (m : Module) → List m.Poly → m.Poly
sum m [] = m.zero_poly
sum m (a ∷ rest) = m.add_assign a (sum m rest)

-- `usize::trailing_zeros` of a number that is not 0, with fuel.
abbrev halvings : ℕ → ℕ → ℕ
halvings zero n = 0
halvings (suc fuel) n = let rest = halvings fuel (n / 2) in if n % 2 == 0 then suc rest else 0

unfoldable pub trailing_zeros : ℕ → ℕ
trailing_zeros n = halvings n n

-- `usize::is_power_of_two`.
unfoldable pub is_power_of_two : ℕ → Bool
unfolding trailing_zeros
is_power_of_two n = 2 ^ trailing_zeros n == n
