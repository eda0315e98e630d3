-- ===== src/Tests/Encoding.antt =====
-- The encoder at the modulus 65535 and 54 bits.
use poulpy_pir.Prelude.{
  ℕ, zero, suc, ◌^◌, ◌≤◌, ◌≡◌, refl, sym, ap, ◌∙◌, List, [], ◌∷◌, ◌++◌, length, drop, ℤ, pos,
  negsuc, map, div_ceil, arith,
}
use poulpy_pir.Error.{ok}
use poulpy_pir.Encoding.{
  ModPEncoder, new, normalize, encode_coeff, decode_coeff, Limbs, encode_vec, decode_vec,
}
use poulpy_pir.Encoding.Signed.{rem_euclid}
use poulpy_pir.Encoding.RoundTrip.{IsEncoder, AreExact, decode_vec-encode_vec}

abbrev encoder : ModPEncoder
encoder = record {
  p = 65535;
  torus_bits = 54;
  torus_scale = 2 ^ 54;
  torus_half = 2 ^ 53;
  encoded_unit = 274882101312;
}

built : new (pos 65535) 54 ≡ ok encoder
unfolding new
built = refl

encoder-IsEncoder : IsEncoder encoder
encoder-IsEncoder = record { p_gt = omega arith; p_lt = omega arith; even = refl }

minus_one : decode_coeff encoder (encode_coeff encoder (pos 65534)) ≡ negsuc 0
unfolding decode_coeff encode_coeff
minus_one = refl

-- Polynomials of one column, whose coefficients are kept as they are.
abbrev entry_of : List ℤ → ℕ → ℤ
entry_of [] i = pos 0
entry_of (v ∷ vs) zero = v
entry_of (v ∷ vs) (suc i) = entry_of vs i

abbrev read_out : (ℕ → ℤ) → ℕ → List ℤ
read_out f zero = []
read_out f (suc n) = f zero ∷ read_out (λ i. f (suc i)) n

read_out-entry_of : (vs : List ℤ) → read_out (entry_of vs) (length vs) ≡ vs
read_out-entry_of [] = refl
read_out-entry_of (v ∷ vs) = ap (λ rest. v ∷ rest) (read_out-entry_of vs)

abbrev column : Limbs
column = record {
  VecZnx = ℕ × (ℕ → ℤ);
  n = λ v. v.0;
  cols = λ v. 1;
  size = λ v. 3;
  encode_vec_i64 = λ v base2k col k values. (v.0, entry_of values);
  decode_vec_i64 = λ v base2k col k. read_out (v.1) (v.0);
}

column-AreExact : AreExact column
column-AreExact = record {
  n_kept = λ v base2k col k values. refl;
  cols_kept = λ v base2k col k values. refl;
  size_kept = λ v base2k col k values. refl;
  read_back = λ v base2k col k values limb room fits len.
      ap (map (λ x. rem_euclid x (2 ^ k)))
        (ap (read_out (entry_of values)) (sym len) ∙ read_out-entry_of values);
}

three_limbs : div_ceil 54 18 ≤ 3
unfolding div_ceil
three_limbs = omega arith

decode_vec-encode_vec_example :
    (enc : ModPEncoder) × (new (pos 65536) 54 ≡ ok enc)
    × (enc.p ≡ 65536)
    × (encode_coeff enc (pos 1) ≡ pos enc.encoded_unit)
    × (out' : ℕ × (ℕ → ℤ)) × (encode_vec column enc (2, λ i. pos 0) 18 0 (pos 7 ∷ negsuc 2 ∷ [])
        ≡ ok out')
    × (decode_vec column enc out' 18 0 (pos 1 ∷ pos 2 ∷ pos 9 ∷ [])
        ≡ ok (map (normalize enc) (pos 7 ∷ negsuc 2 ∷ []) ++ drop 2 (pos 1 ∷ pos 2 ∷ pos 9 ∷ [])))
decode_vec-encode_vec_example =
    decode_vec-encode_vec column column-AreExact 65536 54 (2, λ i. pos 0) 18 0
      (pos 7 ∷ negsuc 2 ∷ []) (pos 1 ∷ pos 2 ∷ pos 9 ∷ []) (omega arith) (omega arith) (omega arith)
      (omega arith) (omega arith) three_limbs (omega arith) refl (omega arith)
