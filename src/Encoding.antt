-- ===== src/Encoding.antt =====
-- src/encoding.rs: `ModPEncoder`, the embedding of residues modulo `p` into a grid of 2^K torus points.
-- Integers are exact: the source widens to `i128` where a product does not fit an `i64`.
pub mod Signed
pub mod Round
pub mod RoundTrip
use poulpy_pir.Prelude.{
  ℕ, suc, ◌+◌, ◌-◌, ◌*◌, ◌/◌, ◌%◌, ◌^◌, ℤ, pos, negsuc, sub_ℕ, ltb, leb, if◌then◌else◌, Bool, ◌&&◌,
  List, map, ◌++◌, length, drop, ◌==◌, div_ceil,
}
use poulpy_pir.Error.{Result, ok, ◌>>=◌, ◌>>◌, assert}
use poulpy_pir.Encoding.Signed.{neg_of, scale, rem_euclid, add_ℤ, sub_ℤ, mul_ℤ}

pub record ModPEncoder : Type 0 where
  pub p : ℕ
  pub torus_bits : ℕ
  pub torus_scale : ℕ
  pub torus_half : ℕ
  pub encoded_unit : ℕ

-- The assertion on `p` holds of every negative number too.
unfoldable pub new : ℤ → ℕ → Result ModPEncoder
new (negsuc n) torus_bits = Result.panic
new (pos p) torus_bits = do
  assert (ltb 1 p)
  assert (leb 1 torus_bits && leb torus_bits 54)
  let torus_scale = 2 ^ torus_bits
  assert (ltb p torus_scale)
  let q = torus_scale / p
  let r = torus_scale - q * p
  ok (record {
    p = p;
    torus_bits = torus_bits;
    torus_scale = torus_scale;
    torus_half = torus_scale / 2;
    encoded_unit = if leb p (2 * r) then q + 1 else q;
  })

unfoldable pub center_in_place : ℕ → ℕ → ℤ
center_in_place value p = if ltb (p / 2) value then sub_ℕ value p else pos value

unfoldable pub centered_mod : ℤ → ℕ → ℤ
unfolding rem_euclid
centered_mod value p =
    let reduced = rem_euclid value p in if ltb (p / 2) reduced then sub_ℕ reduced p else pos reduced

unfoldable pub centered_mod_torus : ℤ → (modulus half : ℕ) → ℤ
unfolding rem_euclid
centered_mod_torus value modulus half =
    let reduced = rem_euclid value modulus in
    if leb half reduced then sub_ℕ reduced modulus else pos reduced

-- Both callers pass a positive denominator.
unfoldable pub div_round_nearest : ℤ → ℕ → ℤ
div_round_nearest (pos num) den = pos ((num + den / 2) / den)
div_round_nearest (negsuc num) den = neg_of ((suc num + den / 2) / den)

unfoldable pub normalize : ModPEncoder → ℤ → ℤ
unfolding centered_mod
normalize enc value = centered_mod value enc.p

unfoldable pub add : ModPEncoder → ℤ → ℤ → ℤ
unfolding centered_mod
add enc lhs rhs = centered_mod (add_ℤ lhs rhs) enc.p

unfoldable pub sub : ModPEncoder → ℤ → ℤ → ℤ
unfolding centered_mod
sub enc lhs rhs = centered_mod (sub_ℤ lhs rhs) enc.p

unfoldable pub mul : ModPEncoder → ℤ → ℤ → ℤ
unfolding center_in_place rem_euclid
mul enc lhs rhs = center_in_place (rem_euclid (mul_ℤ lhs rhs) enc.p) enc.p

unfoldable pub encode_coeff : ModPEncoder → ℤ → ℤ
unfolding normalize div_round_nearest
encode_coeff enc value = div_round_nearest (scale (normalize enc value) enc.torus_scale) enc.p

unfoldable pub decode_coeff : ModPEncoder → ℤ → ℤ
unfolding centered_mod_torus centered_mod div_round_nearest
decode_coeff enc value =
    let centered = centered_mod_torus value enc.torus_scale enc.torus_half in
    let decoded = div_round_nearest (scale centered enc.p) enc.torus_scale in
    centered_mod decoded enc.p

-- poulpy's polynomials: `cols` columns of `n` coefficients in `size` limbs. `encode_vec_i64` writes a column at
-- `k` bits, in limbs of `base2k` bits, and `decode_vec_i64` reads one into a buffer of `n` coefficients.
pub record Limbs : Type 1 where
  pub VecZnx : Type 0
  pub n : VecZnx → ℕ
  pub cols : VecZnx → ℕ
  pub size : VecZnx → ℕ
  pub encode_vec_i64 : VecZnx → (base2k col k : ℕ) → List ℤ → VecZnx
  pub decode_vec_i64 : VecZnx → (base2k col k : ℕ) → List ℤ

-- The coefficients of a column, as `decode_vec_i64` leaves them.
unfoldable pub decode_coeffs : ModPEncoder → List ℤ → List ℤ
decode_coeffs enc torus = map (decode_coeff enc) torus

module _ (z : Limbs) where
  open z use {VecZnx, n, cols, size, encode_vec_i64, decode_vec_i64}

  unfoldable pub encode_vec : ModPEncoder → VecZnx → (base2k col : ℕ) → List ℤ → Result VecZnx
  unfolding div_ceil
  encode_vec enc out base2k col values = do
    assert (ltb 0 base2k)
    let native_size = div_ceil enc.torus_bits base2k
    assert (leb native_size (size out))
    assert (ltb col (cols out))
    assert (length values == n out)
    let torus = map (encode_coeff enc) values
    ok (encode_vec_i64 out base2k col enc.torus_bits torus)

  -- The first `n` coefficients of `values` are written over.
  unfoldable pub decode_vec : ModPEncoder → VecZnx → (base2k col : ℕ) → List ℤ → Result (List ℤ)
  unfolding decode_coeffs div_ceil
  decode_vec enc src base2k col values = do
    assert (ltb 0 base2k)
    let native_size = div_ceil enc.torus_bits base2k
    assert (leb native_size (size src))
    assert (ltb col (cols src))
    assert (leb (n src) (length values))
    let torus = decode_vec_i64 src base2k col enc.torus_bits
    ok (decode_coeffs enc torus ++ drop (n src) values)
