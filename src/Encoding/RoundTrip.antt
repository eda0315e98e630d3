-- ===== src/Encoding/RoundTrip.antt =====
-- Decoding what was encoded gives the normalized plaintext.
use poulpy_pir.Prelude.{
  ℕ, zero, suc, ◌+◌, ◌-◌, ◌*◌, ◌/◌, ◌%◌, ◌^◌, ◌≤◌, ◌<◌, ◌≡◌, refl, sym, ap, ◌∙◌, ℤ, pos, negsuc,
  pos_part, neg_part, leb, arith, if◌then◌else◌, mod_bound, List, [], ◌∷◌, map, ap₂, lt→ltb, le→leb,
  length, length-map, drop, ◌++◌, div_ceil, eq→==,
}
use poulpy_pir.Error.{ok}
use poulpy_pir.Encoding.{
  ModPEncoder, new, normalize, centered_mod, centered_mod_torus, div_round_nearest, encode_coeff,
  decode_coeff, Limbs, decode_coeffs, encode_vec, decode_vec,
}
use poulpy_pir.Encoding.Signed.{neg_of, scale, rem_euclid}
use poulpy_pir.Encoding.Round.{round_back, round_bound, round_below, round_zero, round_unit}
use native.Mathlib.Nat.{pow-suc}
use native.Mathlib.Decide.{dec_lt}
use mathlib.Core.Path.{subst}

-- What `ModPEncoder::new` establishes.
pub record IsEncoder (enc : ModPEncoder) : Type 0 where
  pub p_gt : 1 < enc.p
  pub p_lt : enc.p < enc.torus_scale
  pub even : enc.torus_scale ≡ 2 * enc.torus_half

-- The centred residues: above -p/2 and up to p/2.
abbrev pub IsCentred : ℕ → ℤ → Type 0
IsCentred p z = (pos_part z ≤ p / 2) × (2 * neg_part z < p)

rem_euclid-lt : (z : ℤ) (m : ℕ) → 0 < m → rem_euclid z m < m
unfolding rem_euclid
rem_euclid-lt (pos n) m h = mod_bound n m h
rem_euclid-lt (negsuc n) m h = omega arith

pub centered_mod-IsCentred : (z : ℤ) (p : ℕ) → 0 < p → IsCentred p (centered_mod z p)
unfolding centered_mod
centered_mod-IsCentred z p h = ground (arith, rem_euclid-lt z p h)

small_mod : (n m : ℕ) → n < m → n % m ≡ n
small_mod n m h = grind arith

-- A centred residue is its own centred residue.
pub centered_mod-centred : (z : ℤ) (p : ℕ) → IsCentred p z → centered_mod z p ≡ z
unfolding centered_mod rem_euclid
centered_mod-centred (pos n) p h = ground (arith, small_mod n p)
centered_mod-centred (negsuc n) p h = ground (arith, small_mod n p)

times_pos : (a b : ℕ) → 0 < a → 0 < b → 0 < a * b
times_pos a b h k = grind arith

div_round_nearest-neg_of :
    (n d : ℕ) → 0 < n → div_round_nearest (neg_of n) d ≡ neg_of ((n + d / 2) / d)
unfolding div_round_nearest
div_round_nearest-neg_of zero d h = absurd (omega arith)
div_round_nearest-neg_of (suc n) d h = refl

scale-neg_of : (g p : ℕ) → scale (neg_of g) p ≡ neg_of (g * p)
scale-neg_of zero p = let z : 0 * p ≡ 0 = omega arith in rw z
scale-neg_of (suc g) p = refl

torus_pos : (g t half : ℕ) → g < half → t ≡ 2 * half → centered_mod_torus (pos g) t half ≡ pos g
unfolding centered_mod_torus rem_euclid
torus_pos g t half lt even = ground (arith, small_mod g t)

torus_half_point :
    (g t half : ℕ)
    → g ≡ half
    → t ≡ 2 * half
    → 0 < half
    → centered_mod_torus (pos g) t half ≡ neg_of g
unfolding centered_mod_torus rem_euclid
torus_half_point zero t half e even h = absurd (omega arith)
torus_half_point (suc g) t half e even h = ground (arith, small_mod (suc g) t)

torus_neg :
    (g t half : ℕ)
    → 0 < g
    → g < half
    → t ≡ 2 * half
    → centered_mod_torus (neg_of g) t half ≡ neg_of g
unfolding centered_mod_torus rem_euclid
torus_neg zero t half h lt even = absurd (omega arith)
torus_neg (suc g) t half h lt even = ground (arith, small_mod g t)

centered_half : (a p : ℕ) → p ≤ 2 * a → a ≤ p / 2 → 0 < p → centered_mod (neg_of a) p ≡ pos a
unfolding centered_mod rem_euclid
centered_half zero p h k pos_ = absurd (omega arith)
centered_half (suc a) p h k pos_ = ground (arith, small_mod a p)

module _ (enc : ModPEncoder) (h : IsEncoder enc) where
  abbrev grid : ℕ → ℕ
  grid a = (a * enc.torus_scale + enc.p / 2) / enc.p

  -- The decoder's rounding gives the magnitude back.
  back : (a : ℕ) → (grid a * enc.p + enc.torus_scale / 2) / enc.torus_scale ≡ a
  back a = round_back a enc.p enc.torus_scale enc.torus_half h.p_gt h.p_lt h.even

  bound : (a : ℕ) → a ≤ enc.p / 2 → grid a ≤ enc.torus_half
  bound a small = round_bound a enc.p enc.torus_scale enc.torus_half h.p_gt h.p_lt h.even small

  abbrev after_torus : ℤ → ℤ
  after_torus z = centered_mod (div_round_nearest (scale z enc.p) enc.torus_scale) enc.p

  decode_step :
      (x z : ℤ)
      → centered_mod_torus x enc.torus_scale enc.torus_half ≡ z
      → decode_coeff enc x ≡ after_torus z
  unfolding decode_coeff
  decode_step x z e = rw e

  after_pos : (a : ℕ) → a ≤ enc.p / 2 → after_torus (pos (grid a)) ≡ pos a
  unfolding div_round_nearest
  after_pos a small =
      rw (back a) (centered_mod-centred (pos a) enc.p (small, omega (arith, h.p_gt)))

  after_neg : (a : ℕ) → 0 < grid a → after_torus (neg_of (grid a)) ≡ centered_mod (neg_of a) enc.p
  after_neg a pos_ = rw (
    scale-neg_of (grid a) enc.p,
    div_round_nearest-neg_of (grid a * enc.p) enc.torus_scale
        (times_pos _ enc.p pos_ (omega (arith, h.p_gt))),
    back a,
  )

  grid_pos : (a : ℕ) → 0 < a → 0 < grid a
  grid_pos a a_pos = elim (dec_lt 0 (grid a)) [
    | yes there ↦ there
    | no none_ ↦
        let z : 0 ≡ grid a = omega arith in
        let back_zero : (0 * enc.p + enc.torus_scale / 2) / enc.torus_scale ≡ a = rw z (back a) in
        absurd (
          omega
            (arith, back_zero, round_zero enc.p enc.torus_scale (omega (arith, h.p_gt, h.p_lt))))
  ]

  decode_pos : (a : ℕ) → a ≤ enc.p / 2 → decode_coeff enc (pos (grid a)) ≡ pos a
  decode_pos a small = elim (dec_lt (grid a) enc.torus_half) [
    | yes below ↦
        decode_step (pos (grid a)) (pos (grid a))
          (torus_pos (grid a) enc.torus_scale enc.torus_half below (h.even))
        ∙ after_pos a small
    | no above ↦
        let at_half : grid a ≡ enc.torus_half = omega (arith, bound a small) in
        let half_p : enc.p ≤ 2 * a = elim (dec_lt (2 * a) enc.p) [
          | yes less ↦ absurd (
              omega (
                arith,
                round_below a enc.p enc.torus_scale enc.torus_half h.p_gt h.p_lt h.even less,
              ))
          | no more ↦ omega arith
        ] in
        decode_step (pos (grid a)) (neg_of (grid a)) (
          torus_half_point (grid a) enc.torus_scale enc.torus_half at_half h.even
            (omega (arith, h.p_gt, h.p_lt, h.even)))
        ∙ after_neg a (grid_pos a (omega (arith, h.p_gt)))
        ∙ centered_half a enc.p half_p small (omega (arith, h.p_gt))
  ]

  decode_neg : (a : ℕ) → 2 * suc a < enc.p → decode_coeff enc (neg_of (grid (suc a))) ≡ negsuc a
  decode_neg a small =
      decode_step (neg_of (grid (suc a))) (neg_of (grid (suc a))) (
        torus_neg (grid (suc a)) enc.torus_scale enc.torus_half (grid_pos (suc a) (omega arith))
          (round_below (suc a) enc.p enc.torus_scale enc.torus_half h.p_gt h.p_lt h.even small)
          h.even)
      ∙ after_neg (suc a) (grid_pos (suc a) (omega arith))
      ∙ centered_mod-centred (negsuc a) enc.p (omega arith, small)

  encode_centred :
      (z : ℤ)
      → IsCentred enc.p z
      → decode_coeff enc (div_round_nearest (scale z enc.torus_scale) enc.p) ≡ z
  encode_centred (pos a) c = unfold div_round_nearest in decode_pos a c.0
  encode_centred (negsuc a) c =
      rw
        (div_round_nearest-neg_of (suc a * enc.torus_scale) enc.p
          (times_pos (suc a) enc.torus_scale (omega arith) (omega (arith, h.p_gt, h.p_lt))))
        (decode_neg a c.1)

  -- Decoding an encoded plaintext gives its centred residue modulo `p`.
  pub decode_coeff-encode_coeff : (v : ℤ) → decode_coeff enc (encode_coeff enc v) ≡ normalize enc v
  unfolding encode_coeff normalize
  decode_coeff-encode_coeff v =
      encode_centred (centered_mod v enc.p) (centered_mod-IsCentred v enc.p (omega (arith, h.p_gt)))

pow_even : (k : ℕ) → 1 ≤ k → 2 ^ k ≡ 2 * (2 ^ k / 2)
pow_even zero h = absurd (omega arith)
pow_even (suc k) h = omega (arith, pow-suc 2 k)

-- What the code relies on in poulpy's limbs: writing a column keeps the shape, and
-- reading it back at the same precision gives its coefficients modulo `2 ^ k`.
pub record AreExact (z : Limbs) : Type 0 where
  pub n_kept :
      (v : z.VecZnx) (base2k col k : ℕ) (values : List ℤ)
      → z.n (z.encode_vec_i64 v base2k col k values) ≡ z.n v
  pub cols_kept :
      (v : z.VecZnx) (base2k col k : ℕ) (values : List ℤ)
      → z.cols (z.encode_vec_i64 v base2k col k values) ≡ z.cols v
  pub size_kept :
      (v : z.VecZnx) (base2k col k : ℕ) (values : List ℤ)
      → z.size (z.encode_vec_i64 v base2k col k values) ≡ z.size v
  pub read_back :
      (v : z.VecZnx) (base2k col k : ℕ) (values : List ℤ)
      → 0 < base2k
      → div_ceil k base2k ≤ z.size v
      → col < z.cols v
      → length values ≡ z.n v
      → map
          (λ x. rem_euclid x (2 ^ k))
          (z.decode_vec_i64 (z.encode_vec_i64 v base2k col k values) base2k col k)
        ≡ map (λ x. rem_euclid x (2 ^ k)) values

-- The decoder reads a coefficient modulo the grid only.
decode_coeff-rem :
    (enc : ModPEncoder) (x y : ℤ)
    → rem_euclid x enc.torus_scale ≡ rem_euclid y enc.torus_scale
    → decode_coeff enc x ≡ decode_coeff enc y
unfolding decode_coeff centered_mod_torus
decode_coeff-rem enc x y e = rw e refl

all_back :
    (enc : ModPEncoder)
    → IsEncoder enc
    → (vs xs : List ℤ)
    → map (λ x. rem_euclid x enc.torus_scale) xs
      ≡ map (λ x. rem_euclid x enc.torus_scale) (map (encode_coeff enc) vs)
    → decode_coeffs enc xs ≡ map (normalize enc) vs
unfolding decode_coeffs
all_back enc h [] [] e = refl
all_back enc h [] (x ∷ xs) e = cc
all_back enc h (v ∷ vs) [] e = cc
all_back enc h (v ∷ vs) (x ∷ xs) e =
    let here : rem_euclid x enc.torus_scale ≡ rem_euclid (encode_coeff enc v) enc.torus_scale =
      cc in
    let later : map (λ x. rem_euclid x enc.torus_scale) xs
        ≡ map (λ x. rem_euclid x enc.torus_scale) (map (encode_coeff enc) vs) =
      cc in
    ap₂ ◌∷◌ (decode_coeff-rem enc x (encode_coeff enc v) here ∙ decode_coeff-encode_coeff enc h v)
      (all_back enc h vs xs later)

module _ (z : Limbs) (exact : AreExact z) where
  open z use {VecZnx, n, cols, size, encode_vec_i64}

  -- A column that was encoded, read back.
  column_back :
      (enc : ModPEncoder)
      → IsEncoder enc
      → enc.torus_scale ≡ 2 ^ enc.torus_bits
      → (out : VecZnx) (base2k col : ℕ) (vs values : List ℤ) → 0 < base2k
      → div_ceil enc.torus_bits base2k ≤ size out
      → col < cols out
      → length vs ≡ n out
      → n out ≤ length values
      → (out' : VecZnx) × (encode_vec z enc out base2k col vs ≡ ok out')
        × (decode_vec z enc out' base2k col values
            ≡ ok (map (normalize enc) vs ++ drop (n out) values))
  unfolding encode_vec decode_vec
  column_back enc h scale_eq out base2k col vs values limb room fits len long =
      let k : ℕ = enc.torus_bits in
      let torus : List ℤ = map (encode_coeff enc) vs in
      let back =
        exact.read_back out base2k col k torus limb room fits
          (length-map (encode_coeff enc) vs ∙ len) in
      let out' : VecZnx = encode_vec_i64 out base2k col k torus in
      let same = all_back enc h vs (z.decode_vec_i64 out' base2k col k) (
        subst
          (λ (m : ℕ).
            map (λ x. rem_euclid x m) (z.decode_vec_i64 out' base2k col k)
            ≡ map (λ x. rem_euclid x m) torus)
          (sym scale_eq) back) in
      (
        out',
        rw (
          lt→ltb 0 base2k limb,
          le→leb (div_ceil k base2k) (size out) room,
          lt→ltb col (cols out) fits,
          eq→== (length vs) (n out) len,
        ),
        rw
            (
              exact.size_kept out base2k col k torus,
              exact.cols_kept out base2k col k torus,
              exact.n_kept out base2k col k torus,
              lt→ltb 0 base2k limb,
              le→leb (div_ceil k base2k) (size out) room,
              lt→ltb col (cols out) fits,
              le→leb (n out) (length values) long,
            )
            (ap (λ ds. ok (ds ++ drop (n out) values)) same),
      )

  -- For limbs that keep a column modulo `2 ^ k`, the constructor accepts a modulus above 1 and below the grid
  -- of `1 <= K <= 54` bits, and what it returns has the encoding of 1 for its unit. Where the limbs are
  -- enough for `K` bits, the column is one of the polynomial, the values are as many as its
  -- coefficients and the output has room for them, a vector is encoded into the column, and decoding
  -- that column writes the centred residue of each value at the front of the output and keeps the rest.
  pub decode_vec-encode_vec :
      (p k : ℕ) (out : VecZnx) (base2k col : ℕ) (vs values : List ℤ)
      → 1 < p
      → 1 ≤ k
      → k ≤ 54
      → p < 2 ^ k
      → 0 < base2k
      → div_ceil k base2k ≤ size out
      → col < cols out
      → length vs ≡ n out
      → n out ≤ length values
      → (enc : ModPEncoder) × (new (pos p) k ≡ ok enc)
        × (enc.p ≡ p)
        × (encode_coeff enc (pos 1) ≡ pos enc.encoded_unit)
        × (out' : VecZnx) × (encode_vec z enc out base2k col vs ≡ ok out')
        × (decode_vec z enc out' base2k col values
            ≡ ok (map (normalize enc) vs ++ drop (n out) values))
  unfolding new
  decode_vec-encode_vec p k out base2k col vs values p_gt k_pos k_le p_lt limb room fits len long =
      let unit = if leb p (2 * (2 ^ k - 2 ^ k / p * p)) then 2 ^ k / p + 1 else 2 ^ k / p in
      let enc : ModPEncoder = record {
        p = p;
        torus_bits = k;
        torus_scale = 2 ^ k;
        torus_half = 2 ^ k / 2;
        encoded_unit = unit;
      } in
      let ready : IsEncoder enc = record { p_gt = p_gt; p_lt = p_lt; even = pow_even k k_pos } in
      let (out', run, back) =
        column_back enc ready refl out base2k col vs values limb room fits len long in
      (
        enc,
        rw (lt→ltb 1 p p_gt, le→leb 1 k k_pos, le→leb k 54 k_le, lt→ltb p (2 ^ k) p_lt),
        refl,
        unfold encode_coeff normalize div_round_nearest in
            rw (centered_mod-centred (pos 1) p (omega arith, omega arith))
              (ap pos (round_unit p (2 ^ k) p_gt)),
        out',
        run,
        back,
      )
