-- ===== src/Payload/P65535/Digits.antt =====
-- src/payload.rs: centred digits, and `encode` and `decode` of `P65535<[u8; 32]>`.
use poulpy_pir.Prelude.{
  ℕ, zero, suc, ◌+◌, ◌-◌, ◌*◌, ◌%◌, ◌^◌, ◌<◌, ◌≡◌, refl, sym, ap, ap₂, ◌∙◌, List, [], ◌∷◌, arith,
  length, All, IsByte, ltb, if◌then◌else◌, ℤ, pos, negsuc, sub_ℕ, u16_as_i16, IsI16,
}
use poulpy_pir.Payload.P65535.Limbs.{
  IsLimb, u256_le_to_limbs, bytes_of, divmod_65535_in_place, mul_add_65535, value, divmod_lem,
  mul_add_lem, value-injective, value-lt, length-limbs_of, limbs_of-IsLimb, bytes_of-limbs_of,
}
use native.Mathlib.Nat.{pow-suc}

-- `digit as i16` and `(digit as i32 - 65535) as i16`.
unfoldable pub digit_to_centred_i16 : ℕ → ℤ
unfolding u16_as_i16
digit_to_centred_i16 digit = if ltb 32767 digit then sub_ℕ digit 65535 else u16_as_i16 digit

-- `stored as u16` and `(stored as i32 + 65535) as u16`.
unfoldable pub centred_i16_to_digit : ℤ → ℕ
centred_i16_to_digit (pos n) = n
centred_i16_to_digit (negsuc n) = (65534 - n) % 65536

unfoldable pub exponent : ℕ
exponent = 17

-- The loop of `encode` over the next `k` digits, lowest first: the digits, and the limbs left.
unfoldable pub encode_loop : ℕ → List ℕ → List ℤ × List ℕ
unfolding divmod_65535_in_place digit_to_centred_i16
encode_loop zero limbs = ([], limbs)
encode_loop (suc k) limbs =
    let (limbs', digit) = divmod_65535_in_place limbs in
    let (digits, left) = encode_loop k limbs' in (digit_to_centred_i16 digit ∷ digits, left)

unfoldable pub encode : List ℕ → List ℤ
encode v = (encode_loop 17 (u256_le_to_limbs v)).0

-- The loop of `decode` goes from the last digit to the first.
unfoldable pub decode_loop : List ℤ → List ℕ
unfolding mul_add_65535 centred_i16_to_digit
decode_loop [] = 0 ∷ 0 ∷ 0 ∷ 0 ∷ []
decode_loop (stored ∷ rest) = (mul_add_65535 (decode_loop rest) (centred_i16_to_digit stored)).0

unfoldable pub decode : List ℤ → List ℕ
decode digits = bytes_of (decode_loop digits)

-- The two maps between digits below 65535 and centred digits are inverse to each other.
pub centred_round_trip :
    (d : ℕ)
    → d < 65535
    → (centred_i16_to_digit (digit_to_centred_i16 d) ≡ d) × IsI16 (digit_to_centred_i16 d)
unfolding centred_i16_to_digit digit_to_centred_i16 u16_as_i16
centred_round_trip d h = ground arith

carry_zero : (v b out w : ℕ) → v + b * out ≡ w → w < b → out ≡ 0
carry_zero v b zero w e h = refl
carry_zero v b (suc out) w e h = absurd (omega arith)

-- One step of `decode` undoes one step of `encode`, and carries nothing out of the last limb.
pub mul_add-divmod :
    (ls : List ℕ)
    → All IsLimb ls
    → let (q, r) = divmod_65535_in_place ls in mul_add_65535 q r ≡ (ls, 0)
mul_add-divmod ls h =
    let (e, lt, fit, len) = divmod_lem ls h in
    let (q, r) = divmod_65535_in_place ls in
    let (e', fit', len') = mul_add_lem q r fit in
    let none_out = carry_zero _ _ _ (value ls) (e' ∙ e) (rw (← len) at (value-lt ls h)) in
    let same : value (mul_add_65535 q r).0 ≡ value ls =
      omega (arith, e, e', ap (λ (t : ℕ). (2 ^ 64) ^ length q * t) none_out) in
    let limbs = value-injective _ ls (len' ∙ len) fit' h same in λ i. (limbs i, none_out i)

pub length-encode_loop : (k : ℕ) (ls : List ℕ) → length (encode_loop k ls).0 ≡ k
unfolding encode_loop
length-encode_loop zero ls = refl
length-encode_loop (suc k) ls = ap suc (length-encode_loop k (divmod_65535_in_place ls).0)

pub encode_loop-IsI16 : (k : ℕ) (ls : List ℕ) → All IsLimb ls → All IsI16 (encode_loop k ls).0
unfolding encode_loop
encode_loop-IsI16 zero ls h = tt
encode_loop-IsI16 (suc k) ls h =
    let (e, lt, fit, len) = divmod_lem ls h in
    ((centred_round_trip _ lt).1, encode_loop-IsI16 k (divmod_65535_in_place ls).0 fit)

-- With enough digits nothing is left over, and `decode` reads the limbs back.
pub encode_loop_lem :
    (k : ℕ) (ls : List ℕ)
    → length ls ≡ 4
    → All IsLimb ls
    → value ls < 65535 ^ k
    → ((encode_loop k ls).1 ≡ 0 ∷ 0 ∷ 0 ∷ 0 ∷ []) × (decode_loop (encode_loop k ls).0 ≡ ls)
unfolding encode_loop decode_loop value
encode_loop_lem zero ls len fit h =
    let z : ls ≡ 0 ∷ 0 ∷ 0 ∷ 0 ∷ [] =
      value-injective ls (0 ∷ 0 ∷ 0 ∷ 0 ∷ []) len fit (omega arith) (omega arith) in
    (z, sym z)
encode_loop_lem (suc k) ls len fit h =
    let (e, lt, fit', len') = divmod_lem ls fit in
    let (z, back) =
      encode_loop_lem k (divmod_65535_in_place ls).0 (len' ∙ len) fit'
        (omega (arith, e, pow-suc 65535 k)) in
    (
      z,
      ap₂ (λ acc d. (mul_add_65535 acc d).0) back (centred_round_trip _ lt).0
          ∙ ap (λ p. p.0) (mul_add-divmod ls fit),
    )

two_256_digits : (n : ℕ) → n < (2 ^ 64) ^ 4 → n < 65535 ^ 17
two_256_digits n h = omega arith

module _ (v : List ℕ) (len : length v ≡ 32) (bytes : All IsByte v) where
  abbrev limbs : List ℕ
  limbs = u256_le_to_limbs v

  limbs-IsLimb : All IsLimb limbs
  unfolding u256_le_to_limbs
  limbs-IsLimb = limbs_of-IsLimb 4 v len bytes

  value-limbs-lt : value limbs < 65535 ^ 17
  unfolding u256_le_to_limbs
  value-limbs-lt = two_256_digits _ (rw (length-limbs_of 4 v) at (value-lt limbs limbs-IsLimb))

  loop_lem :
      ((encode_loop 17 limbs).1 ≡ 0 ∷ 0 ∷ 0 ∷ 0 ∷ [])
      × (decode_loop (encode_loop 17 limbs).0 ≡ limbs)
  unfolding u256_le_to_limbs
  loop_lem = encode_loop_lem 17 limbs (length-limbs_of 4 v) limbs-IsLimb value-limbs-lt

  -- The assertion at the end of `encode` holds on every 256-bit value: 17 digits leave no limb
  -- behind.
  pub encode_loop_exhausts : (encode_loop 17 limbs).1 ≡ 0 ∷ 0 ∷ 0 ∷ 0 ∷ []
  encode_loop_exhausts = loop_lem.0

  pub length-encode : length (encode v) ≡ 17
  unfolding encode
  length-encode = length-encode_loop 17 limbs

  pub encode-IsI16 : All IsI16 (encode v)
  unfolding encode
  encode-IsI16 = encode_loop-IsI16 17 limbs limbs-IsLimb

  -- Decoding the 17 digits of 32 bytes gives the bytes back.
  pub decode-encode : decode (encode v) ≡ v
  unfolding encode decode
  decode-encode = rw loop_lem.1 (unfold u256_le_to_limbs in bytes_of-limbs_of 4 v len bytes)
