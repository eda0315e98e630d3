-- ===== src/Payload/P65535/Limbs.antt =====
-- src/payload.rs: a U256 as little-endian `u64` limbs, division by 65535 in place, and the
-- multiplication by 65535 of the Horner loop in `decode`.
use poulpy_pir.Prelude.{
  ℕ, zero, suc, ◌+◌, ◌*◌, ◌/◌, ◌%◌, ◌^◌, ◌<◌, ◌≡◌, refl, ap, ap₂, List, [], ◌∷◌, ◌++◌, arith,
  length, All, IsByte, take, drop, to_le_bytes, from_le_bytes, from_le_bytes-lt,
  to_le_bytes-from_le_bytes, ◌∙◌, take-append-drop, length-take, length-drop_le, All-take, All-drop,
}
use native.Mathlib.Nat.{pow-suc}

abbrev pub IsLimb : ℕ → Type 0
IsLimb l = l < 2 ^ 64

-- `u64::from_le_bytes(value[8 * i..8 * i + 8])` for each of the next `k` limbs.
unfoldable pub limbs_of : ℕ → List ℕ → List ℕ
unfolding from_le_bytes
limbs_of zero value = []
limbs_of (suc k) value = from_le_bytes (take 8 value) ∷ limbs_of k (drop 8 value)

unfoldable pub u256_le_to_limbs : List ℕ → List ℕ
u256_le_to_limbs = limbs_of 4

-- The loop at the end of `decode`: `a[i * 8..(i + 1) * 8]` is `limb.to_le_bytes()`.
unfoldable pub bytes_of : List ℕ → List ℕ
unfolding to_le_bytes
bytes_of [] = []
bytes_of (limb ∷ rest) = to_le_bytes 8 limb ++ bytes_of rest

-- The loop runs from the last limb down: the remainder of the higher limbs comes first. The low
-- 64 bits of `r << 64` are zero, so `|` with a limb is `+`. The last remainder is returned.
unfoldable pub divmod_65535_in_place : List ℕ → List ℕ × ℕ
divmod_65535_in_place [] = ([], 0)
divmod_65535_in_place (limb ∷ rest) =
    let (rest', r) = divmod_65535_in_place rest in
    let cur = r * 2 ^ 64 + limb in (cur / 65535 % 2 ^ 64 ∷ rest', cur % 65535)

-- The inner loop of `decode`: `acc := acc * 65535 + carry`, with the carry out of the last limb.
unfoldable pub mul_add_65535 : List ℕ → ℕ → List ℕ × ℕ
mul_add_65535 [] carry = ([], carry)
mul_add_65535 (limb ∷ rest) carry =
    let prod = limb * 65535 + carry in
    let (rest', out) = mul_add_65535 rest (prod / 2 ^ 64) in (prod % 2 ^ 64 ∷ rest', out)

-- The number that the limbs stand for.
unfoldable pub value : List ℕ → ℕ
value [] = 0
value (limb ∷ rest) = limb + 2 ^ 64 * value rest

pub divmod_lem :
    (ls : List ℕ)
    → All IsLimb ls
    → let (q, r) = divmod_65535_in_place ls in
      (value q * 65535 + r ≡ value ls) × (r < 65535) × All IsLimb q × (length q ≡ length ls)
unfolding divmod_65535_in_place value
divmod_lem [] h = (omega arith, omega arith, tt, refl)
divmod_lem (l ∷ ls) h =
    let (e, lt, fit, len) = divmod_lem ls h.1 in
    (omega (arith, e, lt, h.0), omega arith, (omega (arith, lt, h.0), fit), ap suc len)

pub mul_add_lem :
    (ls : List ℕ) (c : ℕ)
    → All IsLimb ls
    → let (p, out) = mul_add_65535 ls c in
      (value p + (2 ^ 64) ^ length ls * out ≡ value ls * 65535 + c)
      × All IsLimb p
      × (length p ≡ length ls)
unfolding mul_add_65535 value
mul_add_lem [] c h = (omega arith, tt, refl)
mul_add_lem (l ∷ ls) c h =
    let carry = (l * 65535 + c) / 2 ^ 64 in
    let out = (mul_add_65535 ls carry).1 in
    let (e, fit, len) = mul_add_lem ls carry h.1 in
    (
      omega (arith, e, ap (λ (t : ℕ). t * out) (pow-suc (2 ^ 64) (length ls))),
      (omega arith, fit),
      ap suc len,
    )

pub value-injective :
    (ls ms : List ℕ)
    → length ls ≡ length ms
    → All IsLimb ls
    → All IsLimb ms
    → value ls ≡ value ms
    → ls ≡ ms
unfolding value
value-injective [] [] e h k v = refl
value-injective [] (m ∷ ms) e h k v = absurd (omega arith)
value-injective (l ∷ ls) [] e h k v = absurd (omega arith)
value-injective (l ∷ ls) (m ∷ ms) e h k v =
    ap₂ ◌∷◌ (omega (arith, h.0, k.0))
      (value-injective ls ms (omega arith) h.1 k.1 (omega (arith, h.0, k.0)))

pub value-lt : (ls : List ℕ) → All IsLimb ls → value ls < (2 ^ 64) ^ length ls
unfolding value
value-lt [] h = omega arith
value-lt (l ∷ ls) h = omega (arith, h.0, value-lt ls h.1, pow-suc (2 ^ 64) (length ls))

pub length-limbs_of : (k : ℕ) (v : List ℕ) → length (limbs_of k v) ≡ k
unfolding limbs_of
length-limbs_of zero v = refl
length-limbs_of (suc k) v = ap suc (length-limbs_of k (drop 8 v))

pub limbs_of-IsLimb :
    (k : ℕ) (v : List ℕ) → length v ≡ 8 * k → All IsByte v → All IsLimb (limbs_of k v)
unfolding limbs_of
limbs_of-IsLimb zero v e h = tt
limbs_of-IsLimb (suc k) v e h = (
  omega (
    arith,
    from_le_bytes-lt (take 8 v) (All-take IsByte 8 v h),
    length-take 8 v (omega arith),
    ap (λ (n : ℕ). 256 ^ n) (length-take 8 v (omega arith)),
  ),
  limbs_of-IsLimb k (drop 8 v) (omega (arith, length-drop_le 8 v (omega arith)))
      (All-drop IsByte 8 v h),
)

-- Splitting a block into limbs and writing them back gives the block.
pub bytes_of-limbs_of :
    (k : ℕ) (v : List ℕ) → length v ≡ 8 * k → All IsByte v → bytes_of (limbs_of k v) ≡ v
unfolding limbs_of bytes_of
bytes_of-limbs_of zero [] e h = refl
bytes_of-limbs_of zero (b ∷ v) e h = absurd (omega arith)
bytes_of-limbs_of (suc k) v e h =
    let eight = to_le_bytes-from_le_bytes (take 8 v) (All-take IsByte 8 v h) in
    let head = rw (length-take 8 v (omega arith)) at eight in
    let tail =
      bytes_of-limbs_of k (drop 8 v) (omega (arith, length-drop_le 8 v (omega arith)))
        (All-drop IsByte 8 v h) in
    ap₂ ◌++◌ head tail ∙ take-append-drop 8 v
