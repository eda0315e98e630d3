-- ===== src/Payload/P65536.antt =====
-- src/payload.rs, `P65536<[u8; N]>`: digits are the little-endian 16-bit words of the block.
use poulpy_pir.Prelude.{
  ℕ, suc, ◌*◌, ◌/◌, ◌≡◌, refl, ap, ap₂, List, [], ◌∷◌, ◌++◌, arith, length, All, IsByte, ℤ, IsI16,
  u16_as_i16, i16_as_u16, u16_as_i16-IsI16, i16_as_u16-u16_as_i16, u16_as_i16-i16_as_u16,
  i16_as_u16-lt, zero, ◌<◌, to_le_bytes, from_le_bytes, from_le_bytes-lt, to_le_bytes-from_le_bytes,
  from_le_bytes-to_le_bytes,
}

-- `const EXPONENT`, for an even `N`.
unfoldable pub exponent : ℕ → ℕ
exponent n = n / 2

-- `encode`: digit `i` is the word of the bytes `2 i` and `2 i + 1`. The last clause is no block:
-- `N` is even.
unfoldable pub encode : List ℕ → List ℤ
encode [] = []
encode (lo ∷ []) = []
encode (lo ∷ hi ∷ rest) = u16_as_i16 (from_le_bytes (lo ∷ hi ∷ [])) ∷ encode rest

-- `decode`: `(stored as u16).to_le_bytes()` for each digit.
unfoldable pub decode : List ℤ → List ℕ
decode [] = []
decode (stored ∷ rest) = to_le_bytes 2 (i16_as_u16 stored) ++ decode rest

word-lt : (lo hi : ℕ) → lo < 256 → hi < 256 → from_le_bytes (lo ∷ hi ∷ []) < 65536
word-lt lo hi h k = omega (arith, from_le_bytes-lt (lo ∷ hi ∷ []) (h, (k, tt)))

word_bytes :
    (lo hi : ℕ)
    → lo < 256
    → hi < 256
    → to_le_bytes 2 (i16_as_u16 (u16_as_i16 (from_le_bytes (lo ∷ hi ∷ [])))) ≡ lo ∷ hi ∷ []
word_bytes lo hi h k =
    rw (i16_as_u16-u16_as_i16 _ (word-lt lo hi h k))
      (to_le_bytes-from_le_bytes (lo ∷ hi ∷ []) (h, (k, tt)))

pub length-encode : (words : ℕ) (v : List ℕ) → length v ≡ 2 * words → length (encode v) ≡ words
unfolding encode
length-encode words [] e = omega arith
length-encode words (lo ∷ []) e = absurd (omega arith)
length-encode zero (lo ∷ hi ∷ rest) e = absurd (omega arith)
length-encode (suc words) (lo ∷ hi ∷ rest) e = ap suc (length-encode words rest (omega arith))

pub encode-IsI16 : (v : List ℕ) → All IsByte v → All IsI16 (encode v)
unfolding encode
encode-IsI16 [] h = tt
encode-IsI16 (lo ∷ []) h = tt
encode-IsI16 (lo ∷ hi ∷ rest) (h, (k, t)) =
    (u16_as_i16-IsI16 _ (word-lt lo hi h k), encode-IsI16 rest t)

-- Decoding the digits of a block of whole 16-bit words gives the block back.
pub decode-encode :
    (words : ℕ) (v : List ℕ) → length v ≡ 2 * words → All IsByte v → decode (encode v) ≡ v
unfolding encode decode
decode-encode words [] e h = refl
decode-encode words (lo ∷ []) e h = absurd (omega arith)
decode-encode zero (lo ∷ hi ∷ rest) e h = absurd (omega arith)
decode-encode (suc words) (lo ∷ hi ∷ rest) e (h, (k, t)) =
    rw (word_bytes lo hi h k, decode-encode words rest (omega arith) t)

digit_back :
    (stored : ℤ)
    → IsI16 stored
    → u16_as_i16 (from_le_bytes (to_le_bytes 2 (i16_as_u16 stored))) ≡ stored
digit_back stored h =
    rw (from_le_bytes-to_le_bytes 2 (i16_as_u16 stored) (i16_as_u16-lt stored))
      (u16_as_i16-i16_as_u16 stored h)

-- Encoding what `i16` digits decode to gives the digits back.
pub encode-decode : (digits : List ℤ) → All IsI16 digits → encode (decode digits) ≡ digits
unfolding encode decode to_le_bytes
encode-decode [] h = refl
encode-decode (stored ∷ rest) (h, t) =
    ap₂ ◌∷◌ (unfold to_le_bytes in digit_back stored h) (encode-decode rest t)
