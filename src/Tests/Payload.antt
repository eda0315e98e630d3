-- ===== src/Tests/Payload.antt =====
-- The payload codecs on blocks of bytes.
use poulpy_pir.Prelude.{
  ℕ, ◌≡◌, refl, List, [], ◌∷◌, replicate, pos, negsuc, from_le_bytes, u16_as_i16,
}
use poulpy_pir.Payload.{IsCodec, p65536, p65536-IsCodec}
use poulpy_pir.Payload.P65536
use poulpy_pir.Payload.P65535

-- The 256-bit value 65535, the radix itself: digits 0, 1, 0, ….
abbrev radix_block : List ℕ
radix_block = 255 ∷ 255 ∷ replicate 30 0

radix_digits : P65535.encode radix_block ≡ pos 0 ∷ pos 1 ∷ replicate 15 (pos 0)
unfolding P65535.encode P65535.encode_loop P65535.u256_le_to_limbs P65535.limbs_of
radix_digits = refl

-- All bits set.
abbrev full_block : List ℕ
full_block = replicate 32 255

full_round_trip : P65535.decode (P65535.encode full_block) ≡ full_block
unfolding P65535.encode P65535.encode_loop P65535.u256_le_to_limbs P65535.limbs_of P65535.decode
    P65535.decode_loop P65535.bytes_of
full_round_trip = refl

words_are_centred : P65536.encode (0 ∷ 128 ∷ 255 ∷ 255 ∷ []) ≡ negsuc 32767 ∷ negsuc 0 ∷ []
unfolding P65536.encode from_le_bytes u16_as_i16
words_are_centred = refl

p65536-IsCodec_example : IsCodec (p65536 16)
p65536-IsCodec_example = p65536-IsCodec 16
