-- ===== src/Prelude/Int.antt =====
-- Signed integers over the native numbers, and the casts between `i16` and `u16`.
use Prim.Native.Nat.{ℕ, zero, suc, ◌-◌, ◌%◌, ◌≤◌, ◌<◌}
use mathlib.Core.Path.{◌≡◌}
use native.Mathlib.Omega.{arith}
use poulpy_pir.Prelude.Tests.{ltb, leb, if◌then◌else◌}

-- `negsuc n` is -(n + 1).
pub data ℤ : Type 0 where
  pos : ℕ → ℤ
  negsuc : ℕ → ℤ

abbrev pub pos_part : ℤ → ℕ
pos_part (pos n) = n
pos_part (negsuc n) = 0

abbrev pub neg_part : ℤ → ℕ
neg_part (pos n) = 0
neg_part (negsuc n) = suc n

-- a - b, as an integer.
abbrev pub sub_ℕ : ℕ → ℕ → ℤ
sub_ℕ a b = if leb b a then pos (a - b) else negsuc (b - a - 1)

-- `d as i16` of a `u16`: the same bits, read as two's complement.
unfoldable pub u16_as_i16 : ℕ → ℤ
u16_as_i16 d = if ltb d 32768 then pos d else negsuc (65535 - d)

-- `s as u16` of a signed integer: its residue modulo 2^16.
unfoldable pub i16_as_u16 : ℤ → ℕ
i16_as_u16 (pos n) = n % 65536
i16_as_u16 (negsuc n) = 65535 - n % 65536

abbrev pub IsI16 : ℤ → Type 0
IsI16 z = (pos_part z < 32768) × (neg_part z ≤ 32768)

pub u16_as_i16-IsI16 : (d : ℕ) → d < 65536 → IsI16 (u16_as_i16 d)
unfolding u16_as_i16
u16_as_i16-IsI16 d h = ground arith

pub i16_as_u16-u16_as_i16 : (d : ℕ) → d < 65536 → i16_as_u16 (u16_as_i16 d) ≡ d
unfolding i16_as_u16 u16_as_i16
i16_as_u16-u16_as_i16 d h = ground arith

pub u16_as_i16-i16_as_u16 : (z : ℤ) → IsI16 z → u16_as_i16 (i16_as_u16 z) ≡ z
unfolding i16_as_u16 u16_as_i16
u16_as_i16-i16_as_u16 (pos n) h = ground arith
u16_as_i16-i16_as_u16 (negsuc n) h = ground arith

pub i16_as_u16-lt : (z : ℤ) → i16_as_u16 z < 65536
unfolding i16_as_u16
i16_as_u16-lt (pos n) = omega arith
i16_as_u16-lt (negsuc n) = omega arith

abbrev pub negate : ℤ → ℤ
negate (pos zero) = pos zero
negate (pos (suc n)) = negsuc n
negate (negsuc n) = pos (suc n)
