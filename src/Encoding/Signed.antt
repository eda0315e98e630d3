-- ===== src/Encoding/Signed.antt =====
-- Signed arithmetic of the encoder over native numbers.
use poulpy_pir.Prelude.{ℕ, zero, suc, ◌+◌, ◌-◌, ◌*◌, ◌%◌, ℤ, pos, negsuc, sub_ℕ}

-- -n.
abbrev pub neg_of : ℕ → ℤ
neg_of zero = pos 0
neg_of (suc n) = negsuc n

abbrev pub scale : ℤ → ℕ → ℤ
scale (pos n) k = pos (n * k)
scale (negsuc n) k = neg_of (suc n * k)

-- `rem_euclid`, for a positive modulus.
unfoldable pub rem_euclid : ℤ → ℕ → ℕ
rem_euclid (pos n) m = n % m
rem_euclid (negsuc n) m = m - 1 - n % m

abbrev pub add_ℤ : ℤ → ℤ → ℤ
add_ℤ (pos a) (pos b) = pos (a + b)
add_ℤ (pos a) (negsuc b) = sub_ℕ a (suc b)
add_ℤ (negsuc a) (pos b) = sub_ℕ b (suc a)
add_ℤ (negsuc a) (negsuc b) = negsuc (suc (a + b))

abbrev pub sub_ℤ : ℤ → ℤ → ℤ
sub_ℤ a (pos b) = add_ℤ a (neg_of b)
sub_ℤ a (negsuc b) = add_ℤ a (pos (suc b))

abbrev pub mul_ℤ : ℤ → ℤ → ℤ
mul_ℤ (pos a) (pos b) = pos (a * b)
mul_ℤ (pos a) (negsuc b) = neg_of (a * suc b)
mul_ℤ (negsuc a) (pos b) = neg_of (suc a * b)
mul_ℤ (negsuc a) (negsuc b) = pos (suc a * suc b)
