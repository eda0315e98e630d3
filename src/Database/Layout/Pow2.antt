-- ===== src/Database/Layout/Pow2.antt =====
-- `usize::next_power_of_two`.
use poulpy_pir.Prelude.{
  ℕ, zero, suc, ◌+◌, ◌*◌, ◌^◌, ◌≤◌, ◌<◌, ◌≡◌, refl, leb, arith, if◌then◌else◌, Bool-cases, inl, inr,
}
use native.Mathlib.Nat.{pow-succ', one-le-pow, pow-le-pow_right}
use native.Mathlib.Decide.{dec_lt, ℕ_discrete}

-- Doubles `p` until it is at least `n`.
double_until : ℕ → ℕ → ℕ → ℕ
double_until zero p n = p
double_until (suc fuel) p n = let rest = double_until fuel (2 * p) n in if leb n p then p else rest

-- `p` starts at 1 and doubles, so `n` rounds are enough.
unfoldable pub next_power_of_two : ℕ → ℕ
unfolding double_until
next_power_of_two n = double_until n 1 n

-- The least power of two that is at least `n`.
pub record IsNextPow2 (n p : ℕ) : Type 0 where
  pub exponent : ℕ
  pub power : p ≡ 2 ^ exponent
  pub reaches : n ≤ p
  pub least : (k : ℕ) → n ≤ 2 ^ k → p ≤ 2 ^ k

-- `2 ^ k` is the answer where it reaches `n` and no smaller power does.
stop_at : (k n : ℕ) → n ≤ 2 ^ k → ((j : ℕ) → j < k → 2 ^ j < n) → IsNextPow2 n (2 ^ k)
stop_at k n reach below = record {
  exponent = k;
  power = refl;
  reaches = reach;
  least = λ j hj. elim (dec_lt j k) [
    | yes lt ↦ absurd (omega (arith, below j lt))
    | no ge ↦ pow-le-pow_right (omega arith) (omega arith)
  ];
}

still_below :
    (k n : ℕ) → 2 ^ k < n → ((j : ℕ) → j < k → 2 ^ j < n) → (j : ℕ) → j < suc k → 2 ^ j < n
still_below k n now below j h = elim (ℕ_discrete j k) [
  | yes e ↦ rw e now
  | no ne ↦ below j (omega arith)
]

double_until_lem :
    (fuel k n : ℕ)
    → n ≤ 2 ^ k + fuel
    → ((j : ℕ) → j < k → 2 ^ j < n)
    → IsNextPow2 n (double_until fuel (2 ^ k) n)
unfolding double_until
double_until_lem zero k n enough below = stop_at k n (omega arith) below
double_until_lem (suc fuel) k n enough below = elim (Bool-cases (leb n (2 ^ k))) [
  | inl done ↦ rw done (stop_at k n (ground arith) below)
  | inr more ↦
      rw (more, ← pow-succ' 2 k)
        (double_until_lem fuel (suc k) n (ground (arith, pow-succ' 2 k, one-le-pow k 2))
          (still_below k n (ground arith) below))
]

-- The loop stops at the least power of two that reaches `n`.
pub next_power_of_two-IsNextPow2 : (n : ℕ) → IsNextPow2 n (next_power_of_two n)
unfolding next_power_of_two
next_power_of_two-IsNextPow2 n = double_until_lem n 0 n (omega arith) (λ j h. absurd (omega arith))
