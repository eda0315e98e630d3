-- ===== src/Parallel/Dealt.antt =====
-- The sizes `base + usize::from(i < rem)` of the groups add up to the whole.
use poulpy_pir.Prelude.{ℕ, zero, suc, ◌+◌, ◌-◌, ◌*◌, ◌/◌, ◌%◌, ◌<◌, ◌≡◌, arith, mod_bound, min}
use poulpy_pir.Parallel.{group_len, clamp_from_one}
use native.Mathlib.Nat.{div-add-mod}

-- How many items the groups `i`, …, `i + left - 1` hold together.
unfoldable pub dealt : (base rem left i : ℕ) → ℕ
dealt base rem zero i = 0
dealt base rem (suc left) i = group_len base rem i + dealt base rem left (i + 1)

dealt_lem : (base rem left i : ℕ) → dealt base rem left i ≡ left * base + (min (i + left) rem - i)
unfolding dealt
dealt_lem base rem zero i = omega arith
dealt_lem base rem (suc left) i = ground (arith, dealt_lem base rem left (i + 1))

pub clamp_pos : (threads total : ℕ) → 0 < total → 0 < clamp_from_one threads total
clamp_pos threads total h = omega arith

pub dealt_whole :
    (threads total : ℕ)
    → 0 < total
    → let t = clamp_from_one threads total in dealt (total / t) (total % t) t 0 ≡ total
dealt_whole threads total h =
    let t : ℕ = clamp_from_one threads total in
    let lt : total % t < t = mod_bound total t (clamp_pos threads total h) in
    omega (arith, dealt_lem (total / t) (total % t) t 0, div-add-mod total t, lt)
