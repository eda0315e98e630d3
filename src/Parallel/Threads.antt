-- ===== src/Parallel/Threads.antt =====
-- Every worker budget lies in `1..=cap`.
use poulpy_pir.Prelude.{ℕ, ◌≤◌, max, arith}
use poulpy_pir.Parallel.{
  Host, num_threads, num_threads_online, num_threads_offline, num_threads_setup,
}

abbrev pub IsBudget : ℕ → ℕ → Type 0
IsBudget cap t = (1 ≤ t) × (t ≤ max 1 cap)

-- Whatever the environment says, each budget is at least 1 and at most `cap` (1 for a `cap` of 0),
-- and a ceiling of 1 or less gives 1.
pub num_threads-IsBudget :
    (host : Host) (cap : ℕ)
    → IsBudget cap (num_threads host cap)
      × IsBudget cap (num_threads_online host cap)
      × IsBudget cap (num_threads_offline host cap)
      × IsBudget cap (num_threads_setup host cap)
unfolding num_threads num_threads_online num_threads_offline num_threads_setup
num_threads-IsBudget host cap = ground arith
