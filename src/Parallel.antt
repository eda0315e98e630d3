-- ===== src/Parallel.antt =====
-- src/parallel.rs: worker budgets, and the partition of the `p` by `k` grid of blocks.
pub mod Dealt
pub mod Panels
pub mod Blocks
pub mod Threads
use poulpy_pir.Prelude.{
  ℕ, zero, suc, ◌+◌, ◌-◌, ◌*◌, ◌/◌, ◌%◌, min, max, List, [], ◌∷◌, ltb, ◌==◌, if◌then◌else◌, Option,
  none, some,
}
use Prim.Native.String.{String}
use mathlib.Core.Option.{get_or}

pub record BlockWork : Type 0 where
  pub panel : ℕ
  pub col_start : ℕ
  pub col_len : ℕ

-- `x.clamp(1, hi)`, for `1 <= hi`.
abbrev pub clamp_from_one : ℕ → ℕ → ℕ
clamp_from_one x hi = max 1 (min x hi)

-- `base + usize::from(i < rem)`: the first `rem` groups get one more.
abbrev pub group_len : ℕ → ℕ → ℕ → ℕ
group_len base rem i = if ltb i rem then base + 1 else base

-- Contiguous ranges for `left` groups, each a start and a length.
abbrev pub ranges : (base rem left i start : ℕ) → List (ℕ × ℕ)
ranges base rem zero i start = []
ranges base rem (suc left) i start =
    let len = group_len base rem i in (start, len) ∷ ranges base rem left (i + 1) (start + len)

-- The inner loop of `assign_panels`: `len` full panels from `panel` on.
unfoldable pub full_panels : ℕ → ℕ → ℕ → List BlockWork
full_panels k zero panel = []
full_panels k (suc len) panel =
    record { panel = panel; col_start = 0; col_len = k } ∷ full_panels k len (panel + 1)

-- The outer loop, with `left` groups to go.
unfoldable pub panel_groups : (k base rem left i panel : ℕ) → List (List BlockWork)
unfolding full_panels
panel_groups k base rem zero i panel = []
panel_groups k base rem (suc left) i panel =
    let len = group_len base rem i in
    full_panels k len panel ∷ panel_groups k base rem left (i + 1) (panel + len)

unfoldable pub assign_panels : ℕ → ℕ → ℕ → List (List BlockWork)
unfolding panel_groups
assign_panels p k threads =
    if p == 0 then [] else let t = clamp_from_one threads p in panel_groups k (p / t) (p % t) t 0 0

-- The inner `while` of `assign_blocks`. A round takes a block at least, so `remaining` rounds are
-- enough.
unfoldable pub cut : (k fuel global remaining : ℕ) → List BlockWork
cut k zero global remaining = []
cut k (suc fuel) global remaining =
    let col = global % k in
    let taken = min remaining (k - col) in
    let tile : BlockWork = record { panel = global / k; col_start = col; col_len = taken } in
    let rest = cut k fuel (global + taken) (remaining - taken) in
    if remaining == 0 then [] else tile ∷ rest

unfoldable pub block_groups : (k base rem left i global : ℕ) → List (List BlockWork)
unfolding cut
block_groups k base rem zero i global = []
block_groups k base rem (suc left) i global =
    let len = group_len base rem i in
    cut k len global len ∷ block_groups k base rem left (i + 1) (global + len)

unfoldable pub assign_blocks : ℕ → ℕ → ℕ → List (List BlockWork)
unfolding block_groups
assign_blocks p k threads =
    let total = p * k in
    if total == 0
    then []
    else let t = clamp_from_one threads total in block_groups k (total / t) (total % t) t 0 0

-- What the process asks its host: an environment variable that parses as a number, and
-- `available_parallelism`.
pub record Host : Type 0 where
  pub env : String → Option ℕ
  pub parallelism : Option ℕ

abbrev at_least_one : Option ℕ → Option ℕ
at_least_one none = none
at_least_one (some t) = if t == 0 then none else some t

unfoldable pub env_threads : Host → String → Option ℕ
env_threads host var = at_least_one (host.env var)

abbrev pub default_max_threads : ℕ
default_max_threads = 64

unfoldable pub base_threads : Host → ℕ
unfolding env_threads
base_threads host =
    get_or (env_threads host "PIR_THREADS") (min (get_or host.parallelism 1) default_max_threads)

-- `num_threads(cap)`, and the budgets of the phases, which a variable of their own overrides.
unfoldable pub num_threads : Host → ℕ → ℕ
unfolding base_threads
num_threads host cap = if ltb 1 cap then clamp_from_one (base_threads host) cap else 1

unfoldable pub num_threads_for : String → Host → ℕ → ℕ
unfolding base_threads env_threads
num_threads_for var host cap =
    if ltb 1 cap then clamp_from_one (get_or (env_threads host var) (base_threads host)) cap else 1

unfoldable pub num_threads_online : Host → ℕ → ℕ
unfolding num_threads_for
num_threads_online = num_threads_for "PIR_ONLINE_THREADS"

unfoldable pub num_threads_offline : Host → ℕ → ℕ
unfolding num_threads_for
num_threads_offline = num_threads_for "PIR_OFFLINE_THREADS"

unfoldable pub num_threads_setup : Host → ℕ → ℕ
unfolding num_threads_for
num_threads_setup = num_threads_for "PIR_SETUP_THREADS"
