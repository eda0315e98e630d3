-- ===== src/Server/Timings.antt =====
-- src/server/mod.rs: the timings of the online phases. A duration is a number; that `Duration` cannot hold
-- every sum is left out.
pub mod Totals
use poulpy_pir.Prelude.{ℕ, ◌+◌, if◌then◌else◌, List, [], ◌∷◌, ◌++◌}
use Prim.Native.String.{String}
use text.Mathlib.Text.{◌==◌ as str_eq}

pub record OnlinePhaseTiming : Type 0 where
  pub name : String
  pub duration : ℕ

pub record OnlineTimings : Type 0 where
  pub phases : List OnlinePhaseTiming
  pub key_precompute : ℕ
  pub prepare_db : ℕ
  pub mask_product : ℕ
  pub body_product : ℕ
  pub mask_prep : ℕ
  pub pack_precompute : ℕ
  pub pack : ℕ
  pub decompose : ℕ
  pub reduce_precompute : ℕ
  pub reduce : ℕ

-- `OnlineTimings::default()`.
abbrev pub no_timings : OnlineTimings
no_timings = record {
  phases = [];
  key_precompute = 0;
  prepare_db = 0;
  mask_product = 0;
  body_product = 0;
  mask_prep = 0;
  pack_precompute = 0;
  pack = 0;
  decompose = 0;
  reduce_precompute = 0;
  reduce = 0;
}

-- `.fold(Duration::default(), |sum, phase| sum + phase.duration)`, from `sum` on.
abbrev pub fold_durations : ℕ → List OnlinePhaseTiming → ℕ
fold_durations sum [] = sum
fold_durations sum (phase ∷ phases) = fold_durations (sum + phase.duration) phases

abbrev pub buckets : OnlineTimings → ℕ
buckets t =
    t.key_precompute + t.prepare_db + t.mask_product + t.body_product + t.mask_prep
    + t.pack_precompute + t.pack + t.decompose + t.reduce_precompute + t.reduce

abbrev pub total_of : List OnlinePhaseTiming → OnlineTimings → ℕ
total_of [] t = buckets t
total_of (phase ∷ phases) t = fold_durations 0 (phase ∷ phases)

unfoldable pub total : OnlineTimings → ℕ
total t = total_of t.phases t

unfoldable pub record_phase : String → ℕ → OnlineTimings → OnlineTimings
record_phase label d t = record t {
  phases = t.phases ++ record { name = label; duration = d } ∷ [];
}

unfoldable pub add_key_precompute : String → ℕ → OnlineTimings → OnlineTimings
unfolding record_phase
add_key_precompute label d t =
    record_phase label d (record t { key_precompute = t.key_precompute + d })

unfoldable pub add_prepare_db : String → ℕ → OnlineTimings → OnlineTimings
unfolding record_phase
add_prepare_db label d t = record_phase label d (record t { prepare_db = t.prepare_db + d })

unfoldable pub add_mask_product : String → ℕ → OnlineTimings → OnlineTimings
unfolding record_phase
add_mask_product label d t = record_phase label d (record t { mask_product = t.mask_product + d })

unfoldable pub add_body_product : String → ℕ → OnlineTimings → OnlineTimings
unfolding record_phase
add_body_product label d t = record_phase label d (record t { body_product = t.body_product + d })

unfoldable pub add_mask_prep : String → ℕ → OnlineTimings → OnlineTimings
unfolding record_phase
add_mask_prep label d t = record_phase label d (record t { mask_prep = t.mask_prep + d })

unfoldable pub add_pack_precompute : String → ℕ → OnlineTimings → OnlineTimings
unfolding record_phase
add_pack_precompute label d t =
    record_phase label d (record t { pack_precompute = t.pack_precompute + d })

unfoldable pub add_pack : String → ℕ → OnlineTimings → OnlineTimings
unfolding record_phase
add_pack label d t = record_phase label d (record t { pack = t.pack + d })

unfoldable pub add_decompose : String → ℕ → OnlineTimings → OnlineTimings
unfolding record_phase
add_decompose label d t = record_phase label d (record t { decompose = t.decompose + d })

unfoldable pub add_reduce_precompute : String → ℕ → OnlineTimings → OnlineTimings
unfolding record_phase
add_reduce_precompute label d t =
    record_phase label d (record t { reduce_precompute = t.reduce_precompute + d })

unfoldable pub add_reduce : String → ℕ → OnlineTimings → OnlineTimings
unfolding record_phase
add_reduce label d t = record_phase label d (record t { reduce = t.reduce + d })

-- A phase goes to the first phase of its name, or to the end.
abbrev pub merge_phase : OnlinePhaseTiming → List OnlinePhaseTiming → List OnlinePhaseTiming
merge_phase p [] = p ∷ []
merge_phase p (existing ∷ phases) =
    if str_eq existing.name p.name
    then record existing { duration = existing.duration + p.duration } ∷ phases
    else existing ∷ merge_phase p phases

abbrev pub merge_phases : List OnlinePhaseTiming → List OnlinePhaseTiming → List OnlinePhaseTiming
merge_phases phases [] = phases
merge_phases phases (p ∷ others) = merge_phases (merge_phase p phases) others

unfoldable pub accumulate : OnlineTimings → OnlineTimings → OnlineTimings
accumulate t other = record {
  phases = merge_phases t.phases other.phases;
  key_precompute = t.key_precompute + other.key_precompute;
  prepare_db = t.prepare_db + other.prepare_db;
  mask_product = t.mask_product + other.mask_product;
  body_product = t.body_product + other.body_product;
  mask_prep = t.mask_prep + other.mask_prep;
  pack_precompute = t.pack_precompute + other.pack_precompute;
  pack = t.pack + other.pack;
  decompose = t.decompose + other.decompose;
  reduce_precompute = t.reduce_precompute + other.reduce_precompute;
  reduce = t.reduce + other.reduce;
}
