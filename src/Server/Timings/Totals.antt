-- ===== src/Server/Timings/Totals.antt =====
-- The totals of online timings.
use poulpy_pir.Prelude.{
  ℕ, ◌+◌, ◌≡◌, refl, ◌∙◌, Bool, true, false, if◌then◌else◌, List, [], ◌∷◌, ◌++◌, arith,
}
use Prim.Native.String.{String}
use text.Mathlib.Text.{◌==◌ as str_eq}
use poulpy_pir.Server.Timings.{
  OnlinePhaseTiming, OnlineTimings, no_timings, fold_durations, buckets, total, total_of,
  record_phase, merge_phase, merge_phases, accumulate, add_key_precompute, add_prepare_db,
  add_mask_product, add_body_product, add_mask_prep, add_pack_precompute, add_pack, add_decompose,
  add_reduce_precompute, add_reduce,
}

-- The timings that the online phases report: nothing, a duration added to one of them, or two of them
-- accumulated.
pub data IsReport : OnlineTimings → Type 0 where
  nothing : IsReport no_timings
  with_key_precompute :
      {t : OnlineTimings} (label : String) (d : ℕ)
      → IsReport t
      → IsReport (add_key_precompute label d t)
  with_prepare_db :
      {t : OnlineTimings} (label : String) (d : ℕ)
      → IsReport t
      → IsReport (add_prepare_db label d t)
  with_mask_product :
      {t : OnlineTimings} (label : String) (d : ℕ)
      → IsReport t
      → IsReport (add_mask_product label d t)
  with_body_product :
      {t : OnlineTimings} (label : String) (d : ℕ)
      → IsReport t
      → IsReport (add_body_product label d t)
  with_mask_prep :
      {t : OnlineTimings} (label : String) (d : ℕ) → IsReport t → IsReport (add_mask_prep label d t)
  with_pack_precompute :
      {t : OnlineTimings} (label : String) (d : ℕ)
      → IsReport t
      → IsReport (add_pack_precompute label d t)
  with_pack :
      {t : OnlineTimings} (label : String) (d : ℕ) → IsReport t → IsReport (add_pack label d t)
  with_decompose :
      {t : OnlineTimings} (label : String) (d : ℕ) → IsReport t → IsReport (add_decompose label d t)
  with_reduce_precompute :
      {t : OnlineTimings} (label : String) (d : ℕ)
      → IsReport t
      → IsReport (add_reduce_precompute label d t)
  with_reduce :
      {t : OnlineTimings} (label : String) (d : ℕ) → IsReport t → IsReport (add_reduce label d t)
  accumulated :
      {t other : OnlineTimings} → IsReport t → IsReport other → IsReport (accumulate t other)

fold_durations_lem :
    (sum : ℕ) (phases : List OnlinePhaseTiming)
    → fold_durations sum phases ≡ sum + fold_durations 0 phases
fold_durations_lem sum [] = omega arith
fold_durations_lem sum (p ∷ phases) = omega (
  arith,
  fold_durations_lem (sum + p.duration) phases,
  fold_durations_lem (0 + p.duration) phases,
)

fold_durations-append :
    (sum : ℕ) (phases : List OnlinePhaseTiming) (p : OnlinePhaseTiming)
    → fold_durations sum (phases ++ p ∷ []) ≡ fold_durations sum phases + p.duration
fold_durations-append sum [] p = refl
fold_durations-append sum (q ∷ phases) p = fold_durations-append (sum + q.duration) phases p

fold_durations-merge_phase :
    (p : OnlinePhaseTiming) (sum : ℕ) (phases : List OnlinePhaseTiming)
    → fold_durations sum (merge_phase p phases) ≡ fold_durations sum phases + p.duration
fold_durations-merge_phase p sum [] = refl
fold_durations-merge_phase p sum (e ∷ phases) =
    go (str_eq e.name p.name) (fold_durations-merge_phase p (sum + e.duration) phases)
  where
    go :
        (same : Bool)
        → fold_durations (sum + e.duration) (merge_phase p phases)
          ≡ fold_durations (sum + e.duration) phases + p.duration
        → fold_durations sum (
            if same
            then record e { duration = e.duration + p.duration } ∷ phases
            else e ∷ merge_phase p phases)
          ≡ fold_durations (sum + e.duration) phases + p.duration
    go true later =
        fold_durations_lem (sum + (e.duration + p.duration)) phases
        ∙ omega (arith, fold_durations_lem (sum + e.duration) phases)
    go false later = later

fold_durations-merge_phases :
    (phases others : List OnlinePhaseTiming)
    → fold_durations 0 (merge_phases phases others)
      ≡ fold_durations 0 phases + fold_durations 0 others
fold_durations-merge_phases phases [] = omega arith
fold_durations-merge_phases phases (p ∷ others) =
    fold_durations-merge_phases (merge_phase p phases) others
    ∙ omega
        (arith, fold_durations-merge_phase p 0 phases, fold_durations_lem (0 + p.duration) others)

abbrev IsBooked : OnlineTimings → Type 0
IsBooked t = fold_durations 0 t.phases ≡ buckets t

IsReport-IsBooked : {t : OnlineTimings} → IsReport t → IsBooked t
unfolding record_phase accumulate add_key_precompute add_prepare_db add_mask_product
    add_body_product add_mask_prep add_pack_precompute add_pack add_decompose add_reduce_precompute
    add_reduce
IsReport-IsBooked nothing = refl
IsReport-IsBooked (with_key_precompute {t} label d r) =
    fold_durations-append 0 t.phases _ ∙ omega (arith, IsReport-IsBooked r)
IsReport-IsBooked (with_prepare_db {t} label d r) =
    fold_durations-append 0 t.phases _ ∙ omega (arith, IsReport-IsBooked r)
IsReport-IsBooked (with_mask_product {t} label d r) =
    fold_durations-append 0 t.phases _ ∙ omega (arith, IsReport-IsBooked r)
IsReport-IsBooked (with_body_product {t} label d r) =
    fold_durations-append 0 t.phases _ ∙ omega (arith, IsReport-IsBooked r)
IsReport-IsBooked (with_mask_prep {t} label d r) =
    fold_durations-append 0 t.phases _ ∙ omega (arith, IsReport-IsBooked r)
IsReport-IsBooked (with_pack_precompute {t} label d r) =
    fold_durations-append 0 t.phases _ ∙ omega (arith, IsReport-IsBooked r)
IsReport-IsBooked (with_pack {t} label d r) =
    fold_durations-append 0 t.phases _ ∙ omega (arith, IsReport-IsBooked r)
IsReport-IsBooked (with_decompose {t} label d r) =
    fold_durations-append 0 t.phases _ ∙ omega (arith, IsReport-IsBooked r)
IsReport-IsBooked (with_reduce_precompute {t} label d r) =
    fold_durations-append 0 t.phases _ ∙ omega (arith, IsReport-IsBooked r)
IsReport-IsBooked (with_reduce {t} label d r) =
    fold_durations-append 0 t.phases _ ∙ omega (arith, IsReport-IsBooked r)
IsReport-IsBooked (accumulated {t} {other} r s) =
    fold_durations-merge_phases t.phases other.phases
    ∙ omega (arith, IsReport-IsBooked r, IsReport-IsBooked s)

total-buckets : (t : OnlineTimings) → IsBooked t → total t ≡ buckets t
unfolding total
total-buckets t e = go t.phases e
  where
    go :
        (phases : List OnlinePhaseTiming)
        → fold_durations 0 phases ≡ buckets t
        → total_of phases t ≡ buckets t
    go [] h = refl
    go (p ∷ phases) h = h

-- For timings that the online phases report, whether phases are recorded or not, the total of two that are
-- accumulated is the sum of their totals, and every total is the sum of the ten buckets.
pub total-accumulate :
    {t other : OnlineTimings}
    → IsReport t
    → IsReport other
    → (total (accumulate t other) ≡ total t + total other) × (total t ≡ buckets t)
unfolding accumulate
total-accumulate {t} {other} r s =
    let a = total-buckets t (IsReport-IsBooked r) in
    let b = total-buckets other (IsReport-IsBooked s) in
    (
      total-buckets (accumulate t other) (IsReport-IsBooked (accumulated r s))
          ∙ omega (arith, a, b),
      a,
    )
