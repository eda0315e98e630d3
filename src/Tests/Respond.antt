-- ===== src/Tests/Respond.antt =====
-- A server that is its configuration, and timings of two queries.
use poulpy_pir.Prelude.{◌+◌, ◌≡◌, refl, [], ◌∷◌, map}
use poulpy_pir.Error.{ok, err, wrong_query_variant}
use poulpy_pir.Config.Scheme.{Config}
use poulpy_pir.Wire.Query.{Query}
use poulpy_pir.Wire.Response.{Response}
use poulpy_pir.Server.Timings.{
  OnlineTimings, no_timings, add_pack, add_reduce, accumulate, buckets, total,
}
use poulpy_pir.Server.Timings.Totals.{IsReport, total-accumulate}
use poulpy_pir.Server.Respond.{Online, try_respond_batch_timed}
use poulpy_pir.Server.Respond.Batch.{answer, try_respond_batch_timed_lem}
use poulpy_pir.Tests.Sizes.{ciphertexts, query, params, folded}

abbrev reply : Query ciphertexts → Response ciphertexts
reply q = Response.interpolation 1

abbrev online : Online ciphertexts
online = record {
  Server = Config;
  params = λ s. s;
  respond_interpolation = λ s q. (s, (reply q, no_timings));
  respond_recursion = λ s q. (s, (reply q, no_timings));
  respond_interpolation_batch = λ s queries. (s, (map reply queries, no_timings));
  respond_recursion_batch = λ s queries. (s, (map reply queries, no_timings));
}

-- The batch is answered by a server of its construction, and refused by another one.
answered :
    try_respond_batch_timed online params (query ∷ query ∷ [])
    ≡ ok (params, (reply query ∷ reply query ∷ [], no_timings))
unfolding try_respond_batch_timed
answered = refl

refused :
    try_respond_batch_timed online folded (query ∷ query ∷ [])
    ≡ err (wrong_query_variant "Recursion" "Interpolation")
unfolding try_respond_batch_timed
refused = refl

try_respond_batch_timed_lem_example :
    try_respond_batch_timed online folded (query ∷ query ∷ [])
    ≡ answer online folded (query ∷ query ∷ [])
try_respond_batch_timed_lem_example = try_respond_batch_timed_lem online folded query (query ∷ [])

abbrev first_report : OnlineTimings
first_report = add_reduce "reduce" 5 (add_pack "pack" 7 no_timings)

abbrev second_report : OnlineTimings
second_report = add_pack "pack" 2 no_timings

first-IsReport : IsReport first_report
first-IsReport = IsReport.with_reduce "reduce" 5 (IsReport.with_pack "pack" 7 IsReport.nothing)

second-IsReport : IsReport second_report
second-IsReport = IsReport.with_pack "pack" 2 IsReport.nothing

both_reports : total (accumulate first_report second_report) ≡ 14
unfolding total accumulate add_pack add_reduce
both_reports = refl

total-accumulate_example :
    (total (accumulate first_report second_report) ≡ total first_report + total second_report)
    × (total first_report ≡ buckets first_report)
total-accumulate_example = total-accumulate first-IsReport second-IsReport
