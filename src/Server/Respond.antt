-- ===== src/Server/Respond.antt =====
-- src/server/mod.rs: which construction answers a query or a batch of queries. How a construction computes its
-- answers is an interface, `Online`.
pub mod Batch
use poulpy_pir.Prelude.{Bool, true, false, ◌&&◌, if◌then◌else◌, List, [], ◌∷◌, ◌++◌}
use Prim.Native.String.{String}
use text.Mathlib.Text.{◌==◌ as str_eq}
use poulpy_pir.Error.{Result, ok, err, panic, ◌>>=◌, ◌>>◌, unwrap, wrong_query_variant}
use poulpy_pir.Config.Scheme.{Config}
use poulpy_pir.Wire.{Ciphertexts}
use poulpy_pir.Wire.Query
use poulpy_pir.Wire.Query.{Query}
use poulpy_pir.Wire.Response.{Response}
use poulpy_pir.Client.Decode.{collapse_name}
use poulpy_pir.Server.Timings.{OnlineTimings, no_timings, accumulate}

-- A server, as the online phases see it and change it.
pub record Online (c : Ciphertexts) : Type 1 where
  pub Server : Type 0
  pub params : Server → Config
  pub respond_interpolation : Server → Query c → Server × (Response c × OnlineTimings)
  pub respond_recursion : Server → Query c → Server × (Response c × OnlineTimings)
  pub respond_interpolation_batch :
      Server → List (Query c) → Server × (List (Response c) × OnlineTimings)
  pub respond_recursion_batch :
      Server → List (Query c) → Server × (List (Response c) × OnlineTimings)

abbrev pub query_name : {c : Ciphertexts} → Query c → String
query_name (Query.interpolation blocks key_g key_h root) = "Interpolation"
query_name (Query.recursion src0 src1 gamma0 gamma1 gamma2) = "Recursion"

abbrev pub is_interpolation : {c : Ciphertexts} → Query c → Bool
is_interpolation (Query.interpolation blocks key_g key_h root) = true
is_interpolation (Query.recursion src0 src1 gamma0 gamma1 gamma2) = false

abbrev pub is_recursion : {c : Ciphertexts} → Query c → Bool
is_recursion (Query.interpolation blocks key_g key_h root) = false
is_recursion (Query.recursion src0 src1 gamma0 gamma1 gamma2) = true

-- `queries.iter().all(..)`.
abbrev pub all_queries : {c : Ciphertexts} → (Query c → Bool) → List (Query c) → Bool
all_queries test [] = true
all_queries test (q ∷ queries) = test q && all_queries test queries

module _ {c : Ciphertexts} (o : Online c) where
  open o use {
    Server, params, respond_interpolation, respond_recursion, respond_interpolation_batch,
    respond_recursion_batch,
  }

  unfoldable pub ensure_query_matches : Server → Query c → Result (Unit {0})
  ensure_query_matches s query =
      let expected = collapse_name (params s).collapse in
      let actual = query_name query in
      if str_eq expected actual then ok tt else err (wrong_query_variant expected actual)

  abbrev pub respond_to : Server → Query c → Server × (Response c × OnlineTimings)
  respond_to s (Query.interpolation blocks key_g key_h root) =
      respond_interpolation s (Query.interpolation blocks key_g key_h root)
  respond_to s (Query.recursion src0 src1 gamma0 gamma1 gamma2) =
      respond_recursion s (Query.recursion src0 src1 gamma0 gamma1 gamma2)

  unfoldable pub try_respond_timed :
      Server → Query c → Result (Server × (Response c × OnlineTimings))
  unfolding ensure_query_matches
  try_respond_timed s query = do ensure_query_matches s query; ok (respond_to s query)

  abbrev pub ensure_all : Server → List (Query c) → Result (Unit {0})
  ensure_all s [] = ok tt
  ensure_all s (q ∷ queries) = do ensure_query_matches s q; ensure_all s queries

  -- The batch of both constructions, one query after another.
  abbrev pub one_by_one :
      Server
      → List (Query c)
      → List (Response c)
      → OnlineTimings
      → Result (Server × (List (Response c) × OnlineTimings))
  one_by_one s [] responses timings = ok (s, (responses, timings))
  one_by_one s (q ∷ queries) responses timings = do
    (s', (resp, t)) ← try_respond_timed s q
    one_by_one s' queries (responses ++ resp ∷ []) (accumulate timings t)

  unfoldable pub try_respond_batch_timed :
      Server → List (Query c) → Result (Server × (List (Response c) × OnlineTimings))
  unfolding try_respond_timed accumulate
  try_respond_batch_timed s [] = ok (s, ([], no_timings))
  try_respond_batch_timed s (q ∷ queries) =
      let mixed = one_by_one s (q ∷ queries) [] no_timings in
      ensure_all s (q ∷ queries)
      >> (if all_queries is_interpolation (q ∷ queries)
          then ok (respond_interpolation_batch s (q ∷ queries))
          else if all_queries is_recursion (q ∷ queries)
          then ok (respond_recursion_batch s (q ∷ queries))
          else mixed)

  unfoldable pub try_respond : Server → Query c → Result (Server × Response c)
  unfolding try_respond_timed
  try_respond s query = do (s', (resp, t)) ← try_respond_timed s query; ok (s', resp)

  unfoldable pub respond : Server → Query c → Result (Server × Response c)
  unfolding try_respond
  respond s query = unwrap (try_respond s query)

  unfoldable pub try_respond_batch : Server → List (Query c) → Result (Server × List (Response c))
  unfolding try_respond_batch_timed
  try_respond_batch s queries = do
    (s', (responses, t)) ← try_respond_batch_timed s queries
    ok (s', responses)

  unfoldable pub respond_batch : Server → List (Query c) → Result (Server × List (Response c))
  unfolding try_respond_batch
  respond_batch s queries = unwrap (try_respond_batch s queries)
