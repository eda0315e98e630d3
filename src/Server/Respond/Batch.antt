-- ===== src/Server/Respond/Batch.antt =====
-- Which queries of a batch are answered.
use poulpy_pir.Prelude.{
  ◌≡◌, refl, ap, ◌∙◌, Bool, true, false, ◌&&◌, if◌then◌else◌, List, [], ◌∷◌, Option, none, some,
}
use poulpy_pir.Error.{Result, ok, err, ◌>>◌, wrong_query_variant}
use poulpy_pir.Config.Scheme.{Collapse}
use poulpy_pir.Wire.{Ciphertexts}
use poulpy_pir.Wire.Query.{Query}
use poulpy_pir.Wire.Response.{Response}
use poulpy_pir.Client.Decode.{collapse_name}
use poulpy_pir.Server.Timings.{OnlineTimings, no_timings}
use poulpy_pir.Server.Respond.{
  Online, query_name, is_interpolation, is_recursion, all_queries, ensure_query_matches, ensure_all,
  one_by_one, try_respond_batch_timed,
}

module _ {c : Ciphertexts} where
  abbrev matches : Collapse → Query c → Bool
  matches Collapse.interpolation q = is_interpolation q
  matches (Collapse.recursion gamma0 gamma1 gamma2) q = is_recursion q

  -- The first query of another construction than the server's.
  abbrev pub first_wrong : Collapse → List (Query c) → Option (Query c)
  first_wrong coll [] = none
  first_wrong coll (q ∷ queries) = if matches coll q then first_wrong coll queries else some q

  first_wrong-none :
      (coll : Collapse) (queries : List (Query c))
      → first_wrong coll queries ≡ none
      → all_queries (matches coll) queries ≡ true
  first_wrong-none coll [] h = refl
  first_wrong-none coll (q ∷ queries) h = go (matches coll q) h (first_wrong-none coll queries)
    where
      go :
          (fits : Bool)
          → (if fits then first_wrong coll queries else some q) ≡ none
          → (first_wrong coll queries ≡ none → all_queries (matches coll) queries ≡ true)
          → (fits && all_queries (matches coll) queries) ≡ true
      go true h later = later h
      go false h later = cc

  module _ (o : Online c) (s : o.Server) where
    open o use {Server, params, respond_interpolation_batch, respond_recursion_batch}

    abbrev Batch : Type 0
    Batch = Server × (List (Response c) × OnlineTimings)

    abbrev batch_of : Collapse → List (Query c) → Batch
    batch_of Collapse.interpolation queries = respond_interpolation_batch s queries
    batch_of (Collapse.recursion gamma0 gamma1 gamma2) queries = respond_recursion_batch s queries

    abbrev verdict {ℓ} : {A : Type ℓ} → Collapse → Option (Query c) → A → Result A
    verdict coll none a = ok a
    verdict coll (some q) a = err (wrong_query_variant (collapse_name coll) (query_name q))

    -- The batch of the server's construction, or the refusal of the first query of another one.
    abbrev pub answer : List (Query c) → Result Batch
    answer queries =
        let coll = (params s).collapse in
        verdict coll (first_wrong coll queries) (batch_of coll queries)

    ensure_query_matches_lem :
        (coll : Collapse) (q : Query c)
        → (params s).collapse ≡ coll
        → ensure_query_matches o s q ≡ verdict coll (if matches coll q then none else some q) tt
    unfolding ensure_query_matches
    ensure_query_matches_lem Collapse.interpolation (Query.interpolation a b d r) e = rw e refl
    ensure_query_matches_lem Collapse.interpolation (Query.recursion a b g0 g1 g2) e = rw e refl
    ensure_query_matches_lem (Collapse.recursion x y z) (Query.interpolation a b d r) e = rw e refl
    ensure_query_matches_lem (Collapse.recursion x y z) (Query.recursion a b g0 g1 g2) e = rw e refl

    ensure_all_lem :
        (coll : Collapse) (queries : List (Query c))
        → (params s).collapse ≡ coll
        → ensure_all o s queries ≡ verdict coll (first_wrong coll queries) tt
    ensure_all_lem coll [] e = refl
    ensure_all_lem coll (q ∷ queries) e =
        rw (ensure_query_matches_lem coll q e) (go (matches coll q) (ensure_all_lem coll queries e))
      where
        go :
            (fits : Bool)
            → ensure_all o s queries ≡ verdict coll (first_wrong coll queries) tt
            → (verdict coll (if fits then none else some q) tt >> ensure_all o s queries)
              ≡ verdict coll (if fits then first_wrong coll queries else some q) tt
        go true later = later
        go false later = refl

    abbrev choice : Query c → List (Query c) → Result Batch → Result Batch
    choice q queries mixed =
        if all_queries is_interpolation (q ∷ queries)
        then ok (respond_interpolation_batch s (q ∷ queries))
        else if all_queries is_recursion (q ∷ queries)
        then ok (respond_recursion_batch s (q ∷ queries))
        else mixed

    choice_lem :
        (coll : Collapse) (q : Query c) (queries : List (Query c)) (mixed : Result Batch)
        → all_queries (matches coll) (q ∷ queries) ≡ true
        → choice q queries mixed ≡ ok (batch_of coll (q ∷ queries))
    choice_lem Collapse.interpolation q queries mixed all = rw all refl
    choice_lem (Collapse.recursion x y z) (Query.interpolation a b d r) queries mixed all = cc
    choice_lem (Collapse.recursion x y z) (Query.recursion a b g0 g1 g2) queries mixed all =
        rw all refl

    try_lem :
        (coll : Collapse) (q : Query c) (queries : List (Query c)) (mixed : Result Batch)
        → (params s).collapse ≡ coll
        → (ensure_all o s (q ∷ queries) >> choice q queries mixed)
          ≡ verdict coll (first_wrong coll (q ∷ queries)) (batch_of coll (q ∷ queries))
    try_lem coll q queries mixed e =
        ap (λ r. r >> choice q queries mixed) (ensure_all_lem coll (q ∷ queries) e)
        ∙ go (first_wrong coll (q ∷ queries))
            (λ h. choice_lem coll q queries mixed (first_wrong-none coll (q ∷ queries) h))
      where
        go :
            (w : Option (Query c))
            → (w ≡ none → choice q queries mixed ≡ ok (batch_of coll (q ∷ queries)))
            → (verdict coll w tt >> choice q queries mixed)
              ≡ verdict coll w (batch_of coll (q ∷ queries))
        go none h = h refl
        go (some wrong) h = refl

    -- A batch with a query at least is answered by the batch of the server's construction, or refused with
    -- the names of the constructions of the server and of the first query that differs from it; it is never
    -- answered one query after another.
    pub try_respond_batch_timed_lem :
        (q : Query c) (queries : List (Query c))
        → try_respond_batch_timed o s (q ∷ queries) ≡ answer (q ∷ queries)
    unfolding try_respond_batch_timed
    try_respond_batch_timed_lem q queries =
        try_lem (params s).collapse q queries (one_by_one o s (q ∷ queries) [] no_timings) refl
