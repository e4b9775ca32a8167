-- ===== src/Search/Planned.antt =====
-- What the responses of the planner say.
use ketebe_oss.Base.{◌≡◌, refl, subst, inl, inr, Option, List, length, arith}
use ketebe_oss.Base.Result.{ok, Result-cases, ok_injective}
use ketebe_oss.Segment.Build.{Segment}
use ketebe_oss.Search.Score.{Arithmetic}
use ketebe_oss.Search.Exact.{Watch, visible_values}
use ketebe_oss.Search.Index.{HnswIndex, finished, panicked}
use ketebe_oss.Search.Plan.{PlannerConfig, QueryRequest, QueryResponse}
use ketebe_oss.Search.Corpus.{visible_record_count-length}
use ketebe_oss.Search.Execute.{explain_plan, prepare, execute_query}
use ketebe_oss.Search.Sound.{IsSound, prepare-plan}
use ketebe_oss.Search.Answered.{
  IndexPanics, Answers, and_then-ok, and_then-panicked, execute_plan-Answers, execute_plan-panics,
}

module _ (f : Arithmetic) where
  -- An execution panics only if the search of the index that it is given does: a plan over the index
  -- is made only where an index is given, and one with a filter behind it only where a predicate is.
  pub execute_query-panics :
      (request : QueryRequest) (segments : List Segment) (hnsw : Option HnswIndex)
      (config : PlannerConfig) (first watch later : Watch)
      → execute_query f request segments hnsw config first watch later ≡ panicked
      → IndexPanics request hnsw watch
  unfolding execute_query
  execute_query-panics request segments hnsw config first watch later h =
      elim (Result-cases (prepare request segments hnsw config first)) [
        | inr (e, failed) ↦ absurd (ground (arith, h, failed))
        | inl (plan, planned) ↦
            let sound = prepare-plan request segments hnsw config first plan planned in
            execute_plan-panics f plan request segments hnsw watch later plan.strategy refl
              sound.feasible (and_then-panicked _ _ (rw (planned, execute_query) at h))
      ]

  pub execute_query-explain :
      (request : QueryRequest) (segments : List Segment) (hnsw : Option HnswIndex)
      (config : PlannerConfig) (first watch later : Watch) (response : QueryResponse)
      → execute_query f request segments hnsw config first watch later ≡ finished (ok response)
      → Answers f request segments hnsw watch later response.explain.plan.strategy response.hits
        × IsSound request hnsw
            (length (visible_values segments request.collection))
            config.ann_min_records
            response.explain.plan
        × (response.explain.corpus_size ≡ length (visible_values segments request.collection))
  unfolding execute_query explain_plan
  execute_query-explain request segments hnsw config first watch later response h =
      elim (Result-cases (prepare request segments hnsw config first)) [
        | inr (e, failed) ↦ absurd (ground (arith, h, failed))
        | inl (plan, planned) ↦
            let size = visible_record_count-length segments request.collection in
            let sound = prepare-plan request segments hnsw config first plan planned in
            let (hits, ran, made) = and_then-ok _ _ response (rw (planned, execute_query) at h) in
            let answers =
              execute_plan-Answers f plan request segments hnsw watch later hits plan.strategy refl
                ran in
            subst
              (λ (r : QueryResponse).
                Answers f request segments hnsw watch later r.explain.plan.strategy r.hits
                × IsSound request hnsw (length (visible_values segments request.collection))
                    config.ann_min_records r.explain.plan
                × (r.explain.corpus_size ≡ length (visible_values segments request.collection)))
              (ok_injective made)
              (
                answers,
                subst (λ n. IsSound request hnsw n config.ann_min_records plan) size sound,
                size,
              )
      ]
