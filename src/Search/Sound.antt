-- ===== src/Search/Sound.antt =====
-- What the planner chooses.
use ketebe_oss.Base.{
  ℕ, ◌≤◌, ◌≡◌, ◌≢◌, ◌&&◌, ◌⊎◌, Bool, true, false, Option, none, some, List, arith,
}
use ketebe_oss.Base.Result.{ok, map_err, >>=-eq-ok}
use ketebe_oss.Segment.Build.{Segment}
use ketebe_oss.Search.Exact.{Watch, poll}
use ketebe_oss.Search.Index.{HnswIndex}
use ketebe_oss.Search.Plan.{
  PlannerConfig, QueryRequest, QueryPlan, ExecutionStrategy, exact_strategy, hnsw_strategy,
  hnsw_post_filter, ExecutionPreference, prefer_auto, prefer_exact, prefer_hnsw, is_some,
  plan_query, exact_error,
}
use ketebe_oss.Search.Count.{visible_record_count}
use ketebe_oss.Search.Execute.{check_collection, prepare}

abbrev pub is_exact : ExecutionStrategy → Bool
is_exact exact_strategy = true
is_exact _ = false

abbrev pub is_auto : ExecutionPreference → Bool
is_auto prefer_auto = true
is_auto _ = false

-- The candidates that a strategy asks the index for.
abbrev pub limit_for : ExecutionStrategy → Option HnswIndex → Option ℕ
limit_for exact_strategy hnsw = none
limit_for _ none = none
limit_for _ (some index) = some index.ef_search

-- What a plan needs: an index for a strategy over it, and a predicate for the filter behind it.
abbrev pub Feasible : QueryRequest → Option HnswIndex → ExecutionStrategy → Type 0
Feasible request hnsw exact_strategy = Unit {0}
Feasible request hnsw hnsw_strategy = (is_some hnsw ≡ true) × (is_some request.filter ≡ false)
Feasible request hnsw hnsw_post_filter = (is_some hnsw ≡ true) × (is_some request.filter ≡ true)

-- A plan that can be executed and says why it was chosen.
pub record IsSound (request : QueryRequest) (hnsw : Option HnswIndex) (size threshold : ℕ)
    (plan : QueryPlan) : Type 0 where
  pub feasible : Feasible request hnsw plan.strategy
  pub limited : plan.candidate_limit ≡ limit_for plan.strategy hnsw
  pub falls_back : plan.fallback ≡ (is_auto request.preference && is_exact plan.strategy)
  pub obeys : (request.preference ≢ prefer_exact) ⊎ (plan.strategy ≡ exact_strategy)
  pub worthwhile :
      (plan.strategy ≡ exact_strategy)
      ⊎ ((request.preference ≡ prefer_hnsw) ⊎ ((threshold ≤ size) × (request.filter ≡ none)))

plan_query-IsSound :
    (request : QueryRequest) (hnsw : Option HnswIndex) (size : ℕ) (config : PlannerConfig)
    (plan : QueryPlan)
    → plan_query request hnsw size config ≡ ok plan
    → IsSound request hnsw size config.ann_min_records plan
unfolding plan_query
plan_query-IsSound request hnsw size config plan h = record {
  feasible = ground (arith, h);
  limited = ground (arith, h);
  falls_back = ground (arith, h);
  obeys = ground (arith, h);
  worthwhile = ground (arith, h);
}

-- What a plan was made from.
pub prepare-plan :
    (request : QueryRequest) (segments : List Segment) (hnsw : Option HnswIndex)
    (config : PlannerConfig) (first : Watch) (plan : QueryPlan)
    → prepare request segments hnsw config first ≡ ok plan
    → IsSound request hnsw
        (visible_record_count segments request.collection)
        config.ann_min_records
        plan
unfolding prepare
prepare-plan request segments hnsw config first plan planned =
    let (_, _, rest) = >>=-eq-ok (map_err exact_error (poll first 0)) _ planned in
    let (_, _, chosen) = >>=-eq-ok (check_collection request hnsw) _ rest in
    plan_query-IsSound request hnsw _ config plan chosen
