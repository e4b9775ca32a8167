-- ===== src/Search/Execute.antt =====
-- The execution of a plan of crates/ketebe-storage/src/cost_planner.rs.
use ketebe_oss.Base.{ℕ, Option, none, some, List, if◌then◌else◌}
use ketebe_oss.Base.Result.{Result, ok, err, ◌>>=◌, map_err}
use ketebe_oss.Core.RecordOrder.{record_id_ord, same_collection}
use ketebe_oss.Segment.Build.{Segment}
use ketebe_oss.Search.Score.{Arithmetic, SearchHit}
use ketebe_oss.Search.Exact.{Watch, poll, exact_search}
use ketebe_oss.Search.Index.{HnswIndex, Execution, finished, panicked, map_failure, and_then}
use ketebe_oss.Search.Filtered.{exact_search_filtered, hnsw_search_filtered, plain_search}
use ketebe_oss.Search.Plan.{
  PlannerConfig, QueryRequest, QueryPlan, QueryResponse, PlannerError, hnsw_collection_mismatch,
  exact_error, hnsw_error, filtered_error, exact_strategy, hnsw_strategy, hnsw_post_filter, is_some,
  plan_query,
}
use ketebe_oss.Search.Count.{visible_record_count}

unfoldable pub explain_plan :
    QueryRequest → QueryPlan → ℕ → PlannerConfig → List SearchHit → QueryResponse
explain_plan request plan corpus_size config hits = record {
  hits = hits;
  explain = record {
    plan = plan;
    collection_id = request.collection;
    metric = request.metric;
    top_k = request.top_k;
    has_predicate = is_some request.filter;
    corpus_size = corpus_size;
    ann_min_records = config.ann_min_records;
  };
}

-- Whether an index is given that is of another collection.
unfoldable pub check_collection : QueryRequest → Option HnswIndex → Result PlannerError (Unit {0})
check_collection request none = ok tt
check_collection request (some index) =
    if same_collection index.collection_id request.collection
    then ok tt
    else err (hnsw_collection_mismatch request.collection index.collection_id)

unfoldable pub prepare :
    QueryRequest
    → List Segment
    → Option HnswIndex
    → PlannerConfig
    → Watch
    → Result PlannerError QueryPlan
unfolding poll check_collection plan_query visible_record_count
prepare request segments hnsw config first = map_err exact_error (poll first 0) >>= λ _.
    check_collection request hnsw >>= λ _.
    plan_query request hnsw (visible_record_count segments request.collection) config

module _ (f : Arithmetic) where
  unfoldable pub execute_exact_controlled :
      QueryRequest → List Segment → Watch → Watch → Result PlannerError (List SearchHit)
  unfolding exact_search_filtered exact_search
  execute_exact_controlled request segments watch later = elim request.filter [
    | some p ↦ map_err filtered_error (
        exact_search_filtered segments request.collection f request.vector request.metric
          request.top_k p watch later)
    | none ↦ map_err exact_error (
        exact_search segments request.collection (plain_search f request.vector request.metric)
          request.top_k watch)
  ]

  -- The match on the strategy.
  unfoldable pub execute_plan :
      QueryPlan
      → QueryRequest
      → List Segment
      → Option HnswIndex
      → Watch
      → Watch
      → Execution PlannerError (List SearchHit)
  unfolding execute_exact_controlled hnsw_search_filtered
  execute_plan plan request segments hnsw watch later = elim plan.strategy [
    | exact_strategy ↦ finished (execute_exact_controlled request segments watch later)
    | hnsw_strategy ↦ elim hnsw [
      | none ↦ panicked
      | some index ↦
          map_failure hnsw_error (index.search_with_control request.vector request.top_k watch)
    ]
    | hnsw_post_filter ↦ elim hnsw [
      | none ↦ panicked
      | some index ↦ elim request.filter [
        | none ↦ panicked
        | some p ↦
            map_failure filtered_error
              (hnsw_search_filtered index request.vector request.top_k p watch later)
      ]
    ]
  ]

  -- `execute_query_with_config_and_control`. The checks before the plan, those of the search and
  -- those of the filter read three watches.
  unfoldable pub execute_query :
      QueryRequest
      → List Segment
      → Option HnswIndex
      → PlannerConfig
      → Watch
      → Watch
      → Watch
      → Execution PlannerError QueryResponse
  unfolding prepare execute_plan explain_plan visible_record_count
  execute_query request segments hnsw config first watch later =
      elim (prepare request segments hnsw config first) [
        | err e ↦ finished (err e)
        | ok plan ↦ and_then (execute_plan plan request segments hnsw watch later) (λ hits. ok (
            explain_plan request plan (visible_record_count segments request.collection) config
              hits))
      ]
