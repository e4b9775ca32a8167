-- ===== src/Search/Plan.antt =====
-- crates/ketebe-storage/src/cost_planner.rs: the planner.
use ketebe_oss.Base.{ℕ, Bool, true, false, Option, none, some, List, ltb, if◌then◌else◌}
use ketebe_oss.Base.Result.{Result, ok, err}
use ketebe_oss.Core.Values.{CollectionId}
use ketebe_oss.Core.RecordOrder.{record_id_ord}
use ketebe_oss.Predicate.Evaluate.{Predicate}
use ketebe_oss.Search.Score.{DistanceMetric, SearchError, SearchHit}
use ketebe_oss.Search.Index.{HnswError, HnswIndex}
use ketebe_oss.Search.Filtered.{FilteredSearchError}

abbrev pub default_ann_min_records : ℕ
default_ann_min_records = 1024

pub record PlannerConfig : Type 0 where
  pub ann_min_records : ℕ

pub data ExecutionPreference : Type 0 where
  prefer_auto prefer_exact prefer_hnsw : ExecutionPreference

pub data ExecutionStrategy : Type 0 where
  exact_strategy hnsw_strategy hnsw_post_filter : ExecutionStrategy

pub data PlanReason : Type 0 where
  explicit_exact explicit_hnsw explicit_hnsw_with_predicate auto_hnsw_available : PlanReason
  auto_hnsw_with_predicate auto_exact_fallback_no_hnsw : PlanReason

pub data CostReason : Type 0 where
  not_applicable no_hnsw small_corpus filtered_exact_conservative : CostReason
  ann_threshold_reached : CostReason

pub record QueryRequest : Type 0 where
  pub collection : CollectionId
  pub vector : List ℕ
  pub metric : DistanceMetric
  pub top_k : ℕ
  pub filter : Option Predicate
  pub preference : ExecutionPreference

pub record QueryPlan : Type 0 where
  pub strategy : ExecutionStrategy
  pub reason : PlanReason
  pub cost_reason : CostReason
  pub candidate_limit : Option ℕ
  pub fallback : Bool

-- The plan, and what the request and the planner saw.
pub record SearchExplain : Type 0 where
  pub plan : QueryPlan
  pub collection_id : CollectionId
  pub metric : DistanceMetric
  pub top_k : ℕ
  pub has_predicate : Bool
  pub corpus_size : ℕ
  pub ann_min_records : ℕ

pub record QueryResponse : Type 0 where
  pub hits : List SearchHit
  pub explain : SearchExplain

pub data PlannerError : Type 0 where
  missing_hnsw_index : PlannerError
  hnsw_collection_mismatch : CollectionId → CollectionId → PlannerError
  exact_error : SearchError → PlannerError
  hnsw_error : HnswError → PlannerError
  filtered_error : FilteredSearchError → PlannerError

abbrev pub is_some {ℓ} : {A : Type ℓ} → Option A → Bool
is_some none = false
is_some (some a) = true

abbrev pub exact_plan : PlanReason → CostReason → Bool → QueryPlan
exact_plan reason cost fallback = record {
  strategy = exact_strategy;
  reason = reason;
  cost_reason = cost;
  candidate_limit = none;
  fallback = fallback;
}

unfoldable pub plan_query :
    QueryRequest → Option HnswIndex → ℕ → PlannerConfig → Result PlannerError QueryPlan
plan_query request hnsw corpus_size config =
    let filtered = is_some request.filter in
    elim request.preference [
      | prefer_exact ↦ ok (exact_plan explicit_exact not_applicable false)
      | prefer_hnsw ↦ elim hnsw [
        | none ↦ err missing_hnsw_index
        | some index ↦ ok (record {
          strategy = if filtered then hnsw_post_filter else hnsw_strategy;
          reason = if filtered then explicit_hnsw_with_predicate else explicit_hnsw;
          cost_reason = not_applicable;
          candidate_limit = some index.ef_search;
          fallback = false;
        })
      ]
      | prefer_auto ↦ elim hnsw [
        | none ↦ ok (exact_plan auto_exact_fallback_no_hnsw no_hnsw true)
        | some index ↦
            if filtered
            then ok (exact_plan auto_hnsw_with_predicate filtered_exact_conservative true)
            else if ltb corpus_size config.ann_min_records
            then ok (exact_plan auto_hnsw_available small_corpus true)
            else ok (record {
              strategy = hnsw_strategy;
              reason = auto_hnsw_available;
              cost_reason = ann_threshold_reached;
              candidate_limit = some index.ef_search;
              fallback = false;
            })
      ]
    ]
