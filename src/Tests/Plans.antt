-- ===== src/Tests/Plans.antt =====
-- Plans for queries of two records.
use ketebe_oss.Base.{◌≡◌, refl, true, false, none, some, [], ◌∷◌, length}
use ketebe_oss.Base.Result.{ok}
use ketebe_oss.Base.Map.{get, insert}
use ketebe_oss.Core.RecordOrder.{record_id_ord, compare_record_id}
use ketebe_oss.Base.Order.{compare_bytes}
use ketebe_oss.Search.Exact.{visible_values}
use ketebe_oss.Search.Score.{compare_hits}
use ketebe_oss.Search.Hits.{calm_watch}
use ketebe_oss.Search.Index.{HnswIndex, finished, panicked}
use ketebe_oss.Search.Plan.{
  PlannerConfig, QueryRequest, QueryResponse, prefer_auto, exact_plan, auto_hnsw_available,
  small_corpus,
}
use ketebe_oss.Search.Count.{visible_record_count}
use ketebe_oss.Search.Corpus.{visible_record_count-length}
use ketebe_oss.Search.Execute.{execute_query}
use ketebe_oss.Search.Sound.{IsSound}
use ketebe_oss.Search.Answered.{IndexPanics, Answers}
use ketebe_oss.Search.Planned.{execute_query-panics, execute_query-explain}
use ketebe_oss.Tests.Samples.{docs}
use ketebe_oss.Tests.Queries.{whole_numbers, two_records, best_hit, by_dot}

abbrev empty_index : HnswIndex
empty_index = record {
  collection_id = docs;
  ef_search = 8;
  search_with_control = λ query top_k watch. finished (ok []);
}

abbrev automatic : QueryRequest
automatic = record {
  collection = docs;
  vector = 3 ∷ [];
  metric = by_dot.metric;
  top_k = 1;
  filter = none;
  preference = prefer_auto;
}

abbrev from_three : PlannerConfig
from_three = record { ann_min_records = 3 }

abbrev small_response : QueryResponse
small_response = record {
  hits = best_hit ∷ [];
  explain = record {
    plan = exact_plan auto_hnsw_available small_corpus true;
    collection_id = docs;
    metric = by_dot.metric;
    top_k = 1;
    has_predicate = false;
    corpus_size = 2;
    ann_min_records = 3;
  };
}

answered :
    execute_query whole_numbers automatic two_records
      (some empty_index)
      from_three
      calm_watch
      calm_watch
      calm_watch
    ≡ finished (ok small_response)
unfolding execute_query get insert compare_record_id compare_bytes compare_hits
answered = refl

visible_record_count-length_example :
    visible_record_count two_records docs ≡ length (visible_values two_records docs)
visible_record_count-length_example = visible_record_count-length two_records docs

-- An index whose search fails an `expect`.
abbrev broken_index : HnswIndex
broken_index = record {
  collection_id = docs;
  ef_search = 8;
  search_with_control = λ query top_k watch. panicked;
}

abbrev from_two : PlannerConfig
from_two = record { ann_min_records = 2 }

broken :
    execute_query whole_numbers automatic two_records
      (some broken_index)
      from_two
      calm_watch
      calm_watch
      calm_watch
    ≡ panicked
unfolding execute_query get insert compare_record_id compare_bytes
broken = refl

execute_query-panics_example : IndexPanics automatic (some broken_index) calm_watch
execute_query-panics_example =
    execute_query-panics whole_numbers automatic two_records (some broken_index) from_two calm_watch
      calm_watch calm_watch broken

execute_query-explain_example :
    Answers whole_numbers automatic two_records
      (some empty_index)
      calm_watch
      calm_watch
      small_response.explain.plan.strategy
      small_response.hits
    × IsSound automatic
        (some empty_index)
        (length (visible_values two_records docs))
        from_three.ann_min_records
        small_response.explain.plan
    × (small_response.explain.corpus_size ≡ length (visible_values two_records docs))
execute_query-explain_example =
    execute_query-explain whole_numbers automatic two_records (some empty_index) from_three
      calm_watch calm_watch calm_watch small_response answered
