-- ===== src/Tests/Searches.antt =====
-- Searches of two records.
use ketebe_oss.Base.{◌≡◌, ◌≤◌, ◌+◌, refl, none, some, [], ◌∷◌, ◌++◌, All, length, arith}
use ketebe_oss.Base.Result.{ok, ◌>>=◌}
use ketebe_oss.Base.Map.{get, insert}
use ketebe_oss.Core.RecordOrder.{record_id_ord, compare_record_id}
use ketebe_oss.Base.Order.{compare_bytes}
use ketebe_oss.Predicate.Evaluate.{resolve}
use ketebe_oss.Search.Control.{check}
use ketebe_oss.Search.Score.{compare_hits}
use ketebe_oss.Search.Pages.{Strict}
use ketebe_oss.Search.Order.{score_gt}
use ketebe_oss.Search.Exact.{exact_search, validate_query, visible_values}
use ketebe_oss.Search.Ranked.{ranked, exact_search-ranked}
use ketebe_oss.Search.Stops.{StopsOr, exact_search-stops}
use ketebe_oss.Search.Hits.{IsHit, IsVisible, calm_watch, calm_watch-IsCalm, exact_search-hits}
use ketebe_oss.Search.Paging.{with_after, boundary_of, exact_search-pages}
use ketebe_oss.Search.Filtered.{exact_search_filtered, plain_search, usize_max}
use ketebe_oss.Search.Keeping.{IsCalmFrom}
use ketebe_oss.Search.Narrowing.{with_filter}
use ketebe_oss.Search.FilterAfter.{exact_search_filtered-filter}
use ketebe_oss.Tests.Samples.{docs}
use ketebe_oss.Tests.Queries.{
  whole_numbers, two_records, best_hit, other_hit, by_dot, marked, cancelled_watch,
}

one_hit : exact_search two_records docs by_dot 1 calm_watch ≡ ok (best_hit ∷ [])
unfolding exact_search get insert compare_record_id compare_bytes compare_hits
one_hit = refl

next_hit :
    exact_search two_records docs (with_after by_dot (some (boundary_of best_hit))) 4 calm_watch
    ≡ ok (other_hit ∷ [])
unfolding exact_search get insert compare_record_id compare_bytes compare_hits
next_hit = refl

exact_search-ranked_example :
    exact_search two_records docs by_dot 1 calm_watch
    ≡ (validate_query by_dot.query 1 >>= λ _. ranked by_dot 1 (visible_values two_records docs))
exact_search-ranked_example =
    exact_search-ranked two_records docs by_dot 1 calm_watch calm_watch-IsCalm

exact_search-stops_example :
    StopsOr
      (exact_search two_records docs by_dot 1 cancelled_watch)
      (exact_search two_records docs by_dot 1 calm_watch)
exact_search-stops_example =
    exact_search-stops two_records docs by_dot 1 cancelled_watch calm_watch calm_watch-IsCalm

exact_search-hits_example :
    (length (best_hit ∷ []) ≤ 1)
    × All (λ h. IsHit by_dot h × IsVisible two_records docs h.hit) (best_hit ∷ [])
    × Strict (score_gt by_dot.metric) (best_hit ∷ [])
exact_search-hits_example =
    exact_search-hits two_records docs by_dot 1 calm_watch (best_hit ∷ []) one_hit

exact_search-pages_example :
    exact_search two_records docs (with_after by_dot none) (1 + 4) calm_watch
    ≡ ok (([] ++ best_hit ∷ []) ++ other_hit ∷ [])
exact_search-pages_example =
    exact_search-pages two_records docs by_dot 1 4 calm_watch calm_watch calm_watch []
      (other_hit ∷ []) best_hit calm_watch-IsCalm one_hit next_hit

all_hits :
    exact_search two_records docs
      (plain_search whole_numbers (3 ∷ []) by_dot.metric)
      usize_max
      calm_watch
    ≡ ok (best_hit ∷ other_hit ∷ [])
unfolding exact_search get insert compare_record_id compare_bytes compare_hits
all_hits = refl

marked_hit :
    exact_search two_records docs
      (with_filter (plain_search whole_numbers (3 ∷ []) by_dot.metric) (some marked))
      1
      calm_watch
    ≡ ok (best_hit ∷ [])
unfolding exact_search get insert compare_record_id compare_bytes compare_hits resolve
marked_hit = refl

few_records : length (visible_values two_records docs) ≤ usize_max
unfolding visible_values get insert compare_record_id compare_bytes
few_records = omega arith

calm_later : IsCalmFrom calm_watch
unfolding check
calm_later n = refl

exact_search_filtered-filter_example :
    exact_search_filtered two_records docs whole_numbers
      (3 ∷ [])
      by_dot.metric
      1
      marked
      calm_watch
      calm_watch
    ≡ ok (best_hit ∷ [])
exact_search_filtered-filter_example =
    exact_search_filtered-filter two_records docs whole_numbers (3 ∷ []) by_dot.metric 1 marked
      calm_watch calm_watch calm_watch (best_hit ∷ other_hit ∷ []) (best_hit ∷ []) few_records
      calm_later all_hits marked_hit
