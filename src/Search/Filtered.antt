-- ===== src/Search/Filtered.antt =====
-- crates/ketebe-storage/src/filter.rs: the searches that rank first and filter then.
use ketebe_oss.Base.{
  ℕ, ◌+◌, ◌-◌, ◌/◌, ◌%◌, ◌^◌, ◌&&◌, none, List, [], ◌∷◌, ◌++◌, length, ◌==◌, if◌then◌else◌,
}
use ketebe_oss.Base.Result.{Result, ok, err, ◌>>=◌, map_err}
use ketebe_oss.Core.Values.{CollectionId}
use ketebe_oss.Predicate.Compare.{PredicateError}
use ketebe_oss.Predicate.Evaluate.{Predicate, evaluate}
use ketebe_oss.Segment.Build.{Segment}
use ketebe_oss.Search.Control.{QueryControlError, check}
use ketebe_oss.Search.Score.{
  DistanceMetric, SearchError, invalid_top_k, control, Arithmetic, SearchHit,
}
use ketebe_oss.Search.Index.{HnswError, HnswIndex, Execution, finished, map_failure, and_then}
use ketebe_oss.Search.Exact.{Watch, Search, exact_search}

pub data FilteredSearchError : Type 0 where
  exact_failed : SearchError → FilteredSearchError
  hnsw_failed : HnswError → FilteredSearchError
  predicate_failed : PredicateError → FilteredSearchError

-- `index % period == 0`, and the check of the control.
unfoldable pub poll_every : ℕ → Watch → ℕ → Result QueryControlError (Unit {0})
unfolding check
poll_every period watch index =
    if index % period == 0 then check watch.control (watch.moments (index / period)) else ok tt

-- The loop over ranked hits, with the error that a check becomes.
unfoldable pub keep_matching :
    (QueryControlError → FilteredSearchError)
    → ℕ
    → Predicate
    → ℕ
    → Watch
    → ℕ
    → List SearchHit
    → List SearchHit
    → Result FilteredSearchError (List SearchHit)
unfolding poll_every evaluate
keep_matching stopped period p top_k watch index filtered [] = ok filtered
keep_matching stopped period p top_k watch index filtered (h ∷ hs) =
    map_err stopped (poll_every period watch index) >>= λ _.
    map_err predicate_failed (evaluate p h.hit.metadata) >>= λ matches.
    let next = if matches then filtered ++ h ∷ [] else filtered in
    let rest = keep_matching stopped period p top_k watch (index + 1) next hs in
    if matches && length next == top_k then ok next else rest

abbrev pub usize_max : ℕ
usize_max = 2 ^ 64 - 1

-- The arguments of an exact search, without a filter or a boundary.
abbrev pub plain_search : Arithmetic → List ℕ → DistanceMetric → Search
plain_search f query metric = record {
  arithmetic = f;
  query = query;
  metric = metric;
  filter = none;
  after = none;
}

-- The first checks are those of the exact search, the others those of the filter.
unfoldable pub exact_search_filtered :
    List Segment
    → CollectionId
    → Arithmetic
    → List ℕ
    → DistanceMetric
    → ℕ
    → Predicate
    → Watch
    → Watch
    → Result FilteredSearchError (List SearchHit)
unfolding exact_search keep_matching
exact_search_filtered segments collection f query metric top_k p watch later =
    if top_k == 0
    then err (exact_failed invalid_top_k)
    else map_err exact_failed
        (exact_search segments collection (plain_search f query metric) usize_max watch)
      >>= λ hits. keep_matching (λ q. exact_failed (control q)) 256 p top_k later 0 [] hits

unfoldable pub hnsw_search_filtered :
    HnswIndex
    → List ℕ
    → ℕ
    → Predicate
    → Watch
    → Watch
    → Execution FilteredSearchError (List SearchHit)
unfolding keep_matching
hnsw_search_filtered index query top_k p watch later =
    if top_k == 0
    then finished (err (hnsw_failed HnswError.invalid_top_k))
    else and_then (map_failure hnsw_failed (index.search_with_control query index.ef_search watch))
        (keep_matching (λ q. hnsw_failed (HnswError.control q)) 64 p top_k later 0 [])
