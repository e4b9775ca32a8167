-- ===== src/Search/Exact.antt =====
-- `exact_search_segments_after_with_control` of crates/ketebe-storage/src/search.rs. The check
-- number `n` of an execution reads the moment `n`.
use ketebe_oss.Base.{
  ℕ, ◌+◌, ◌/◌, ◌%◌, Bool, true, false, not, ◌&&◌, Option, none, some, List, [], ◌∷◌, map, length,
  ◌==◌, if◌then◌else◌,
}
use ketebe_oss.Base.Result.{Result, ok, err, ◌>>=◌, map_err}
use ketebe_oss.Core.Values.{CollectionId, RecordId, Record, is_finite}
use ketebe_oss.Predicate.Evaluate.{Predicate, evaluate, is_gt}
use ketebe_oss.Segment.Build.{Segment}
use ketebe_oss.Visibility.Fold.{fold_visible_records}
use ketebe_oss.Search.Control.{QueryControl, Moment, check}
use ketebe_oss.Search.Score.{
  DistanceMetric, cosine, SearchError, invalid_top_k, empty_query_vector, non_finite_query_value,
  dimension_mismatch, zero_norm_vector, control, predicate, Arithmetic, is_zero, norm, score,
  SearchHit, SearchAfter, compare_score_and_id, hit_gt,
}
use ketebe_oss.Search.TopK.{keep_best}

-- What the checks of one execution see.
pub record Watch : Type 0 where
  pub control : QueryControl
  pub moments : ℕ → Moment

-- The check number `n`.
unfoldable pub poll : Watch → ℕ → Result SearchError (Unit {0})
unfolding check
poll watch n = map_err control (check watch.control (watch.moments n))

unfoldable pub check_query : ℕ → List ℕ → Result SearchError (Unit {0})
unfolding is_finite
check_query index [] = ok tt
check_query index (v ∷ rest) =
    let later = check_query (index + 1) rest in
    if is_finite v then later else err (non_finite_query_value index)

unfoldable pub validate_query : List ℕ → ℕ → Result SearchError (Unit {0})
unfolding check_query
validate_query [] top_k = if top_k == 0 then err invalid_top_k else err empty_query_vector
validate_query (v ∷ rest) top_k = if top_k == 0 then err invalid_top_k else check_query 0 (v ∷ rest)

abbrev pub is_cosine : DistanceMetric → Bool
is_cosine cosine = true
is_cosine _ = false

-- The arguments of a search but for its limit and its control.
pub record Search : Type 0 where
  pub arithmetic : Arithmetic
  pub query : List ℕ
  pub metric : DistanceMetric
  pub filter : Option Predicate
  pub after : Option SearchAfter

unfoldable pub passes : Option Predicate → Record → Result SearchError Bool
unfolding evaluate
passes none r = ok true
passes (some p) r = map_err predicate (evaluate p r.metadata)

unfoldable pub is_after : DistanceMetric → Option SearchAfter → ℕ → RecordId → Bool
unfolding compare_score_and_id
is_after metric none s id = true
is_after metric (some a) s id = is_gt (compare_score_and_id metric s id a.after_score a.after_id)

-- The body of the loop behind its check: the hit of a record, if there is one.
unfoldable pub candidate : Search → ℕ → Record → Result SearchError (Option SearchHit)
unfolding passes score is_after
candidate search expected r =
    if not (length r.vector == expected)
    then err (dimension_mismatch expected (length r.vector))
    else passes search.filter r >>= λ kept.
        if not kept
        then ok none
        else score search.arithmetic search.query r.vector search.metric >>= λ s. ok (
            if is_after search.metric search.after s r.id
            then some (record { hit = r; hit_score = s })
            else none)

abbrev pub keep_hit : DistanceMetric → ℕ → List SearchHit → Option SearchHit → List SearchHit
keep_hit metric top_k hits none = hits
keep_hit metric top_k hits (some h) = keep_best (hit_gt metric) top_k hits h

unfoldable pub poll_at : Watch → ℕ → Result SearchError (Unit {0})
unfolding poll
poll_at watch index = if index % 256 == 0 then poll watch (2 + index / 256) else ok tt

-- The loop: the index of the next record, and the hits so far.
unfoldable pub visit :
    Search → Watch → ℕ → ℕ → ℕ → List SearchHit → List Record → Result SearchError (List SearchHit)
unfolding poll_at candidate keep_best
visit search watch top_k expected index hits [] = ok hits
visit search watch top_k expected index hits (r ∷ rs) = poll_at watch index >>= λ _.
    candidate search expected r >>= λ found.
    visit search watch top_k expected (index + 1) (keep_hit search.metric top_k hits found) rs

-- What is asked of a query against the first of the visible records.
unfoldable pub check_first : Search → ℕ → Result SearchError (Unit {0})
unfolding norm
check_first search expected =
    if not (length search.query == expected)
    then err (dimension_mismatch expected (length search.query))
    else if is_cosine search.metric && is_zero (norm search.arithmetic search.query)
    then err zero_norm_vector
    else ok tt

unfoldable pub search_visible :
    Search → Watch → ℕ → List Record → Result SearchError (List SearchHit)
unfolding visit check_first
search_visible search watch top_k [] = ok []
search_visible search watch top_k (r ∷ rs) = check_first search (length r.vector) >>= λ _.
    visit search watch top_k (length r.vector) 0 [] (r ∷ rs) >>= λ hits.
    poll watch (2 + (length (r ∷ rs) + 255) / 256) >>= λ _. ok hits

-- `into_values` of the visible records.
unfoldable pub visible_values : List Segment → CollectionId → List Record
unfolding fold_visible_records
visible_values segments collection = map (λ e. e.1) (fold_visible_records segments collection)

unfoldable pub exact_search :
    List Segment → CollectionId → Search → ℕ → Watch → Result SearchError (List SearchHit)
unfolding poll validate_query search_visible visible_values
exact_search segments collection search top_k watch = poll watch 0 >>= λ _.
    validate_query search.query top_k >>= λ _.
    poll watch 1 >>= λ _. search_visible search watch top_k (visible_values segments collection)
