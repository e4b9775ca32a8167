-- ===== src/Search/Index.antt =====
-- What the searches use of `HnswIndex` (crates/ketebe-storage/src/hnsw.rs), as an interface.
use ketebe_oss.Base.{ℕ, String, List}
use ketebe_oss.Base.Result.{Result, map_err, ◌>>=◌}
use ketebe_oss.Core.Values.{CollectionId}
use ketebe_oss.Search.Control.{QueryControlError}
use ketebe_oss.Search.Score.{SearchHit}
use ketebe_oss.Search.Exact.{Watch}

pub data HnswError : Type 0 where
  invalid_config exact_search invalid_graph : String → HnswError
  invalid_top_k empty_query_vector zero_norm_vector : HnswError
  ef_search_too_small dimension_mismatch : ℕ → ℕ → HnswError
  non_finite_query_value : ℕ → HnswError
  control : QueryControlError → HnswError

-- A call returns a result, or a call of `expect` in it panics.
pub data Execution (E A : Type 0) : Type 0 where
  finished : Result E A → Execution E A
  panicked : Execution E A

abbrev pub map_failure : {E F A : Type 0} → (E → F) → Execution E A → Execution F A
map_failure f (finished r) = finished (map_err f r)
map_failure f panicked = panicked

abbrev pub and_then : {E A B : Type 0} → Execution E A → (A → Result E B) → Execution E B
and_then (finished r) f = finished (r >>= f)
and_then panicked f = panicked

-- The graph and its search stand in hnsw.rs: the search may fail and, by its calls of `expect`, panic.
-- An `HnswHit` has the fields of a `SearchHit`.
pub record HnswIndex : Type 0 where
  pub collection_id : CollectionId
  pub ef_search : ℕ
  pub search_with_control : List ℕ → ℕ → Watch → Execution HnswError (List SearchHit)
