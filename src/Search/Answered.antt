-- ===== src/Search/Answered.antt =====
-- What the match on the strategy of a plan runs.
use ketebe_oss.Base.{
  ℕ, ◌≡◌, refl, ap, ◌==◌, Bool-cases, Option-cases, ◌⊎◌, inl, inr, Option, none, some, List, arith,
}
use ketebe_oss.Base.Result.{Result, ok, err, map_err}
use ketebe_oss.Segment.Build.{Segment}
use ketebe_oss.Search.Score.{Arithmetic, SearchHit}
use ketebe_oss.Search.Exact.{Watch, exact_search}
use ketebe_oss.Search.Index.{HnswIndex, Execution, finished, panicked, map_failure, and_then}
use ketebe_oss.Predicate.Evaluate.{Predicate}
use ketebe_oss.Search.Filtered.{
  hnsw_failed, plain_search, exact_search_filtered, hnsw_search_filtered,
}
use ketebe_oss.Search.Plan.{
  QueryRequest, QueryPlan, ExecutionStrategy, exact_strategy, hnsw_strategy, hnsw_post_filter,
  exact_error, hnsw_error, filtered_error,
}
use ketebe_oss.Search.Execute.{execute_exact_controlled, execute_plan}
use ketebe_oss.Search.Sound.{Feasible}

-- The search of the index that panics: the one for the hits, or for the candidates of a filter.
abbrev pub IndexPanics : QueryRequest → Option HnswIndex → Watch → Type 0
IndexPanics request hnsw watch =
    (index : HnswIndex) × (hnsw ≡ some index)
    × ((index.search_with_control request.vector request.top_k watch ≡ panicked)
        ⊎ (index.search_with_control request.vector index.ef_search watch ≡ panicked))

map_err-ok :
    {E F A : Type 0} (g : E → F) (r : Result E A) (a : A)
    → finished (map_err g r) ≡ finished (ok a)
    → r ≡ ok a
map_err-ok g (ok b) a h = ground (arith, h)
map_err-ok g (err e) a h = absurd (ground (arith, h))

map_failure-ok :
    {E F A : Type 0} (g : E → F) (x : Execution E A) (a : A)
    → map_failure g x ≡ finished (ok a)
    → x ≡ finished (ok a)
map_failure-ok g (finished r) a h = ap finished (map_err-ok g r a h)
map_failure-ok g panicked a h = absurd (ground (arith, h))

map_failure-panicked :
    {E F A : Type 0} (g : E → F) (x : Execution E A) → map_failure g x ≡ panicked → x ≡ panicked
map_failure-panicked g (finished r) h = absurd (ground (arith, h))
map_failure-panicked g panicked h = refl

pub and_then-panicked :
    {E A B : Type 0} (x : Execution E A) (g : A → Result E B)
    → and_then x g ≡ panicked
    → x ≡ panicked
and_then-panicked (finished r) g h = absurd (ground (arith, h))
and_then-panicked panicked g h = refl

pub and_then-ok :
    {E A B : Type 0} (x : Execution E A) (g : A → Result E B) (b : B)
    → and_then x g ≡ finished (ok b)
    → (a : A) × (x ≡ finished (ok a)) × (g a ≡ ok b)
and_then-ok (finished (ok a)) g b h = (a, refl, ground (arith, h))
and_then-ok (finished (err e)) g b h = absurd (ground (arith, h))
and_then-ok panicked g b h = absurd (ground (arith, h))

-- The search behind a filter panics only where the search of the index does.
hnsw_search_filtered-panics :
    (index : HnswIndex) (query : List ℕ) (top_k : ℕ) (p : Predicate) (watch later : Watch)
    → hnsw_search_filtered index query top_k p watch later ≡ panicked
    → index.search_with_control query index.ef_search watch ≡ panicked
unfolding hnsw_search_filtered
hnsw_search_filtered-panics index query top_k p watch later h = elim (Bool-cases (top_k == 0)) [
  | inl nothing ↦ absurd (ground (arith, nothing, h))
  | inr some_of ↦
      map_failure-panicked hnsw_failed _
        (and_then-panicked _ _ (rw (some_of, hnsw_search_filtered) at h))
]

module _ (f : Arithmetic) where
  -- The hits are those of the search that a strategy names, run on its own.
  abbrev pub Answers :
      QueryRequest
      → List Segment
      → Option HnswIndex
      → Watch
      → Watch
      → ExecutionStrategy
      → List SearchHit
      → Type 0
  Answers request segments hnsw watch later exact_strategy hits =
      ((request.filter ≡ none)
        × (exact_search segments request.collection (plain_search f request.vector request.metric)
              request.top_k watch
            ≡ ok hits))
      ⊎ ((p : Predicate) × (request.filter ≡ some p)
          × (exact_search_filtered segments request.collection f request.vector request.metric
                request.top_k p watch later
              ≡ ok hits))
  Answers request segments hnsw watch later hnsw_strategy hits =
      (index : HnswIndex) × (hnsw ≡ some index)
      × (index.search_with_control request.vector request.top_k watch ≡ finished (ok hits))
  Answers request segments hnsw watch later hnsw_post_filter hits =
      (index : HnswIndex) × (p : Predicate) × (hnsw ≡ some index)
      × (request.filter ≡ some p)
      × (hnsw_search_filtered index request.vector request.top_k p watch later ≡ finished (ok hits))

  pub execute_plan-Answers :
      (plan : QueryPlan) (request : QueryRequest) (segments : List Segment)
      (hnsw : Option HnswIndex) (watch later : Watch) (hits : List SearchHit)
      (strategy : ExecutionStrategy)
      → plan.strategy ≡ strategy
      → execute_plan f plan request segments hnsw watch later ≡ finished (ok hits)
      → Answers request segments hnsw watch later strategy hits
  unfolding execute_plan execute_exact_controlled
  execute_plan-Answers plan request segments hnsw watch later hits exact_strategy place h =
      elim (Option-cases request.filter) [
        | inl unfiltered ↦ inl (
          unfiltered,
          map_err-ok exact_error _ hits
              (rw (place, unfiltered, execute_plan, execute_exact_controlled) at h),
        )
        | inr (p, filtered) ↦ inr (
          p,
          filtered,
          map_err-ok filtered_error _ hits
              (rw (place, filtered, execute_plan, execute_exact_controlled) at h),
        )
      ]
  execute_plan-Answers plan request segments none watch later hits hnsw_strategy place h =
      absurd (ground (arith, place, h))
  execute_plan-Answers plan request segments (some index) watch later hits hnsw_strategy place h =
      (index, refl, map_failure-ok hnsw_error _ hits (rw (place, execute_plan) at h))
  execute_plan-Answers plan request segments none watch later hits hnsw_post_filter place h =
      absurd (ground (arith, place, h))
  execute_plan-Answers plan request segments (some index) watch later hits hnsw_post_filter place
        h =
      elim (Option-cases request.filter) [
        | inl unfiltered ↦ absurd (ground (arith, place, unfiltered, h))
        | inr (p, filtered) ↦ (
          index,
          p,
          refl,
          filtered,
          map_failure-ok filtered_error _ hits (rw (place, filtered, execute_plan) at h),
        )
      ]

  pub execute_plan-panics :
      (plan : QueryPlan) (request : QueryRequest) (segments : List Segment)
      (hnsw : Option HnswIndex) (watch later : Watch) (strategy : ExecutionStrategy)
      → plan.strategy ≡ strategy
      → Feasible request hnsw strategy
      → execute_plan f plan request segments hnsw watch later ≡ panicked
      → IndexPanics request hnsw watch
  unfolding execute_plan
  execute_plan-panics plan request segments hnsw watch later exact_strategy place feasible h =
      absurd (ground (arith, place, h))
  execute_plan-panics plan request segments none watch later hnsw_strategy place feasible h =
      absurd (ground (arith, feasible))
  execute_plan-panics plan request segments (some index) watch later hnsw_strategy place feasible
        h =
      (index, refl, inl (map_failure-panicked hnsw_error _ (rw (place, execute_plan) at h)))
  execute_plan-panics plan request segments none watch later hnsw_post_filter place feasible h =
      absurd (ground (arith, feasible))
  execute_plan-panics plan request segments (some index) watch later hnsw_post_filter place feasible
        h =
      elim (Option-cases request.filter) [
        | inl unfiltered ↦ absurd (ground (arith, feasible, unfiltered))
        | inr (p, filtered) ↦ (
          index,
          refl,
          inr (
              hnsw_search_filtered-panics index request.vector request.top_k p watch later
                (map_failure-panicked filtered_error _ (rw (place, filtered, execute_plan) at h))),
        )
      ]
