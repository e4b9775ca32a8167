-- ===== src/Search/Paging.antt =====
-- The pages of a search: the boundary is the last hit of the page before.
use ketebe_oss.Base.{
  ℕ, ◌+◌, ◌≡◌, refl, sym, ap, ◌∙◌, inl, inr, Bool, true, false, Bool-cases, Option, none, some,
  List, [], ◌∷◌, ◌++◌, length, take, ◌==◌, if◌then◌else◌, arith,
}
use ketebe_oss.Base.Result.{ok, ◌>>=◌, Result-cases, >>=-eq-ok, ok_injective}
use ketebe_oss.Core.Values.{CollectionId, Record}
use ketebe_oss.Segment.Build.{Segment}
use ketebe_oss.Visibility.Keyed.{UniqueRecords}
use ketebe_oss.Search.Score.{SearchHit, SearchAfter, score, hit_gt}
use ketebe_oss.Search.Sort.{sort_by}
use ketebe_oss.Search.Pages.{filter_by, take-page, sort_by-Agreeing}
use ketebe_oss.Search.Order.{
  score_gt, score_gt-IsRanking, UniqueIds, UniqueIds-Distinct, UniqueIds-Agreeing,
}
use ketebe_oss.Search.Exact.{
  Watch, Search, passes, is_after, candidate, check_first, validate_query, visible_values,
  exact_search,
}
use ketebe_oss.Search.Ranked.{IsCalm, with_hit, candidates, ranked, exact_search-ranked}
use ketebe_oss.Search.Hits.{exact_search-inversion, visible_values-Unique, candidates-Unique}

-- The search with a boundary, or with none.
abbrev pub with_after : Search → Option SearchAfter → Search
with_after search boundary = record {
  arithmetic = search.arithmetic;
  query = search.query;
  metric = search.metric;
  filter = search.filter;
  after = boundary;
}

abbrev pub boundary_of : SearchHit → SearchAfter
boundary_of h = record { after_score = h.hit_score; after_id = h.hit.id }

abbrev restrict : (SearchHit → Bool) → Option SearchHit → Option SearchHit
restrict p none = none
restrict p (some h) = if p h then some h else none

module _ (search : Search) (last : SearchHit) where
  abbrev above : SearchHit → Bool
  above h = score_gt search.metric h last

  candidate-after :
      (expected : ℕ) (r : Record)
      → candidate (with_after search (some (boundary_of last))) expected r
        ≡ (candidate (with_after search none) expected r >>= λ found. ok (restrict above found))
  unfolding candidate is_after
  candidate-after expected r = elim (Bool-cases (length r.vector == expected)) [
    | inr other ↦ rw (other)
    | inl same ↦ elim (Result-cases (passes search.filter r)) [
      | inr (e, failed) ↦ rw (same, failed)
      | inl (false, tested) ↦ rw (same, tested)
      | inl (true, tested) ↦
          elim (Result-cases (score search.arithmetic search.query r.vector search.metric)) [
            | inr (e, failed) ↦ rw (same, tested, failed)
            | inl (n, scored) ↦ rw (same, tested, scored)
          ]
    ]
  ]

  with_hit-restrict :
      (found : Option SearchHit) (rest : List SearchHit)
      → with_hit (restrict above found) (filter_by above rest)
        ≡ filter_by above (with_hit found rest)
  unfolding filter_by
  with_hit-restrict none rest = refl
  with_hit-restrict (some h) rest = elim (Bool-cases (above h)) [
    | inl kept ↦ rw (kept, filter_by)
    | inr gone ↦ rw (gone, filter_by)
  ]

  candidates-after :
      (expected : ℕ) (rs : List Record)
      → candidates (with_after search (some (boundary_of last))) expected rs
        ≡ (candidates (with_after search none) expected rs >>= λ all. ok (filter_by above all))
  unfolding candidates filter_by
  candidates-after expected [] = refl
  candidates-after expected (r ∷ rs) =
      elim (Result-cases (candidate (with_after search none) expected r)) [
        | inr (e, failed) ↦ rw (candidate-after expected r, failed)
        | inl (found, met) ↦ elim (Result-cases (candidates (with_after search none) expected rs)) [
          | inr (e, failed) ↦
              rw (candidate-after expected r, met, candidates-after expected rs, failed)
          | inl (rest, others) ↦
              rw (candidate-after expected r, met, candidates-after expected rs, others)
                (ap ok (with_hit-restrict found rest))
        ]
      ]

validate_query_more :
    (query : List ℕ) (j k : ℕ)
    → validate_query query j ≡ ok tt
    → validate_query query (j + k) ≡ ok tt
unfolding validate_query
validate_query_more [] j k h = ground (arith, h)
validate_query_more (v ∷ query) j k h = ground (arith, h)

by_score :
    (search : Search) (l : List SearchHit)
    → UniqueIds l
    → sort_by (hit_gt search.metric) l ≡ sort_by (score_gt search.metric) l
by_score search l u =
    sort_by-Agreeing _ (score_gt search.metric) l (UniqueIds-Agreeing search.metric l u)

ranked-page :
    (search : Search) (j k : ℕ) (rs : List Record) (front page : List SearchHit) (last : SearchHit)
    → UniqueRecords rs
    → ranked (with_after search none) j rs ≡ ok (front ++ last ∷ [])
    → ranked (with_after search (some (boundary_of last))) k rs ≡ ok page
    → ranked (with_after search none) (j + k) rs ≡ ok ((front ++ last ∷ []) ++ page)
unfolding ranked
ranked-page search j k [] [] page last u h n = absurd (ground (arith, h))
ranked-page search j k [] (x ∷ front) page last u h n = absurd (ground (arith, h))
ranked-page search j k (r ∷ rs) front page last u h n =
    let s0 = with_after search none in
    let s1 = with_after search (some (boundary_of last)) in
    let (_, first, later) = >>=-eq-ok (check_first s0 (length r.vector)) _ h in
    let (all, found, cut) = >>=-eq-ok (candidates s0 (length r.vector) (r ∷ rs)) _ later in
    let (_, _, next) = >>=-eq-ok (check_first s1 (length r.vector)) _ n in
    let rest : candidates s1 (length r.vector) (r ∷ rs) ≡ ok (filter_by (above search last) all) =
      candidates-after search last (length r.vector) (r ∷ rs) ∙ (rw (found)) in
    let kept = filter_by (above search last) all in
    let next_page : take k (sort_by (hit_gt search.metric) kept) ≡ page =
      ok_injective
        (ap (λ c. c >>= λ l. ok (take k (sort_by (hit_gt search.metric) l))) (sym rest) ∙ next) in
    let same_all =
      by_score search _ (candidates-Unique s0 (length r.vector) (r ∷ rs) all u found) in
    let same_kept =
      by_score search _ (candidates-Unique s1 (length r.vector) (r ∷ rs) kept u rest) in
    let continued =
      take-page (score_gt search.metric) (score_gt-IsRanking search.metric) j k all front last
        (UniqueIds-Distinct search.metric all
          (candidates-Unique s0 (length r.vector) (r ∷ rs) all u found))
        (ap (take j) (sym same_all) ∙ ok_injective cut) in
    rw (first, found)
      (ap ok (
        ap (take (j + k)) same_all
        ∙ sym continued
        ∙ ap (λ l. (front ++ last ∷ []) ++ l) (ap (take k) (sym same_kept) ∙ next_page)))

-- A page and then the page behind its last hit are the hits that one search for as many as both
-- asked for returns, whatever controls the two pages ran under, if no check stops the one search.
pub exact_search-pages :
    (segments : List Segment) (collection : CollectionId) (search : Search) (j k : ℕ)
    (watch next_watch calm : Watch) (front page : List SearchHit) (last : SearchHit)
    → IsCalm calm
    → exact_search segments collection (with_after search none) j watch ≡ ok (front ++ last ∷ [])
    → exact_search segments collection (with_after search (some (boundary_of last))) k next_watch
      ≡ ok page
    → exact_search segments collection (with_after search none) (j + k) calm
      ≡ ok ((front ++ last ∷ []) ++ page)
exact_search-pages segments collection search j k watch next_watch calm front page last c h n =
    let (valid, first) = exact_search-inversion segments collection _ j watch _ h in
    let (_, second) = exact_search-inversion segments collection _ k next_watch page n in
    exact_search-ranked segments collection (with_after search none) (j + k) calm c
    ∙ (rw (validate_query_more search.query j k valid) (
        ranked-page search j k (visible_values segments collection) front page last
          (visible_values-Unique segments collection) first second))
