-- ===== src/Search/FilterAfter.antt =====
-- Ranking and then filtering, against filtering in the search.
use ketebe_oss.Base.{
  ℕ, suc, zero, ◌≤◌, ◌≡◌, refl, sym, ap, ◌∙◌, subst, false, Option, none, some, List, [], ◌∷◌,
  length, take, take_nil, All, ◌==◌, arith,
}
use ketebe_oss.Base.Result.{ok, >>=-eq-ok, ok_injective}
use ketebe_oss.Core.Values.{CollectionId, Record}
use ketebe_oss.Predicate.Evaluate.{Predicate}
use ketebe_oss.Segment.Build.{Segment}
use ketebe_oss.Search.Score.{DistanceMetric, Arithmetic, SearchHit, hit_gt}
use ketebe_oss.Search.Sort.{sort_by}
use ketebe_oss.Search.Pages.{filter_by, filter_by-sort_by, sort_by-All}
use ketebe_oss.Search.TopK.{take_whole, length-sort_by}
use ketebe_oss.Search.Order.{hit_gt-IsRanking}
use ketebe_oss.Search.Exact.{
  Watch, Search, candidate, visible_values, exact_search, validate_query, check_first,
}
use ketebe_oss.Search.Ranked.{with_hit, candidates, ranked}
use ketebe_oss.Search.Hits.{exact_search-inversion}
use ketebe_oss.Search.Filtered.{exact_search_filtered, plain_search, usize_max}
use ketebe_oss.Search.Keeping.{IsCalmFrom, admits, Decides, keep_matching-take}
use ketebe_oss.Search.Narrowing.{with_filter, candidates-Narrows}

length-with_hit :
    (found : Option SearchHit) (rest : List SearchHit)
    → length (with_hit found rest) ≤ suc (length rest)
length-with_hit none rest = omega arith
length-with_hit (some h) rest = omega arith

length-candidates :
    (search : Search) (expected : ℕ) (rs : List Record) (all : List SearchHit)
    → candidates search expected rs ≡ ok all
    → length all ≤ length rs
unfolding candidates
length-candidates search expected [] [] h = omega arith
length-candidates search expected [] (x ∷ all) h = absurd (ground (arith, h))
length-candidates search expected (r ∷ rs) all h =
    let (found, met, later) = >>=-eq-ok (candidate search expected r) _ h in
    let (rest, others, done) = >>=-eq-ok (candidates search expected rs) _ later in
    subst (λ l. length l ≤ suc (length rs)) (ok_injective done)
      (omega (arith, length-with_hit found rest, length-candidates search expected rs rest others))

ranked-filter :
    (search : Search) (p : Predicate) (k many : ℕ) (rs : List Record) (all hits : List SearchHit)
    → length rs ≤ many
    → ranked (with_filter search none) many rs ≡ ok all
    → ranked (with_filter search (some p)) k rs ≡ ok hits
    → (hits ≡ take k (filter_by (admits p) all)) × All (Decides p) all
unfolding ranked filter_by
ranked-filter search p k many [] [] [] few h n = (sym (take_nil k), tt)
ranked-filter search p k many [] (x ∷ all) hits few h n = absurd (ground (arith, h))
ranked-filter search p k many [] [] (x ∷ hits) few h n = absurd (ground (arith, n))
ranked-filter search p k many (r ∷ rs) all hits few h n =
    let s0 = with_filter search none in
    let s1 = with_filter search (some p) in
    let gt = hit_gt search.metric in
    let (_, _, later) = >>=-eq-ok (check_first s0 (length r.vector)) _ h in
    let (found, candidates0, cut) = >>=-eq-ok (candidates s0 (length r.vector) (r ∷ rs)) _ later in
    let (_, _, next) = >>=-eq-ok (check_first s1 (length r.vector)) _ n in
    let (kept, candidates1, cut') = >>=-eq-ok (candidates s1 (length r.vector) (r ∷ rs)) _ next in
    let (narrow, decided) =
      candidates-Narrows search p (length r.vector) (r ∷ rs) found kept candidates0 candidates1 in
    let within : length (sort_by gt found) ≤ many = omega (
      arith,
      length-sort_by gt found,
      few,
      length-candidates s0 (length r.vector) (r ∷ rs) found candidates0,
    ) in
    let whole : sort_by gt found ≡ all =
      sym (take_whole (sort_by gt found) many within) ∙ ok_injective cut in
    (
      sym (ok_injective cut')
          ∙ ap (λ l. take k (sort_by gt l)) narrow
          ∙ ap (take k) (
              sym (filter_by-sort_by gt (hit_gt-IsRanking search.metric) (admits p) found)
              ∙ ap (filter_by (admits p)) whole),
      subst (All (Decides p)) whole (sort_by-All gt (Decides p) found decided),
    )

top_k-positive : (query : List ℕ) (k : ℕ) → validate_query query k ≡ ok tt → (m : ℕ) × (k ≡ suc m)
unfolding validate_query
top_k-positive query (suc m) h = (m, refl)
top_k-positive [] zero h = absurd (ground (arith, h))
top_k-positive (v ∷ query) zero h = absurd (ground (arith, h))

-- Where the search that filters as it goes and the search that does not filter both return, ranking
-- all hits and then keeping the first that match returns what the former returns, if no check stops
-- it and there are no more visible records than an address counts.
pub exact_search_filtered-filter :
    (segments : List Segment) (collection : CollectionId) (f : Arithmetic) (query : List ℕ)
    (metric : DistanceMetric) (k : ℕ) (p : Predicate) (watch later other : Watch)
    (all hits : List SearchHit)
    → length (visible_values segments collection) ≤ usize_max
    → IsCalmFrom later
    → exact_search segments collection (plain_search f query metric) usize_max watch ≡ ok all
    → exact_search segments collection (with_filter (plain_search f query metric) (some p)) k other
      ≡ ok hits
    → exact_search_filtered segments collection f query metric k p watch later ≡ ok hits
unfolding exact_search_filtered
exact_search_filtered-filter segments collection f query metric k p watch later other all hits few
      calm h n =
    let search = plain_search f query metric in
    let (_, ranked0) = exact_search-inversion segments collection search usize_max watch all h in
    let (valid, ranked1) =
      exact_search-inversion segments collection (with_filter search (some p)) k other hits n in
    let (m, positive) = top_k-positive query k valid in
    let (same, decided) =
      ranked-filter search p k usize_max (visible_values segments collection) all hits few ranked0
        ranked1 in
    let asked : (k == 0) ≡ false = ground (arith, positive) in
    rw (asked, h)
      (keep_matching-take _ 256 p later calm k m 0 [] all decided (omega (arith, positive))
        ∙ ap (λ n. ok (take n (filter_by (admits p) all))) (sym positive)
        ∙ ap ok (sym same))
