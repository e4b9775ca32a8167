-- ===== src/Search/Hits.antt =====
-- What the hits of a search are.
use ketebe_oss.Base.{
  ℕ, ◌≤◌, ◌≡◌, refl, sym, ap, ◌∙◌, subst, inl, inr, true, false, Bool-cases, Option, none, some,
  List, [], ◌∷◌, length, take, All, ◌==◌, length-take, take-All, take_nil, All-weaken, arith,
}
use ketebe_oss.Base.Result.{ok, Result-cases, >>=-eq-ok}
use ketebe_oss.Base.Map.{get}
use ketebe_oss.Core.Values.{CollectionId, Record}
use ketebe_oss.Core.RecordOrder.{record_id_ord, same_id}
use ketebe_oss.Segment.Build.{Segment}
use ketebe_oss.Visibility.Fold.{fold_visible_records}
use ketebe_oss.Visibility.Keyed.{
  UniqueRecords, values-get, values-Unique, fold_visible_records-Sorted, fold_visible_records-Keyed,
}
use ketebe_oss.Search.Control.{unbounded, check}
use ketebe_oss.Search.Score.{SearchHit, score, hit_gt}
use ketebe_oss.Search.Sort.{sort_by}
use ketebe_oss.Search.Pages.{Strict, sort_by-All, sort_by-Strict, sort_by-Agreeing, take-Strict}
use ketebe_oss.Search.Order.{
  score_gt, score_gt-IsRanking, UniqueIds, OtherIds, UniqueIds-Distinct, UniqueIds-Agreeing,
}
use ketebe_oss.Search.Exact.{
  Watch, Search, poll, passes, is_after, candidate, check_first, validate_query, visible_values,
  exact_search,
}
use ketebe_oss.Search.Ranked.{IsCalm, with_hit, candidates, ranked, exact_search-ranked}
use ketebe_oss.Search.Stops.{exact_search-stops}

-- A control that nothing stops.
abbrev pub calm_watch : Watch
calm_watch = record { control = unbounded; moments = λ n. record { is_cancelled = false; now = n } }

pub calm_watch-IsCalm : IsCalm calm_watch
unfolding poll check
calm_watch-IsCalm n = refl

-- A hit is of a record that the search admits, with its score.
pub record IsHit (search : Search) (h : SearchHit) : Type 0 where
  pub matching : passes search.filter h.hit ≡ ok true
  pub scored : score search.arithmetic search.query h.hit.vector search.metric ≡ ok h.hit_score
  pub behind : is_after search.metric search.after h.hit_score h.hit.id ≡ true

abbrev HitOf : Search → Record → Option SearchHit → Type 0
HitOf search r none = Unit {0}
HitOf search r (some h) = (h.hit ≡ r) × IsHit search h

-- The hit of a record, and the tests that it has passed.
pub hit_found :
    (search : Search) (expected : ℕ) (r : Record) (x : SearchHit)
    → candidate search expected r ≡ ok (some x)
    → (n : ℕ) × (x ≡ record { hit = r; hit_score = n })
      × (passes search.filter r ≡ ok true)
      × (score search.arithmetic search.query r.vector search.metric ≡ ok n)
      × (is_after search.metric search.after n r.id ≡ true)
unfolding candidate
hit_found search expected r x h = elim (Bool-cases (length r.vector == expected)) [
  | inr other ↦ absurd (ground (arith, h, other))
  | inl same ↦ elim (Result-cases (passes search.filter r)) [
    | inr (e, failed) ↦ absurd (ground (arith, h, same, failed))
    | inl (kept, tested) ↦
        elim (Result-cases (score search.arithmetic search.query r.vector search.metric)) [
          | inr (e, failed) ↦ absurd (ground (arith, h, same, tested, failed))
          | inl (n, scored) ↦ (
            n,
            ground (arith, h, same, tested, scored),
            ground (arith, h, same, tested, scored),
            scored,
            ground (arith, h, same, tested, scored),
          )
        ]
  ]
]

-- What holds of the records holds of the records of the hits.
pub candidates-All :
    (P : Record → Type 0) (search : Search) (expected : ℕ) (rs : List Record) (all : List SearchHit)
    → All P rs
    → candidates search expected rs ≡ ok all
    → All (λ h. IsHit search h × P h.hit) all
unfolding candidates
candidates-All P search expected [] [] p h = tt
candidates-All P search expected [] (x ∷ all) p h = absurd (ground (arith, h))
candidates-All P search expected (r ∷ rs) all p h =
    let (found, met, later) = >>=-eq-ok (candidate search expected r) _ h in
    let (rest, others, done) = >>=-eq-ok (candidates search expected rs) _ later in
    let whole : with_hit found rest ≡ all = ground (arith, done) in
    subst (All (λ h. IsHit search h × P h.hit)) whole
      (with_found found met rest (candidates-All P search expected rs rest p.1 others))
  where
    with_found :
        (found : Option SearchHit)
        → candidate search expected r ≡ ok found
        → (rest : List SearchHit) → All (λ h. IsHit search h × P h.hit) rest
        → All (λ h. IsHit search h × P h.hit) (with_hit found rest)
    with_found none met rest a = a
    with_found (some x) met rest a =
        let (n, same, matching, scored, behind) = hit_found search expected r x met in
        (
          subst (λ h. IsHit search h × P h.hit) (sym same)
              (record { matching = matching; scored = scored; behind = behind }, p.0),
          a,
        )

pub candidates-Unique :
    (search : Search) (expected : ℕ) (rs : List Record) (all : List SearchHit)
    → UniqueRecords rs
    → candidates search expected rs ≡ ok all
    → UniqueIds all
unfolding candidates
candidates-Unique search expected [] [] u h = tt
candidates-Unique search expected [] (x ∷ all) u h = absurd (ground (arith, h))
candidates-Unique search expected (r ∷ rs) all u h =
    let (found, met, later) = >>=-eq-ok (candidate search expected r) _ h in
    let (rest, others, done) = >>=-eq-ok (candidates search expected rs) _ later in
    let whole : with_hit found rest ≡ all = ground (arith, done) in
    subst UniqueIds whole
      (with_found found met rest others (candidates-Unique search expected rs rest u.1 others))
  where
    with_found :
        (found : Option SearchHit)
        → candidate search expected r ≡ ok found
        → (rest : List SearchHit) → candidates search expected rs ≡ ok rest
        → UniqueIds rest
        → UniqueIds (with_hit found rest)
    with_found none met rest others a = a
    with_found (some x) met rest others a =
        let (n, same, matching, scored, behind) = hit_found search expected r x met in
        let apart =
          candidates-All (λ s. same_id r.id s.id ≡ false) search expected rs rest u.0 others in
        (subst (λ h. OtherIds h rest) (sym same) (All-weaken (λ h k. k.1) rest apart), a)

-- A search that returns is one that no check has stopped.
pub exact_search-inversion :
    (segments : List Segment) (collection : CollectionId) (search : Search) (k : ℕ) (watch : Watch)
    (hits : List SearchHit)
    → exact_search segments collection search k watch ≡ ok hits
    → (validate_query search.query k ≡ ok tt)
      × (ranked search k (visible_values segments collection) ≡ ok hits)
exact_search-inversion segments collection search k watch hits h =
    elim (exact_search-stops segments collection search k watch calm_watch calm_watch-IsCalm) [
      | inr (q, stopped) ↦ cc
      | inl same ↦
          let whole =
            sym (exact_search-ranked segments collection search k calm_watch calm_watch-IsCalm)
            ∙ sym same
            ∙ h in
          let (u, valid, rest) = >>=-eq-ok (validate_query search.query k) _ whole in (valid, rest)
    ]

pub ranked-inversion :
    (search : Search) (k : ℕ) (rs : List Record) (hits : List SearchHit)
    → ranked search k rs ≡ ok hits
    → (expected : ℕ) × (all : List SearchHit) × (candidates search expected rs ≡ ok all)
      × (hits ≡ take k (sort_by (hit_gt search.metric) all))
unfolding ranked sort_by
ranked-inversion search k [] hits h = (0, [], refl, ground (arith, h, take_nil {A = SearchHit} k))
ranked-inversion search k (r ∷ rs) hits h =
    let (u, first, later) = >>=-eq-ok (check_first search (length r.vector)) _ h in
    let (all, found, done) = >>=-eq-ok (candidates search (length r.vector) (r ∷ rs)) _ later in
    (length r.vector, all, found, ground (arith, done))

-- A hit that a lookup among the visible records finds.
abbrev pub IsVisible : List Segment → CollectionId → Record → Type 0
IsVisible segments collection r = get r.id (fold_visible_records segments collection) ≡ some r

visible_values-IsVisible :
    (segments : List Segment) (collection : CollectionId)
    → All (IsVisible segments collection) (visible_values segments collection)
unfolding visible_values
visible_values-IsVisible segments collection =
    values-get (fold_visible_records segments collection)
      (fold_visible_records-Sorted segments collection)
      (fold_visible_records-Keyed segments collection)

pub visible_values-Unique :
    (segments : List Segment) (collection : CollectionId)
    → UniqueRecords (visible_values segments collection)
unfolding visible_values
visible_values-Unique segments collection =
    values-Unique (fold_visible_records segments collection)
      (fold_visible_records-Sorted segments collection)
      (fold_visible_records-Keyed segments collection)

-- The hits of a search that returns are at most as many as it asks for. Each is of a visible record
-- that passes the filter and the boundary, with the score of that record. They stand strictly in
-- the order of score and id, so that no record appears twice.
pub exact_search-hits :
    (segments : List Segment) (collection : CollectionId) (search : Search) (k : ℕ) (watch : Watch)
    (hits : List SearchHit)
    → exact_search segments collection search k watch ≡ ok hits
    → (length hits ≤ k)
      × All (λ h. IsHit search h × IsVisible segments collection h.hit) hits
      × Strict (score_gt search.metric) hits
exact_search-hits segments collection search k watch hits h =
    let (valid, whole) = exact_search-inversion segments collection search k watch hits h in
    let (expected, all, found, cut) =
      ranked-inversion search k (visible_values segments collection) hits whole in
    let sorted = sort_by (hit_gt search.metric) all in
    let good =
      candidates-All (IsVisible segments collection) search expected _ all
        (visible_values-IsVisible segments collection) found in
    let unique =
      candidates-Unique search expected _ all (visible_values-Unique segments collection) found in
    let same =
      sort_by-Agreeing _ (score_gt search.metric) all
        (UniqueIds-Agreeing search.metric all unique) in
    (
      subst (λ l. length l ≤ k) (sym cut) (omega (arith, length-take k sorted)),
      subst (All (λ h. IsHit search h × IsVisible segments collection h.hit)) (sym cut)
          (take-All _ k sorted (sort_by-All _ _ all good)),
      subst (Strict (score_gt search.metric)) (sym (cut ∙ ap (take k) same)) (
          take-Strict _ k _ (
            sort_by-Strict _ (score_gt-IsRanking search.metric) all
              (UniqueIds-Distinct search.metric all unique))),
    )
