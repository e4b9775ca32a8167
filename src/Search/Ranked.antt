-- ===== src/Search/Ranked.antt =====
-- The loop of a search against a reference: all hits of the visible records, sorted once and cut.
use ketebe_oss.Base.{
  ℕ, ◌+◌, ◌%◌, ◌/◌, ◌≡◌, refl, sym, ap, ◌∙◌, inl, inr, Bool-cases, Option, none, some, List, [],
  ◌∷◌, ◌++◌, length, take, append-nil, append_assoc, fun_ext, take_nil, ◌==◌,
}
use ketebe_oss.Base.Result.{Result, ok, err, ◌>>=◌, Result-cases, >>=_assoc}
use ketebe_oss.Core.Values.{CollectionId, Record}
use ketebe_oss.Segment.Build.{Segment}
use ketebe_oss.Search.Score.{SearchError, SearchHit, hit_gt}
use ketebe_oss.Search.Sort.{sort_by}
use ketebe_oss.Search.TopK.{keep_best-take}
use ketebe_oss.Search.Order.{hit_gt-IsRanking}
use ketebe_oss.Search.Exact.{
  Watch, Search, poll, poll_at, validate_query, candidate, keep_hit, visit, check_first,
  search_visible, visible_values, exact_search,
}

-- No check stops the execution.
abbrev pub IsCalm : Watch → Type 0
IsCalm watch = (n : ℕ) → poll watch n ≡ ok tt

abbrev pub with_hit : Option SearchHit → List SearchHit → List SearchHit
with_hit none rest = rest
with_hit (some h) rest = h ∷ rest

-- The hits of the records, in their order.
unfoldable pub candidates : Search → ℕ → List Record → Result SearchError (List SearchHit)
candidates search expected [] = ok []
candidates search expected (r ∷ rs) = candidate search expected r >>= λ found.
    candidates search expected rs >>= λ rest. ok (with_hit found rest)

-- All hits, sorted once and cut.
unfoldable pub ranked : Search → ℕ → List Record → Result SearchError (List SearchHit)
unfolding candidates
ranked search top_k [] = ok []
ranked search top_k (r ∷ rs) = check_first search (length r.vector) >>= λ _.
    candidates search (length r.vector) (r ∷ rs) >>= λ all.
    ok (take top_k (sort_by (hit_gt search.metric) all))

pub poll_at-IsCalm : (watch : Watch) (index : ℕ) → IsCalm watch → poll_at watch index ≡ ok tt
unfolding poll_at
poll_at-IsCalm watch index calm = elim (Bool-cases (index % 256 == 0)) [
  | inl due ↦ rw (due, poll_at) (calm (2 + index / 256))
  | inr skipped ↦ rw (skipped, poll_at)
]

module _ (search : Search) (k expected : ℕ) where
  abbrev best : List SearchHit → List SearchHit
  best l = take k (sort_by (hit_gt search.metric) l)

  keep_hit-best :
      (found : Option SearchHit) (seen : List SearchHit)
      → keep_hit search.metric k (best seen) found ≡ best (seen ++ with_hit found [])
  keep_hit-best none seen = ap best (sym (append-nil seen))
  keep_hit-best (some h) seen =
      keep_best-take (hit_gt search.metric) (hit_gt-IsRanking search.metric) k seen h

  append-with_hit :
      (found : Option SearchHit) (seen rest : List SearchHit)
      → (seen ++ with_hit found []) ++ rest ≡ seen ++ with_hit found rest
  append-with_hit none seen rest = ap (λ l. l ++ rest) (append-nil seen)
  append-with_hit (some h) seen rest = append_assoc seen (h ∷ []) rest

  visit-candidates :
      (watch : Watch)
      → IsCalm watch
      → (rs : List Record) (index : ℕ) (seen : List SearchHit)
      → visit search watch k expected index (best seen) rs
        ≡ (candidates search expected rs >>= λ all. ok (best (seen ++ all)))
  unfolding visit candidates
  visit-candidates watch calm [] index seen = ap (λ l. ok (best l)) (sym (append-nil seen))
  visit-candidates watch calm (r ∷ rs) index seen =
      elim (Result-cases (candidate search expected r)) [
        | inr (e, failed) ↦ rw (poll_at-IsCalm watch index calm, failed, candidates)
        | inl (found, met) ↦
            rw (poll_at-IsCalm watch index calm, met, candidates)
              (ap (λ hits. visit search watch k expected (index + 1) hits rs)
                  (keep_hit-best found seen)
                ∙ visit-candidates watch calm rs (index + 1) (seen ++ with_hit found [])
                ∙ ap (λ next. candidates search expected rs >>= next)
                    (fun_ext (λ rest. ap (λ l. ok (best l)) (append-with_hit found seen rest)))
                ∙ sym (
                    >>=_assoc (candidates search expected rs) (λ rest. ok (with_hit found rest)) _))
      ]

  visit-start :
      (watch : Watch)
      → IsCalm watch
      → (rs : List Record)
      → visit search watch k expected 0 [] rs
        ≡ (candidates search expected rs >>= λ all. ok (best all))
  unfolding sort_by
  visit-start watch calm rs =
      ap (λ hits. visit search watch k expected 0 hits rs) (sym (take_nil k))
      ∙ visit-candidates watch calm rs 0 []

bind-after :
    {A : Type 0} (r : Result SearchError A) (watch : Watch) (n : ℕ)
    → IsCalm watch
    → (r >>= λ a. poll watch n >>= λ _. ok a) ≡ r
bind-after (ok a) watch n calm = rw (calm n)
bind-after (err e) watch n calm = refl

search_visible-ranked :
    (search : Search) (k : ℕ) (watch : Watch)
    → IsCalm watch
    → (rs : List Record) → search_visible search watch k rs ≡ ranked search k rs
unfolding search_visible ranked
search_visible-ranked search k watch calm [] = refl
search_visible-ranked search k watch calm (r ∷ rs) =
    ap (λ next. check_first search (length r.vector) >>= next)
      (fun_ext (λ _.
        bind-after (visit search watch k (length r.vector) 0 [] (r ∷ rs)) watch _ calm
        ∙ visit-start search k (length r.vector) watch calm (r ∷ rs)))

-- A search that no check stops returns what the reference returns, errors included.
pub exact_search-ranked :
    (segments : List Segment) (collection : CollectionId) (search : Search) (top_k : ℕ)
    (watch : Watch)
    → IsCalm watch
    → exact_search segments collection search top_k watch ≡ (
        validate_query search.query top_k >>= λ _.
        ranked search top_k (visible_values segments collection))
unfolding exact_search
exact_search-ranked segments collection search top_k watch calm =
    rw (calm 0, calm 1)
      (ap (λ next. validate_query search.query top_k >>= next)
        (fun_ext (λ _.
          search_visible-ranked search top_k watch calm (visible_values segments collection))))
