-- ===== src/Search/Stops.antt =====
-- A control that stops a search, against one that does not.
use ketebe_oss.Base.{
  ℕ, ◌+◌, ◌/◌, ◌%◌, ◌≡◌, refl, sym, ap, ◌∙◌, subst, ◌⊎◌, inl, inr, Bool-cases, List, [], ◌∷◌,
  length, ◌==◌,
}
use ketebe_oss.Base.Result.{Result, ok, err, ◌>>=◌, Result-cases}
use ketebe_oss.Core.Values.{CollectionId, Record}
use ketebe_oss.Segment.Build.{Segment}
use ketebe_oss.Search.Control.{QueryControlError, check}
use ketebe_oss.Search.Score.{SearchError, SearchHit, control}
use ketebe_oss.Search.Exact.{
  Watch, Search, poll, poll_at, validate_query, candidate, keep_hit, visit, check_first,
  search_visible, visible_values, exact_search,
}
use ketebe_oss.Search.Ranked.{IsCalm}

-- The outcome of an execution, against the one of an execution that no check stops.
abbrev pub StopsOr : {A : Type 0} → Result SearchError A → Result SearchError A → Type 0
StopsOr watched calm = (watched ≡ calm) ⊎ ((q : QueryControlError) × (watched ≡ err (control q)))

StopsOr-bind :
    {A B : Type 0} (watched calm : Result SearchError A) (f g : A → Result SearchError B)
    → StopsOr watched calm
    → ((a : A) → StopsOr (f a) (g a))
    → StopsOr (watched >>= f) (calm >>= g)
StopsOr-bind (ok a) calm f g (inl same) next = subst (λ r. StopsOr (f a) (r >>= g)) same (next a)
StopsOr-bind (err e) calm f g (inl same) next = inl (ap (λ r. r >>= g) same)
StopsOr-bind watched calm f g (inr (q, stopped)) next = inr (q, ap (λ r. r >>= f) stopped)

poll-StopsOr : (watch calm : Watch) (n : ℕ) → IsCalm calm → StopsOr (poll watch n) (poll calm n)
unfolding poll
poll-StopsOr watch calm n h = elim (Result-cases (check watch.control (watch.moments n))) [
  | inl (u, passed) ↦ inl ((rw (passed, poll)) ∙ sym (h n))
  | inr (q, stopped) ↦ inr (q, rw (stopped, poll))
]

poll_at-StopsOr :
    (watch calm : Watch) (n : ℕ) → IsCalm calm → StopsOr (poll_at watch n) (poll_at calm n)
unfolding poll_at
poll_at-StopsOr watch calm n h = elim (Bool-cases (n % 256 == 0)) [
  | inl due ↦ rw (due, poll_at) (poll-StopsOr watch calm (2 + n / 256) h)
  | inr skipped ↦ rw (skipped, poll_at) (inl refl)
]

visit-StopsOr :
    (search : Search) (watch calm : Watch) (k expected : ℕ)
    → IsCalm calm
    → (rs : List Record) (index : ℕ) (hits : List SearchHit)
    → StopsOr
        (visit search watch k expected index hits rs)
        (visit search calm k expected index hits rs)
unfolding visit
visit-StopsOr search watch calm k expected h [] index hits = inl refl
visit-StopsOr search watch calm k expected h (r ∷ rs) index hits =
    StopsOr-bind _ _ _ _ (poll_at-StopsOr watch calm index h) (λ _.
      StopsOr-bind (candidate search expected r) _ _ _ (inl refl) (λ found.
        visit-StopsOr search watch calm k expected h rs (index + 1)
          (keep_hit search.metric k hits found)))

search_visible-StopsOr :
    (search : Search) (watch calm : Watch) (k : ℕ)
    → IsCalm calm
    → (rs : List Record)
    → StopsOr (search_visible search watch k rs) (search_visible search calm k rs)
unfolding search_visible
search_visible-StopsOr search watch calm k h [] = inl refl
search_visible-StopsOr search watch calm k h (r ∷ rs) =
    StopsOr-bind (check_first search (length r.vector)) _ _ _ (inl refl) (λ _.
      StopsOr-bind _ _ _ _ (visit-StopsOr search watch calm k (length r.vector) h (r ∷ rs) 0 [])
        (λ hits.
          StopsOr-bind _ _ _ _ (poll-StopsOr watch calm (2 + (length (r ∷ rs) + 255) / 256) h)
            (λ _. inl refl)))

-- Cancellation and a deadline change nothing but that a search may end in their error: it returns
-- what a search that no check stops returns, or the error of the check that stopped it.
pub exact_search-stops :
    (segments : List Segment) (collection : CollectionId) (search : Search) (top_k : ℕ)
    (watch calm : Watch)
    → IsCalm calm
    → StopsOr
        (exact_search segments collection search top_k watch)
        (exact_search segments collection search top_k calm)
unfolding exact_search
exact_search-stops segments collection search top_k watch calm h =
    StopsOr-bind _ _ _ _ (poll-StopsOr watch calm 0 h) (λ _.
      StopsOr-bind (validate_query search.query top_k) _ _ _ (inl refl) (λ _.
        StopsOr-bind _ _ _ _ (poll-StopsOr watch calm 1 h) (λ _.
          search_visible-StopsOr search watch calm top_k h (visible_values segments collection))))
