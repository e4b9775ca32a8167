-- ===== src/Search/Keeping.antt =====
-- The loop that keeps the hits that match a predicate.
use ketebe_oss.Base.{
  ℕ, suc, zero, ◌+◌, ◌/◌, ◌≡◌, sym, ap, ◌∙◌, inl, inr, Bool, true, false, Bool-cases, List, [], ◌∷◌,
  ◌++◌, length, take, All, append_assoc, append-nil, length-append, ◌==◌, if◌then◌else◌, arith,
}
use ketebe_oss.Base.Result.{Result, ok, err}
use ketebe_oss.Predicate.Evaluate.{Predicate, evaluate}
use ketebe_oss.Search.Control.{QueryControlError, check}
use ketebe_oss.Search.Score.{SearchHit}
use ketebe_oss.Search.Pages.{filter_by}
use ketebe_oss.Search.Exact.{Watch}
use ketebe_oss.Search.Filtered.{FilteredSearchError, poll_every, keep_matching}

-- No check of a loop stops it.
abbrev pub IsCalmFrom : Watch → Type 0
IsCalmFrom watch = (n : ℕ) → check watch.control (watch.moments n) ≡ ok tt

-- Whether a predicate holds of a hit; an error counts as no.
abbrev pub admits : Predicate → SearchHit → Bool
admits p h = elim (evaluate p h.hit.metadata) [ ok b ↦ b | err e ↦ false ]

abbrev pub Decides : Predicate → SearchHit → Type 0
Decides p h = evaluate p h.hit.metadata ≡ ok (admits p h)

poll_every-calm :
    (period : ℕ) (watch : Watch) (index : ℕ)
    → IsCalmFrom watch
    → poll_every period watch index ≡ ok tt
unfolding poll_every
poll_every-calm period watch index calm = ground (arith, calm (index / period))

full_or_more :
    (k m : ℕ) (kept : List SearchHit) (h : SearchHit) (l : List SearchHit)
    (rest : Result FilteredSearchError (List SearchHit))
    → k ≡ length kept + suc m
    → ((n : ℕ)
        → k ≡ length (kept ++ h ∷ []) + suc n
        → rest ≡ ok ((kept ++ h ∷ []) ++ take (suc n) l))
    → (if length (kept ++ h ∷ []) == k then ok (kept ++ h ∷ []) else rest)
      ≡ ok (kept ++ h ∷ take m l)
full_or_more k zero kept h l rest e more =
    let full : (length (kept ++ h ∷ []) == k) ≡ true =
      ground (arith, length-append kept (h ∷ []), e) in
    rw full
full_or_more k (suc n) kept h l rest e more =
    let room : (length (kept ++ h ∷ []) == k) ≡ false =
      ground (arith, length-append kept (h ∷ []), e) in
    rw room (
      more n (omega (arith, length-append kept (h ∷ []), e))
      ∙ ap ok (append_assoc kept (h ∷ []) (take (suc n) l)))

module _ (stopped : QueryControlError → FilteredSearchError) (period : ℕ) (p : Predicate)
    (watch : Watch) (calm : IsCalmFrom watch) where
  pub keep_matching-take :
      (k m index : ℕ) (kept hs : List SearchHit)
      → All (Decides p) hs
      → k ≡ length kept + suc m
      → keep_matching stopped period p k watch index kept hs
        ≡ ok (kept ++ take (suc m) (filter_by (admits p) hs))
  unfolding keep_matching filter_by
  keep_matching-take k m index kept [] d e = ap ok (sym (append-nil kept))
  keep_matching-take k m index kept (h ∷ hs) d e = elim (Bool-cases (admits p h)) [
    | inr out ↦
        rw (poll_every-calm period watch index calm, d.0, out, filter_by)
          (keep_matching-take k m (index + 1) kept hs d.1 e)
    | inl kept_too ↦
        rw (poll_every-calm period watch index calm, d.0, kept_too, filter_by)
          (full_or_more k m kept h _ _ e
            (λ n later. keep_matching-take k n (index + 1) (kept ++ h ∷ []) hs d.1 later))
  ]
