-- ===== src/Search/Narrowing.antt =====
-- The candidates of a search with a predicate, among those of the search without it.
use ketebe_oss.Base.{
  ℕ, ◌≡◌, refl, sym, ap, ◌∙◌, subst, inl, inr, Bool, true, false, Bool-cases, Option, none, some,
  List, [], ◌∷◌, length, All, ◌==◌, if◌then◌else◌, arith,
}
use ketebe_oss.Base.Result.{ok, Result-cases, >>=-eq-ok, ok_injective}
use ketebe_oss.Core.Values.{Record}
use ketebe_oss.Predicate.Evaluate.{Predicate, evaluate}
use ketebe_oss.Search.Score.{SearchHit, score}
use ketebe_oss.Search.Pages.{filter_by}
use ketebe_oss.Search.Exact.{Search, passes, candidate, is_after}
use ketebe_oss.Search.Ranked.{with_hit, candidates}
use ketebe_oss.Search.Keeping.{admits, Decides}

abbrev pub with_filter : Search → Option Predicate → Search
with_filter search p = record {
  arithmetic = search.arithmetic;
  query = search.query;
  metric = search.metric;
  filter = p;
  after = search.after;
}

-- What the candidate of a record is without and with a predicate that decides it.
abbrev Narrows : Predicate → Option SearchHit → Option SearchHit → Type 0
Narrows p none kept = kept ≡ none
Narrows p (some h) kept = (kept ≡ (if admits p h then some h else none)) × Decides p h

Decides-ok :
    (p : Predicate) (h : SearchHit) (b : Bool)
    → evaluate p h.hit.metadata ≡ ok b
    → (admits p h ≡ b) × Decides p h
Decides-ok p h b e = let same : admits p h ≡ b = rw (e, admits) in (same, e ∙ ap ok (sym same))

module _ (search : Search) (p : Predicate) where
  narrow_one :
      (r : Record) (n : ℕ) (b behind : Bool) (found kept : Option SearchHit)
      → evaluate p r.metadata ≡ ok b
      → found ≡ (if behind then some (record { hit = r; hit_score = n }) else none)
      → kept ≡ (if b then found else none)
      → Narrows p found kept
  narrow_one r n b true found kept e f k =
      let h : SearchHit = record { hit = r; hit_score = n } in
      let (same, decided) = Decides-ok p h b e in
      subst (λ x. Narrows p x kept) (sym f) (k ∙ (rw (same, f)), decided)
  narrow_one r n b false found kept e f k =
      subst (λ x. Narrows p x kept) (sym f) (ground (arith, k, f))

  candidate-Narrows :
      (expected : ℕ) (r : Record) (found kept : Option SearchHit)
      → candidate (with_filter search none) expected r ≡ ok found
      → candidate (with_filter search (some p)) expected r ≡ ok kept
      → Narrows p found kept
  unfolding candidate passes
  candidate-Narrows expected r found kept h n = elim (Bool-cases (length r.vector == expected)) [
    | inr other ↦ absurd (ground (arith, h, other))
    | inl same ↦ elim (Result-cases (evaluate p r.metadata)) [
      | inr (e, failed) ↦ absurd (ground (arith, n, same, failed))
      | inl (b, decided) ↦
          elim (Result-cases (score search.arithmetic search.query r.vector search.metric)) [
            | inr (e, failed) ↦ absurd (ground (arith, h, same, failed))
            | inl (s, scored) ↦
                narrow_one r s b (is_after search.metric search.after s r.id) found kept decided
                  (ground (arith, h, same, scored)) (ground (arith, h, n, same, scored, decided))
          ]
    ]
  ]

  with_hit-Narrows :
      (found kept : Option SearchHit) (rest others : List SearchHit)
      → Narrows p found kept
      → (others ≡ filter_by (admits p) rest) × All (Decides p) rest
      → (with_hit kept others ≡ filter_by (admits p) (with_hit found rest))
        × All (Decides p) (with_hit found rest)
  unfolding filter_by
  with_hit-Narrows none kept rest others c (same, d) = ((rw (c) same), d)
  with_hit-Narrows (some h) kept rest others (c, e) (same, d) = elim (Bool-cases (admits p h)) [
    | inl within ↦ ((rw (c, within) (ap (◌∷◌ h) same)), (e, d))
    | inr out ↦ ((rw (c, out) same), (e, d))
  ]

  pub candidates-Narrows :
      (expected : ℕ) (rs : List Record) (all kept : List SearchHit)
      → candidates (with_filter search none) expected rs ≡ ok all
      → candidates (with_filter search (some p)) expected rs ≡ ok kept
      → (kept ≡ filter_by (admits p) all) × All (Decides p) all
  unfolding candidates filter_by
  candidates-Narrows expected [] [] [] h n = (refl, tt)
  candidates-Narrows expected [] (x ∷ all) kept h n = absurd (ground (arith, h))
  candidates-Narrows expected [] [] (x ∷ kept) h n = absurd (ground (arith, n))
  candidates-Narrows expected (r ∷ rs) all kept h n =
      let (found, met, later) = >>=-eq-ok (candidate (with_filter search none) expected r) _ h in
      let (rest, others, done) =
        >>=-eq-ok (candidates (with_filter search none) expected rs) _ later in
      let (found', met', later') =
        >>=-eq-ok (candidate (with_filter search (some p)) expected r) _ n in
      let (rest', others', done') =
        >>=-eq-ok (candidates (with_filter search (some p)) expected rs) _ later' in
      let here = candidate-Narrows expected r found found' met met' in
      let whole : with_hit found rest ≡ all = ok_injective done in
      let whole' : with_hit found' rest' ≡ kept = ok_injective done' in
      let result =
        with_hit-Narrows found found' rest rest' here
          (candidates-Narrows expected rs rest rest' others others') in
      (
        sym whole' ∙ result.0 ∙ ap (filter_by (admits p)) whole,
        subst (All (Decides p)) whole result.1,
      )
