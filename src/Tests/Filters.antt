-- ===== src/Tests/Filters.antt =====
-- Filters of the sample metadata.
use ketebe_oss.Base.{◌≡◌, refl, true, [], ◌∷◌}
use ketebe_oss.Base.Order.{compare_bytes}
use ketebe_oss.Core.Values.{bool, number, text}
use ketebe_oss.Predicate.Evaluate.{
  FieldPath, Predicates, eq, ne, lt, gt, gte, lte, and, or, negation, also, no_more, resolve,
  evaluate,
}
use ketebe_oss.Predicate.Duality.{negations, evaluate-not_and, evaluate-not_present}
use ketebe_oss.Tests.Samples.{docs, key, sample_metadata}

abbrev nested_path : FieldPath
nested_path = (b'a' ∷ [], key ∷ [])

-- The second comparison is an error: a text against a number.
abbrev sample_filters : Predicates
sample_filters = also (eq nested_path (bool true)) (also (lt (key, []) (number 0)) no_more)

evaluate-not_and_example :
    evaluate (negation (and sample_filters)) sample_metadata
    ≡ evaluate (or (negations sample_filters)) sample_metadata
evaluate-not_and_example = evaluate-not_and sample_filters sample_metadata

evaluate-not_present_example :
    (evaluate (negation (eq nested_path (text docs))) sample_metadata
      ≡ evaluate (ne nested_path (text docs)) sample_metadata)
    × (evaluate (negation (gte nested_path (text docs))) sample_metadata
        ≡ evaluate (lt nested_path (text docs)) sample_metadata)
    × (evaluate (negation (lte nested_path (text docs))) sample_metadata
        ≡ evaluate (gt nested_path (text docs)) sample_metadata)
unfolding resolve compare_bytes
evaluate-not_present_example =
    evaluate-not_present nested_path (text docs) (bool true) sample_metadata refl
