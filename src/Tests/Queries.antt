-- ===== src/Tests/Queries.antt =====
-- A collection of two records, and queries of it.
use ketebe_oss.Base.{true, ◌+◌, ◌*◌, ◌-◌, ◌/◌, none, List, [], ◌∷◌}
use ketebe_oss.Core.Values.{Record, unsigned, empty, entry, bool}
use ketebe_oss.Predicate.Evaluate.{Predicate, exists}
use ketebe_oss.Segment.Build.{Segment}
use ketebe_oss.Search.Score.{Arithmetic, dot_product, SearchHit}
use ketebe_oss.Search.Exact.{Watch, Search}
use ketebe_oss.Search.Control.{unbounded}
use ketebe_oss.Tests.Samples.{docs, key}

-- Whole numbers in place of floating-point ones.
abbrev pub whole_numbers : Arithmetic
whole_numbers = record {
  add = λ a b. a + b;
  sub = λ a b. a - b;
  mul = λ a b. a * b;
  div = λ a b. a / b;
  sqrt = λ a. a;
  sum_start = 0;
}

abbrev pub plain_record : Record
plain_record = record { id = unsigned 1; vector = 2 ∷ []; metadata = empty; sequence_number = 1 }

abbrev pub marked_record : Record
marked_record = record {
  id = unsigned 2;
  vector = 5 ∷ [];
  metadata = entry key (bool true) empty;
  sequence_number = 2;
}

abbrev pub two_records : List Segment
two_records =
    record {
      id = 1;
      collection_id = docs;
      min_sequence = 1;
      max_sequence = 2;
      records = plain_record ∷ marked_record ∷ [];
      tombstones = [];
    }
    ∷ []

abbrev pub best_hit : SearchHit
best_hit = record { hit = marked_record; hit_score = 15 }

abbrev pub other_hit : SearchHit
other_hit = record { hit = plain_record; hit_score = 6 }

abbrev pub by_dot : Search
by_dot = record {
  arithmetic = whole_numbers;
  query = 3 ∷ [];
  metric = dot_product;
  filter = none;
  after = none;
}

-- A field that one of the records has.
abbrev pub marked : Predicate
marked = exists (key, [])

-- A watch that is cancelled at every check.
abbrev pub cancelled_watch : Watch
cancelled_watch = record {
  control = unbounded;
  moments = λ n. record { is_cancelled = true; now = n };
}
