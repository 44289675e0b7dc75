-- ===== src/Metrics/Vec.antt =====
-- `Counter`, `CounterVec` and `Histogram` of pkg/metrics/metrics.go, without the mirror of each in the
-- Prometheus client. An int64 is its bit pattern, and a label is a list of bytes.
use go_shortvideo.Prelude.{
  ℕ, zero, suc, ◌+◌, ◌%◌, ◌^◌, none, some, List, [], ◌∷◌, length, leb, map, if◌then◌else◌,
}
use go_shortvideo.Strconv.{codes}
use go_shortvideo.Bytes.{lookup, insert, join}

-- `atomic.Int64.Add`
abbrev pub add64 : ℕ → ℕ → ℕ
add64 a n = (a + n) % 2 ^ 64

pub record CounterVec : Type 0 where
  pub counts : List (List ℕ × ℕ)
  pub labels : List (List ℕ)

unfoldable pub new_counter_vec : List (List ℕ) → CounterVec
new_counter_vec labels = record { counts = []; labels = labels }

abbrev pub or_unknown : List ℕ → List ℕ
or_unknown [] = codes "unknown"
or_unknown (c ∷ s) = c ∷ s

unfoldable pub normalize_labels : List (List ℕ) → ℕ → List (List ℕ)
normalize_labels vals zero = []
normalize_labels [] (suc want) = codes "unknown" ∷ normalize_labels [] want
normalize_labels (v ∷ vals) (suc want) = or_unknown v ∷ normalize_labels vals want

-- `joinLabels`
unfoldable pub join_labels : List (List ℕ) → List ℕ
unfolding join
join_labels vals = join b',' vals

abbrev pub key_of : List (List ℕ) → CounterVec → List ℕ
key_of vals cv = join_labels (normalize_labels vals (length cv.labels))

-- The counter that is handed out is named by its key.
unfoldable pub with_label_values : List (List ℕ) → CounterVec → List ℕ × CounterVec
with_label_values vals cv =
    let key = key_of vals cv in
    elim (lookup key cv.counts) [
      | some c ↦ (key, cv)
      | none ↦ (key, record cv { counts = insert key 0 cv.counts })
    ]

abbrev pub value : List ℕ → CounterVec → ℕ
value key cv = elim (lookup key cv.counts) [ none ↦ 0 | some c ↦ c ]

-- `Counter.Add`
unfoldable pub add : List ℕ → ℕ → CounterVec → CounterVec
add key n cv = record cv { counts = insert key (add64 (value key cv) n) cv.counts }

-- `cv.WithLabelValues(vals...).Add(n)`
unfoldable pub add_at : List (List ℕ) → ℕ → CounterVec → CounterVec
unfolding with_label_values add
add_at vals n cv = let (key, cv') = with_label_values vals cv in add key n cv'

-- `CounterVec.snapshot`
abbrev pub snapshot : CounterVec → List (List ℕ × ℕ)
snapshot cv = cv.counts

-- `buckets` are the bounds in microseconds, with the value of each.
pub record Histogram : Type 0 where
  pub count : ℕ
  pub sum_us : ℕ
  pub buckets : List (ℕ × ℕ)

-- `NewHistogramWithBuckets`
unfoldable pub new_histogram_with_buckets : List ℕ → Histogram
new_histogram_with_buckets bounds = record {
  count = 0;
  sum_us = 0;
  buckets = map (λ b. (b, 0)) bounds;
}

-- The loop of `Observe`.
unfoldable pub fill_buckets : (us : ℕ) → List (ℕ × ℕ) → List (ℕ × ℕ)
fill_buckets us [] = []
fill_buckets us ((bound, n) ∷ rest) =
    (bound, if leb us bound then add64 n 1 else n) ∷ fill_buckets us rest

-- `Observe`, of a time that was converted to microseconds and is not negative.
unfoldable pub observe : (us : ℕ) → Histogram → Histogram
observe us h = record {
  count = add64 h.count 1;
  sum_us = add64 h.sum_us us;
  buckets = fill_buckets us h.buckets;
}

-- `Histogram.Value` and `BucketSnapshot`
abbrev pub histogram_value : Histogram → ℕ × ℕ
histogram_value h = (h.count, h.sum_us)

abbrev pub bucket_snapshot : Histogram → List ℕ × List ℕ
bucket_snapshot h = (map (λ b. b.0) h.buckets, map (λ b. b.1) h.buckets)
