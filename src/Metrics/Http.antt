-- ===== src/Metrics/Http.antt =====
-- The vectors of pkg/metrics/metrics.go and its middlewares, which count the requests and their
-- latency.
use go_shortvideo.Prelude.{ℕ, zero, suc, Option, none, some, List, [], ◌∷◌, length}
use go_shortvideo.Strconv.{codes, itoa}
use go_shortvideo.Bytes.{trim_right}
use go_shortvideo.Metrics.Vec.{
  CounterVec, new_counter_vec, add_at, Histogram, new_histogram_with_buckets,
}

-- The package variables.
pub record Metrics : Type 0 where
  pub http_requests : CounterVec
  pub http_duration : CounterVec
  pub like_ops : CounterVec
  pub fanout_ops : CounterVec
  pub feed_merge_ops : CounterVec
  pub fanout_histogram : Histogram
  pub feed_merge_histogram : Histogram
  pub db_errors : CounterVec

unfoldable pub new_metrics : Metrics
unfolding new_counter_vec new_histogram_with_buckets
new_metrics = record {
  http_requests = new_counter_vec (codes "method" ∷ codes "route" ∷ codes "status" ∷ []);
  http_duration = new_counter_vec (codes "method" ∷ codes "route" ∷ []);
  like_ops = new_counter_vec (codes "action" ∷ codes "source" ∷ []);
  fanout_ops = new_counter_vec (codes "status" ∷ []);
  feed_merge_ops = new_counter_vec [];
  fanout_histogram =
      new_histogram_with_buckets (10000 ∷ 50000 ∷ 100000 ∷ 500000 ∷ 1000000 ∷ 5000000 ∷ []);
  feed_merge_histogram =
      new_histogram_with_buckets (1000 ∷ 5000 ∷ 10000 ∷ 50000 ∷ 100000 ∷ 500000 ∷ []);
  db_errors = new_counter_vec (codes "operation" ∷ []);
}

abbrev pub or_else : List ℕ → List ℕ → List ℕ
or_else [] s = s
or_else (c ∷ t) s = c ∷ t

-- `RecordLatency`
unfoldable pub record_latency : CounterVec → (method route : List ℕ) → (micros : ℕ) → CounterVec
record_latency cv method route micros = elim (length cv.labels) [
  | zero ↦ add_at [] micros cv
  | suc n ↦ elim n [
    | zero ↦ add_at (or_else (or_else route method) (codes "latency") ∷ []) micros cv
    | suc m ↦ add_at (method ∷ route ∷ []) micros cv
  ]
]

-- `routeFromRequest`: `none` stands for a request without a URL.
unfoldable pub route_from_request : Option (List ℕ) → List ℕ
route_from_request none = codes "unknown"
route_from_request (some []) = codes "/"
route_from_request (some (c ∷ path)) = trim_right b'/' (c ∷ path)

-- A request that was answered: `full_path` is the pattern of its route, or empty, and `micros` the
-- time that it took.
pub record Served : Type 0 where
  pub method : List ℕ
  pub full_path : List ℕ
  pub url_path : Option (List ℕ)
  pub status : ℕ
  pub micros : ℕ

unfoldable pub count_request : List ℕ → Served → Metrics → Metrics
count_request route r m = record m {
  http_requests = add_at (r.method ∷ route ∷ itoa r.status ∷ []) 1 m.http_requests;
  http_duration = record_latency m.http_duration r.method route r.micros;
}

abbrev pub route_of : Served → List ℕ
route_of r = or_else r.full_path (route_from_request r.url_path)

-- What `GinMiddleware` does after the handlers.
unfoldable pub gin_middleware : Served → Metrics → Metrics
unfolding count_request
gin_middleware r m = count_request (route_of r) r m

-- `WriteHeader` of `statusWriter`: the status is the last that was written, or 200.
unfoldable pub written_status : List ℕ → ℕ → ℕ
written_status [] status = status
written_status (code ∷ later) status = written_status later code

-- What `Middleware` does after the handler, which wrote the headers `written`.
unfoldable pub middleware : (written : List ℕ) → Served → Metrics → Metrics
unfolding count_request written_status
middleware written r m =
    count_request (route_from_request r.url_path) (record r { status = written_status written 200 })
      m
