-- ===== src/Metrics/Counting.antt =====
-- The counters of requests under any traffic.
use go_shortvideo.Prelude.{
  ℕ, ◌+◌, ◌%◌, ◌^◌, ◌≡◌, ◌<◌, refl, ap, ◌∙◌, Bool, true, ◌&&◌, List, [], ◌∷◌, ◌==◌, if◌then◌else◌,
  arith, All, length,
}
use go_shortvideo.Strconv.{codes, itoa}
use go_shortvideo.Bytes.{same, lookup, lacks}
use go_shortvideo.Metrics.Vec.{add64, key_of, value}
use go_shortvideo.Metrics.Http.{
  Metrics, new_metrics, Served, or_else, route_of, record_latency, gin_middleware,
}
use go_shortvideo.Metrics.Keys.{
  value-add_at, labels-add_at, latency_key, request_key, key_of-three, key_of-two, on_route,
  same-latency_key, same-request_key,
}

unfoldable pub serve_all : List Served → Metrics → Metrics
serve_all [] m = m
serve_all (r ∷ rs) m = serve_all rs (gin_middleware r m)

labels-gin_middleware :
    (r : Served) (m : Metrics)
    → ((gin_middleware r m).http_requests.labels ≡ m.http_requests.labels)
      × ((gin_middleware r m).http_duration.labels ≡ m.http_duration.labels)
unfolding gin_middleware record_latency
labels-gin_middleware r m =
    let cv = m.http_duration in
    let route = route_of r in
    (
      labels-add_at (r.method ∷ route ∷ itoa r.status ∷ []) 1 m.http_requests,
      ground (
        arith,
        labels-add_at [] r.micros cv,
        labels-add_at (or_else (or_else route r.method) (codes "latency") ∷ []) r.micros cv,
        labels-add_at (r.method ∷ route ∷ []) r.micros cv,
      ),
    )

labels-serve_all :
    (rs : List Served) (m : Metrics)
    → ((serve_all rs m).http_requests.labels ≡ m.http_requests.labels)
      × ((serve_all rs m).http_duration.labels ≡ m.http_duration.labels)
unfolding serve_all
labels-serve_all [] m = (refl, refl)
labels-serve_all (r ∷ rs) m =
    let (a, b) = labels-gin_middleware r m in
    let (c, d) = labels-serve_all rs (gin_middleware r m) in (c ∙ a, d ∙ b)

module _ (method route : List ℕ) (plain : lacks b',' method ≡ true) where
  request_at : ℕ → Metrics → ℕ
  request_at status m = value (request_key method route status) m.http_requests

  latency_at : Metrics → ℕ
  latency_at m = value (latency_key method route) m.http_duration

  -- The number of answers with a status, and the time that they and the others took.
  abbrev pub answered : ℕ → List Served → ℕ
  answered status [] = 0
  answered status (r ∷ rs) =
      (if on_route method route plain r && r.status == status then 1 else 0) + answered status rs

  abbrev pub time_of : List Served → ℕ
  time_of [] = 0
  time_of (r ∷ rs) = (if on_route method route plain r then r.micros else 0) + time_of rs

  request_at-gin_middleware :
      (status : ℕ) (r : Served) (m : Metrics)
      → length m.http_requests.labels ≡ 3
      → lacks b',' r.method ≡ true
      → request_at status (gin_middleware r m) ≡ (
          if on_route method route plain r && r.status == status
          then add64 (request_at status m) 1
          else request_at status m)
  unfolding request_at gin_middleware
  request_at-gin_middleware status r m three h =
      let cv = m.http_requests in
      value-add_at (r.method ∷ route_of r ∷ itoa r.status ∷ []) 1 (request_key method route status)
        cv
      ∙ ap
          (λ (k : List ℕ).
            if same k (request_key method route status)
            then add64 (request_at status m) 1
            else request_at status m)
          (key_of-three r.method (route_of r) r.status cv three)
      ∙ ap (λ (b : Bool). if b then add64 (request_at status m) 1 else request_at status m)
          (same-request_key method route plain r status h)

  latency_at-gin_middleware :
      (r : Served) (m : Metrics)
      → length m.http_duration.labels ≡ 2
      → lacks b',' r.method ≡ true
      → latency_at (gin_middleware r m)
        ≡ (if on_route method route plain r then add64 (latency_at m) r.micros else latency_at m)
  unfolding latency_at gin_middleware record_latency
  latency_at-gin_middleware r m two h =
      let cv = m.http_duration in
      rw (two, record_latency)
        (value-add_at (r.method ∷ route_of r ∷ []) r.micros (latency_key method route) cv
          ∙ ap
              (λ (k : List ℕ).
                if same k (latency_key method route)
                then add64 (latency_at m) r.micros
                else latency_at m)
              (key_of-two r.method (route_of r) cv two)
          ∙ ap (λ (b : Bool). if b then add64 (latency_at m) r.micros else latency_at m)
              (same-latency_key method route plain r h))

  -- Both values after further requests, of vectors with three and with two labels.
  counted-serve_all :
      (status : ℕ) (rs : List Served) (m : Metrics)
      → length m.http_requests.labels ≡ 3
      → length m.http_duration.labels ≡ 2
      → request_at status m < 2 ^ 64
      → latency_at m < 2 ^ 64
      → All (λ r. lacks b',' r.method ≡ true) rs
      → (request_at status (serve_all rs m) ≡ (request_at status m + answered status rs) % 2 ^ 64)
        × (latency_at (serve_all rs m) ≡ (latency_at m + time_of rs) % 2 ^ 64)
  unfolding serve_all
  counted-serve_all status [] m three two a b h = (omega arith, omega arith)
  counted-serve_all status (r ∷ rs) m three two a b (h, hs) =
      let m' = gin_middleware r m in
      let (keep3, keep2) = labels-gin_middleware r m in
      let req = request_at-gin_middleware status r m three h in
      let lat = latency_at-gin_middleware r m two h in
      let ih =
        counted-serve_all status rs m' (ap length keep3 ∙ three) (ap length keep2 ∙ two)
          (ground arith) (ground arith) hs in
      (ground arith, ground arith)

-- In the metrics of a server, after any requests whose methods hold no comma: the counter of a
-- method, a route and a status is the number of requests that were answered so, modulo 2^64, and the
-- latency of a method and a route is the time that these took, modulo 2^64. A method or a route that
-- is empty counts as `unknown`.
pub value-serve_all :
    (method route : List ℕ) (plain : lacks b',' method ≡ true) (status : ℕ) (rs : List Served)
    → All (λ r. lacks b',' r.method ≡ true) rs
    → let m = serve_all rs new_metrics in
      (value (key_of (method ∷ route ∷ itoa status ∷ []) m.http_requests) m.http_requests
        ≡ answered method route plain status rs % 2 ^ 64)
      × (value (key_of (method ∷ route ∷ []) m.http_duration) m.http_duration
          ≡ time_of method route plain rs % 2 ^ 64)
unfolding new_metrics request_at latency_at lookup
value-serve_all method route plain status rs h =
    let m = serve_all rs new_metrics in
    let (three, two) = labels-serve_all rs new_metrics in
    let (requests, latency) =
      counted-serve_all method route plain status rs new_metrics refl refl (omega arith)
        (omega arith) h in
    (
      ap (λ (k : List ℕ). value k m.http_requests)
            (key_of-three method route status m.http_requests (ap length three))
          ∙ omega (arith, requests),
      ap (λ (k : List ℕ). value k m.http_duration)
            (key_of-two method route m.http_duration (ap length two))
          ∙ omega (arith, latency),
    )
