-- ===== src/Tests/ServerRuns.antt =====
-- The metrics, the audit log, the headers of answers and the settings, on sample requests.
use go_shortvideo.Prelude.{ℕ, ◌≡◌, ◌-◌, ◌%◌, ◌^◌, refl, true, false, none, some, List, [], ◌∷◌}
use go_shortvideo.Prelude.Int.{negsuc}
use go_shortvideo.Strconv.{codes, itoa, parse_int_value}
use go_shortvideo.Bytes.{same, insert, trim_right}
use go_shortvideo.Metrics.Vec.{
  key_of, value, observe, fill_buckets, new_histogram_with_buckets, bucket_snapshot,
}
use go_shortvideo.Metrics.Http.{Served, new_metrics, route_from_request}
use go_shortvideo.Metrics.Counting.{serve_all, value-serve_all}
use go_shortvideo.Security.Cors.{
  cors_middleware, default_cors, permissive_cors, set_header, abort, next,
}
use go_shortvideo.Audit.{should_audit}
use go_shortvideo.Server.Settings.{
  defaults, validate_production_config, weak_secret, ready_check, redis_stream_without_redis,
  oss_down,
}

abbrev get_videos : ℕ → ℕ → Served
get_videos status micros = record {
  method = codes "GET";
  full_path = codes "/api/videos";
  url_path = some (codes "/api/videos");
  status = status;
  micros = micros;
}

abbrev traffic : List Served
traffic = get_videos 200 1500 ∷ get_videos 500 90 ∷ get_videos 200 700 ∷ []

value-serve_all_example :
    let m = serve_all traffic new_metrics in
    (value
        (key_of (codes "GET" ∷ codes "/api/videos" ∷ itoa 200 ∷ []) m.http_requests)
        m.http_requests
      ≡ 2 % 2 ^ 64)
    × (value (key_of (codes "GET" ∷ codes "/api/videos" ∷ []) m.http_duration) m.http_duration
        ≡ 2290 % 2 ^ 64)
unfolding same
value-serve_all_example =
    value-serve_all (codes "GET") (codes "/api/videos") refl 200 traffic (refl, (refl, (refl, tt)))

-- The root is counted under an empty label, which the vector calls `unknown`.
root_route : route_from_request (some (codes "/")) ≡ []
unfolding route_from_request trim_right
root_route = refl

slow_bucket :
    bucket_snapshot (observe 7000 (observe 400 (new_histogram_with_buckets (500 ∷ 10000 ∷ []))))
    ≡ (500 ∷ 10000 ∷ [], 1 ∷ 2 ∷ [])
unfolding observe fill_buckets new_histogram_with_buckets
slow_bucket = refl

preflight_refused :
    cors_middleware default_cors (codes "https://a.example") (codes "OPTIONS") []
    ≡ some (abort 403, [])
unfolding cors_middleware default_cors same
preflight_refused = refl

anyone_allowed :
    cors_middleware permissive_cors (codes "https://a.example") (codes "GET") []
    ≡ some (next, (codes "Access-Control-Allow-Origin", codes "*") ∷ [])
unfolding cors_middleware permissive_cors same insert set_header
anyone_allowed = refl

likes_are_audited : should_audit (codes "POST") (codes "/api/videos/:id/like") ≡ true
unfolding should_audit same
likes_are_audited = refl

reads_are_not : should_audit (codes "GET") (codes "/api/videos/:id") ≡ false
unfolding should_audit same
reads_are_not = refl

out_of_range : parse_int_value (codes "-99999999999999999999") ≡ negsuc (2 ^ 63 - 1)
unfolding parse_int_value
out_of_range = refl

defaults_refused : validate_production_config defaults ≡ some weak_secret
unfolding validate_production_config defaults
defaults_refused = refl

not_ready :
    ready_check (some true) none (some false) true "redis_stream" true
    ≡ redis_stream_without_redis ∷ oss_down ∷ []
unfolding ready_check
not_ready = refl
