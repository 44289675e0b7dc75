-- ===== src/RateLimit/Window.antt =====
-- `RedisPathLimiter` of pkg/ratelimit/limiter.go: a fixed window of a second, counted by Redis.
use text.Mathlib.Text.{starts_with, ◌==◌ as str_eq}
use go_shortvideo.Prelude.{
  ℕ, ◌+◌, ◌≡◌, ◌≢◌, Bool, true, false, String, Option, none, some, List, [], ◌∷◌, ◌==◌,
  if◌then◌else◌,
}
use go_shortvideo.Prelude.Int.{ℤ, pos, ◌+ℤ◌, leb_ℤ}
use go_shortvideo.RateLimit.Decimal.{format_int}

-- The key `prefix + route + ":" + key + ":" + formatInt(now)`, by what it is made of.
pub record WindowKey : Type 0 where
  pub route : String
  pub client : List ℕ
  pub second : List ℕ

-- The Redis commands that the limiter uses. The life of a key is longer than the second that it
-- stands for, so that `EXPIRE` changes no count that is still asked for.
pub record Counters : Type 1 where
  pub State : Type 0
  pub counter : WindowKey → State → ℕ
  pub incr : WindowKey → State → Option ℕ × State
  pub expire : WindowKey → ℕ → State → State
  pub incr-some :
      (k : WindowKey) (n : ℕ) (s : State)
      → (incr k s).0 ≡ some n
      → (n ≡ counter k s + 1) × (counter k (incr k s).1 ≡ counter k s + 1)
  pub counter-incr : (k j : WindowKey) (s : State) → k ≢ j → counter j (incr k s).1 ≡ counter j s
  pub counter-expire :
      (k j : WindowKey) (life : ℕ) (s : State) → counter j (expire k life s) ≡ counter j s

-- A rule is a rate and a burst.
pub record RedisPathLimiter : Type 0 where
  pub rules : List (String × (ℤ × ℤ))
  pub fallback : ℤ × ℤ
  pub window : ℕ

abbrev pub second_ns : ℕ
second_ns = 1000000000

unfoldable pub new_redis_path_limiter : List (String × (ℤ × ℤ)) → ℤ × ℤ → RedisPathLimiter
new_redis_path_limiter rules fallback = record {
  rules = rules;
  fallback = fallback;
  window = second_ns;
}

unfoldable pub default_path_rules : List (String × (ℤ × ℤ))
default_path_rules =
    ("/api/login", (pos 5, pos 10))
    ∷ ("/api/upload", (pos 10, pos 15))
    ∷ ("/api/videos", (pos 100, pos 200))
    ∷ ("/api/feed", (pos 50, pos 100))
    ∷ ("/api/users", (pos 20, pos 50))
    ∷ []

abbrev pub Rules : Type 0
Rules = List (String × (ℤ × ℤ))

-- The loop of `ruleFor`, over the rules in the order in which it meets them.
unfoldable pub rule_from : Rules → ℤ × ℤ → String → String × (ℤ × ℤ)
rule_from [] fallback path = ("fallback", fallback)
rule_from ((prefix, cfg) ∷ rules) fallback path =
    let rest = rule_from rules fallback path in
    if starts_with path prefix then (prefix, cfg) else rest

-- `order` are the rules of the limiter, in the order in which Go ranges over the map at this call.
unfoldable pub rule_for : (order : Rules) → RedisPathLimiter → String → String × (ℤ × ℤ)
rule_for order pl path = rule_from order pl.fallback path

module _ (redis : Counters) (pl : RedisPathLimiter) where
  -- What `Allow` makes of the answer of `INCR`.
  unfoldable pub after_incr : ℤ → WindowKey → Option ℕ → redis.State → Bool × redis.State
  after_incr limit k none s = (true, s)
  after_incr limit k (some n) s =
      (leb_ℤ (pos n) limit, if n == 1 then redis.expire k (pl.window + second_ns) s else s)

  -- The last part of `Allow`, for a limit that is above 0.
  unfoldable pub count_in : ℤ → WindowKey → redis.State → Bool × redis.State
  count_in limit k s = let (answer, s') = redis.incr k s in after_incr limit k answer s'

  -- The part of `Allow` behind `ruleFor`; `none` is a panic, and `now` is in seconds.
  unfoldable pub allow_by :
      String × (ℤ × ℤ) → (now : ℕ) → List ℕ → redis.State → Option (Bool × redis.State)
  allow_by (route, cfg) now key s =
      let limit = cfg.0 +ℤ cfg.1 in
      if leb_ℤ limit (pos 0) then some (false, s) else elim (format_int (pos now)) [
        | none ↦ none
        | some second ↦
            some (count_in limit (record { route = route; client = key; second = second }) s)
      ]

  unfoldable pub allow :
      (order : Rules) → (now : ℕ) → String → List ℕ → redis.State → Option (Bool × redis.State)
  allow order now path key s = allow_by (rule_for order pl path) now key s

  -- `GinMiddleware`: whether the request goes on, or is answered with 429.
  unfoldable pub middleware :
      (order : Rules)
      → (now : ℕ) → (full_path url_path : String) → List ℕ
      → redis.State
      → Option (Bool × redis.State)
  middleware order now full_path url_path [] s = some (true, s)
  middleware order now full_path url_path (c ∷ key) s =
      allow order now (if str_eq full_path "" then url_path else full_path) (c ∷ key) s
