-- ===== src/RateLimit/Buckets.antt =====
-- The limiters of one process in pkg/ratelimit/limiter.go: `Limiter`, with a token bucket for each
-- key, and `PathLimiter`, with a limiter for each prefix of a path. Times are nanoseconds.
use text.Mathlib.Text.{starts_with, ◌==◌ as str_eq}
use go_shortvideo.Prelude.{
  ℕ, ◌-◌, ◌*◌, Bool, true, false, not, String, Option, none, some, List, [], ◌∷◌, map, ltb, keep,
  if◌then◌else◌,
}
use go_shortvideo.Prelude.Int.{ℤ}
use go_shortvideo.TextDict.{lookup, insert}

-- `rate.Limiter` of golang.org/x/time/rate: a state, how it begins, and what `Allow` does to it at
-- a time.
pub record TokenBucket : Type 1 where
  pub Bucket : Type 0
  pub Limit : Type 0
  pub of_int : ℤ → Limit
  pub new_limiter : Limit → ℤ → Bucket
  pub allow : (now : ℕ) → Bucket → Bool × Bucket

module _ (tokens : TokenBucket) where
  pub record Visitor : Type 0 where
    pub limiter : tokens.Bucket
    pub last_seen : ℕ

  pub record Limiter : Type 0 where
    pub visitors : List (String × Visitor)
    pub rate : tokens.Limit
    pub burst : ℤ
    pub ttl : ℕ

  -- `New`, with five minutes to live
  unfoldable pub new : tokens.Limit → ℤ → Limiter
  new r burst = record { visitors = []; rate = r; burst = burst; ttl = 5 * 60 * 1000000000 }

  unfoldable pub get_limiter : (now : ℕ) → String → Limiter → tokens.Bucket × Limiter
  get_limiter now key l = elim (lookup key l.visitors) [
    | none ↦
        let lim = tokens.new_limiter l.rate l.burst in
        let v : Visitor = record { limiter = lim; last_seen = now } in
        (lim, record l { visitors = insert key v l.visitors })
    | some v ↦
        let seen : Visitor = record { limiter = v.limiter; last_seen = now } in
        (v.limiter, record l { visitors = insert key seen l.visitors })
  ]

  -- `Allow` of the bucket changes it in place, so it is written back.
  unfoldable pub allow : (now : ℕ) → String → Limiter → Bool × Limiter
  allow now key l =
      let (lim, l') = get_limiter now key l in
      let (ok, lim') = tokens.allow now lim in
      let v : Visitor = record { limiter = lim'; last_seen = now } in
      (ok, record l' { visitors = insert key v l'.visitors })

  unfoldable pub cleanup : (now : ℕ) → Limiter → Limiter
  cleanup now l = record l {
    visitors = keep (λ e. not (ltb l.ttl (now - e.1.last_seen))) l.visitors;
  }

  pub record PathLimiter : Type 0 where
    pub limiters : List (String × Limiter)
    pub fallback : Option Limiter

  unfoldable pub new_path_limiter : List (String × (ℤ × ℤ)) → Option Limiter → PathLimiter
  new_path_limiter rules fallback = record {
    limiters = map (λ r. (r.0, new (tokens.of_int r.1.0) r.1.1)) rules;
    fallback = fallback;
  }

  -- The loop over the prefixes: the limiter that was asked is written back in its place.
  unfoldable pub allow_first :
      (now : ℕ)
      → (path key : String) → List (String × Limiter)
      → Option (Bool × List (String × Limiter))
  allow_first now path key [] = none
  allow_first now path key ((prefix, lim) ∷ rest) = elim (starts_with path prefix) [
    | true ↦ let (ok, lim') = allow now key lim in some (ok, (prefix, lim') ∷ rest)
    | false ↦ elim (allow_first now path key rest) [
      | none ↦ none
      | some (ok, rest') ↦ some (ok, (prefix, lim) ∷ rest')
    ]
  ]

  unfoldable pub allow_path : (now : ℕ) → (path key : String) → PathLimiter → Bool × PathLimiter
  allow_path now path key pl = elim (allow_first now path key pl.limiters) [
    | some (ok, limiters) ↦ (ok, record pl { limiters = limiters })
    | none ↦ elim pl.fallback [
      | none ↦ (true, pl)
      | some lim ↦ let (ok, lim') = allow now key lim in (ok, record pl { fallback = some lim' })
    ]
  ]

  unfoldable pub cleanup_path : (now : ℕ) → PathLimiter → PathLimiter
  cleanup_path now pl = record {
    limiters = map (λ e. (e.0, cleanup now e.1)) pl.limiters;
    fallback = elim pl.fallback [ none ↦ none | some lim ↦ some (cleanup now lim) ];
  }

  -- `Middleware` and `GinMiddleware`: whether the request goes on, or is answered with 429.
  unfoldable pub middleware : (now : ℕ) → (path key : String) → PathLimiter → Bool × PathLimiter
  middleware now path key pl = if str_eq key "" then (true, pl) else allow_path now path key pl
