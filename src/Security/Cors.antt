-- ===== src/Security/Cors.antt =====
-- `CORSMiddleware`, `SecureHeaders` and the helpers of pkg/security/middleware.go.
use go_shortvideo.Prelude.{
  ℕ, zero, suc, ◌+◌, ◌/◌, ◌%◌, Bool, true, false, ◌&&◌, ◌||◌, not, Option, none, some, List, [],
  ◌∷◌, ◌++◌, ◌==◌, if◌then◌else◌,
}
use go_shortvideo.Prelude.Int.{ℤ, pos, negsuc}
use go_shortvideo.Strconv.{codes}
use go_shortvideo.Bytes.{same, insert, delete}

-- The times of `CORSConfig` are in seconds, as `MaxAge.Seconds()` gives them.
pub record CorsConfig : Type 0 where
  pub allow_origins : List (List ℕ)
  pub allow_methods : List (List ℕ)
  pub allow_headers : List (List ℕ)
  pub expose_headers : List (List ℕ)
  pub allow_credentials : Bool
  pub max_age : ℤ

unfoldable pub default_cors : CorsConfig
default_cors = record {
  allow_origins = [];
  allow_methods = codes "GET" ∷ codes "POST" ∷ codes "PUT" ∷ codes "DELETE" ∷ codes "OPTIONS" ∷ [];
  allow_headers =
      codes "Origin"
      ∷ codes "Content-Type"
      ∷ codes "Authorization"
      ∷ codes "X-User-Id"
      ∷ codes "X-Requested-With"
      ∷ [];
  expose_headers = codes "Content-Length" ∷ codes "X-Request-Id" ∷ [];
  allow_credentials = true;
  max_age = pos 43200;
}

unfoldable pub permissive_cors : CorsConfig
permissive_cors = record {
  allow_origins = codes "*" ∷ [];
  allow_methods =
      codes "GET"
      ∷ codes "POST"
      ∷ codes "PUT"
      ∷ codes "DELETE"
      ∷ codes "OPTIONS"
      ∷ codes "PATCH"
      ∷ [];
  allow_headers = codes "*" ∷ [];
  expose_headers = [];
  allow_credentials = false;
  max_age = pos 43200;
}

-- The headers of an answer, by name.
abbrev pub Headers : Type 0
Headers = List (List ℕ × List ℕ)

-- `c.Header` of gin, which removes a header that is set to the empty text.
unfoldable pub set_header : (name value : List ℕ) → Headers → Headers
set_header name [] h = delete name h
set_header name (c ∷ value) h = insert name (c ∷ value) h

-- What a middleware does: it ends the request with a status, or calls the next handler.
pub data Verdict : Type 0 where
  abort : ℕ → Verdict
  next : Verdict

-- The loop over the allowed origins.
unfoldable pub origin_allowed : (origin : List ℕ) → List (List ℕ) → Bool
origin_allowed origin [] = false
origin_allowed origin (o ∷ os) = same o (codes "*") || same o origin || origin_allowed origin os

-- `len(cfg.AllowOrigins) == 1 && cfg.AllowOrigins[0] == "*"`
abbrev pub allows_all : List (List ℕ) → Bool
allows_all [] = false
allows_all (o ∷ []) = same o (codes "*")
allows_all (o ∷ p ∷ os) = false

abbrev pub is_empty : List ℕ → Bool
is_empty [] = true
is_empty (c ∷ s) = false

-- `join`: the loop over what follows the first text
unfoldable pub join_rest : List (List ℕ) → List ℕ
join_rest [] = []
join_rest (s ∷ ss) = codes ", " ++ s ++ join_rest ss

unfoldable pub join : List (List ℕ) → List ℕ
unfolding join_rest
join [] = []
join (s ∷ ss) = s ++ join_rest ss

-- The loop of `itoa`: `room` bytes of the buffer are left, and `none` is an index out of range.
unfoldable pub itoa_from : (room n : ℕ) → List ℕ → Option (List ℕ)
itoa_from zero n buf = if n == 0 then some buf else none
itoa_from (suc room) n buf =
    let rest = itoa_from room (n / 10) ((n % 10 + b'0') ∷ buf) in if n == 0 then some buf else rest

unfoldable pub itoa : ℤ → Option (List ℕ)
unfolding itoa_from
itoa (pos n) = if n == 0 then some (codes "0") else itoa_from 12 n []
itoa (negsuc n) = some []

unfoldable pub set_origin : CorsConfig → (origin : List ℕ) → Headers → Headers
set_origin cfg origin h =
    if allows_all cfg.allow_origins
    then set_header (codes "Access-Control-Allow-Origin") (codes "*") h
    else if is_empty origin
    then h
    else set_header (codes "Vary") (codes "Origin")
        (set_header (codes "Access-Control-Allow-Origin") origin h)

unfoldable pub set_credentials : CorsConfig → Headers → Headers
set_credentials cfg h =
    if cfg.allow_credentials
    then set_header (codes "Access-Control-Allow-Credentials") (codes "true") h
    else h

-- The headers of the answer to a preflight.
unfoldable pub set_preflight : CorsConfig → List ℕ → Headers → Headers
unfolding join
set_preflight cfg age h = set_header (codes "Access-Control-Max-Age") age (
    set_header (codes "Access-Control-Expose-Headers") (join cfg.expose_headers) (
      set_header (codes "Access-Control-Allow-Headers") (join cfg.allow_headers)
        (set_header (codes "Access-Control-Allow-Methods") (join cfg.allow_methods) h)))

-- `none` is a panic.
unfoldable pub cors_middleware :
    CorsConfig → (origin method : List ℕ) → Headers → Option (Verdict × Headers)
unfolding set_origin set_credentials set_preflight origin_allowed itoa
cors_middleware cfg origin method h =
    let options = same method (codes "OPTIONS") in
    let h' = set_credentials cfg (set_origin cfg origin h) in
    if not (origin_allowed origin cfg.allow_origins) && not (is_empty origin)
    then some (if options then abort 403 else next, h)
    else if options
    then elim (itoa cfg.max_age) [
      | none ↦ none
      | some age ↦ some (abort 204, set_preflight cfg age h')
    ]
    else some (next, h')

unfoldable pub secure_headers : Headers → Headers
secure_headers h =
    set_header (codes "Permissions-Policy") (codes "camera=(), microphone=(), geolocation=()") (
      set_header (codes "Content-Security-Policy")
        (codes
          "default-src 'self'; script-src 'self' 'unsafe-inline'; style-src 'self' 'unsafe-inline'; img-src 'self' data:; media-src 'self'")
        (set_header (codes "Referrer-Policy") (codes "strict-origin-when-cross-origin") (
          set_header (codes "X-XSS-Protection") (codes "1; mode=block") (
            set_header (codes "X-Frame-Options") (codes "DENY")
              (set_header (codes "X-Content-Type-Options") (codes "nosniff") h)))))
