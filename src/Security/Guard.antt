-- ===== src/Security/Guard.antt =====
-- `GinMiddleware` of `LoginProtection` in pkg/security/middleware.go, round any handler.
use text.Mathlib.Text.{◌==◌ as str_eq}
use go_shortvideo.Prelude.{ℕ, ◌||◌, not, String, Option, none, some, ◌==◌, if◌then◌else◌}
use go_shortvideo.Security.Login.{LoginProtection, allow, record_failure, record_success}

-- What a request shows to the middleware.
pub record LoginRequest : Type 0 where
  pub path : String
  pub method : String
  pub client_ip : String

-- What follows the handler, at the time `ended`.
unfoldable pub note_status : (ended : ℕ) → String → (status : ℕ) → LoginProtection → LoginProtection
note_status ended ip status p =
    if status == 401
    then record_failure ended ip p
    else if status == 200
    then record_success ip p
    else p

-- `handler` gives the status and changes a state; `none` stands for the status 429, which is given
-- without a call of the handler.
module _ {ℓ} {S : Type ℓ} (handler : S → ℕ × S) where
  unfoldable pub gin_middleware :
      (started ended : ℕ) → LoginRequest → LoginProtection → S → Option ℕ × (LoginProtection × S)
  gin_middleware started ended r p s =
      let (status, s') = handler s in
      if not (str_eq r.path "/api/login") || not (str_eq r.method "POST")
      then (some status, (p, s'))
      else (let (may, p') = allow started r.client_ip p in
          if may
          then (some status, (note_status ended r.client_ip status p', s'))
          else (none, (p', s)))
