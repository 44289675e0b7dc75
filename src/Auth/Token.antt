-- ===== src/Auth/Token.antt =====
-- `JWT` of internal/auth/auth.go, with the library for tokens as a parameter. Times are seconds.
use go_shortvideo.Prelude.{
  ℕ, zero, suc, ◌+◌, ◌*◌, ◌<◌, ◌≡◌, Bool, true, Option, none, some, List, if◌then◌else◌,
}
use go_shortvideo.Prelude.Int.{ℤ, pos, negsuc, ltb_ℤ}
use go_shortvideo.Strconv.{codes, parse_int}
use go_shortvideo.Auth.Context.{Stored, Context, after_prefix}

-- The method that a token says it is signed with.
pub data Method : Type 0 where
  hmac other_method : Method

-- github.com/golang-jwt/jwt: `sign` signs claims with HS256, or fails; `parse_with_claims` asks for
-- the key by the method, and answers whether the token is valid and the user of its claims, or an
-- error. A token that was signed with a key is read back with that key until it expires.
pub record JwtLibrary : Type 0 where
  pub sign : (issued expires : ℕ) → ℤ → List ℕ → Option (List ℕ)
  pub parse_with_claims : (now : ℕ) → List ℕ → (Method → Option (List ℕ)) → Option (Bool × ℤ)
  pub parse_with_claims-sign :
      (issued expires now : ℕ) (user : ℤ) (secret token : List ℕ) (key : Method → Option (List ℕ))
      → sign issued expires user secret ≡ some token
      → now < expires
      → key Method.hmac ≡ some secret
      → parse_with_claims now token key ≡ some (true, user)

pub record Jwt : Type 0 where
  pub secret : List ℕ
  pub ttl : ℕ
  pub allow_x_user_id : Bool

abbrev pub day : ℕ
day = 24 * 60 * 60

-- A time to live that is not positive is a day.
unfoldable pub new_jwt_with_options : List ℕ → ℤ → Bool → Jwt
new_jwt_with_options secret (pos zero) allow = record {
  secret = secret;
  ttl = day;
  allow_x_user_id = allow;
}
new_jwt_with_options secret (pos (suc n)) allow = record {
  secret = secret;
  ttl = suc n;
  allow_x_user_id = allow;
}
new_jwt_with_options secret (negsuc n) allow = record {
  secret = secret;
  ttl = day;
  allow_x_user_id = allow;
}

unfoldable pub new_jwt : List ℕ → Jwt
new_jwt secret = new_jwt_with_options secret (pos day) true

abbrev pub bearer : List ℕ
bearer = codes "Bearer "

module _ (lib : JwtLibrary) where
  unfoldable pub generate_token : (now : ℕ) → Jwt → ℤ → Option (List ℕ)
  generate_token now j user = lib.sign now (now + j.ttl) user j.secret

  unfoldable pub key_for : Jwt → Method → Option (List ℕ)
  key_for j Method.hmac = some j.secret
  key_for j Method.other_method = none

  unfoldable pub validate_token : (now : ℕ) → Jwt → List ℕ → Option ℤ
  validate_token now j token = elim (lib.parse_with_claims now token (key_for j)) [
    | none ↦ none
    | some (valid, user) ↦ if valid then some user else none
  ]

  -- The part for `X-User-Id`: an empty header does not parse either, and has the same answer.
  unfoldable pub from_header : Jwt → List ℕ → Option ℤ
  from_header j raw =
      if j.allow_x_user_id
      then elim (parse_int raw) [
        | none ↦ none
        | some id ↦ if ltb_ℤ (pos 0) id then some id else none
      ]
      else none

  unfoldable pub identify : (now : ℕ) → Jwt → Context → Option ℤ
  identify now j c = elim (after_prefix bearer c.authorization) [
    | some token ↦ validate_token now j token
    | none ↦ from_header j c.x_user_id
  ]

  -- `GinMiddleware`: the context with which the request goes on; `none` is an answer with 401.
  unfoldable pub gin_middleware : (now : ℕ) → Jwt → Context → Option Context
  gin_middleware now j c = elim (identify now j c) [
    | none ↦ none
    | some user ↦ some (record c { user_id = Stored.value user })
  ]

-- The user of a context, if there is one with a positive id.
abbrev pub positive : ℤ → Option ℕ
positive (pos zero) = none
positive (pos (suc n)) = some (suc n)
positive (negsuc n) = none

unfoldable pub user_id_from_context : Context → Option ℕ
user_id_from_context c = elim c.user_id [
  | Stored.unset ↦ none
  | Stored.other_type ↦ none
  | Stored.value id ↦ positive id
]
