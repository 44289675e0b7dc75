-- ===== src/Auth/RoundTrip.antt =====
-- A token that the service has given out lets its owner in.
use go_shortvideo.Prelude.{ℕ, suc, ◌+◌, ◌<◌, ◌≡◌, refl, ap, ◌∙◌, some, List, [], ◌∷◌, ◌++◌, ==_refl}
use go_shortvideo.Prelude.Int.{pos}
use go_shortvideo.Auth.Context.{Context, after_prefix}
use go_shortvideo.Auth.Token.{
  JwtLibrary, Jwt, bearer, generate_token, key_for, validate_token, identify, gin_middleware,
  user_id_from_context,
}

after_prefix-append : (p s : List ℕ) → after_prefix p (p ++ s) ≡ some s
after_prefix-append [] s = refl
after_prefix-append (c ∷ p) s = rw (==_refl c) (after_prefix-append p s)

-- A token that is made for a user with a positive id, sent as a bearer token to a service with the
-- same secret before its time is over, makes the middleware set that user, whatever the request says
-- in `X-User-Id` and whether or not that header is allowed.
pub gin_middleware-generate_token :
    (lib : JwtLibrary) (j j' : Jwt) (made now id : ℕ) (token : List ℕ) (c : Context)
    → generate_token lib made j (pos (suc id)) ≡ some token
    → now < made + j.ttl
    → j'.secret ≡ j.secret
    → c.authorization ≡ bearer ++ token
    → (c' : Context) × ((gin_middleware lib now j' c ≡ some c')
        × (user_id_from_context c' ≡ some (suc id)))
unfolding generate_token key_for validate_token identify gin_middleware user_id_from_context
gin_middleware-generate_token lib j j' made now id token c signed early same sent =
    let behind : after_prefix bearer c.authorization ≡ some token =
      ap (after_prefix bearer) sent ∙ after_prefix-append bearer token in
    let read =
      lib.parse_with_claims-sign made (made + j.ttl) now (pos (suc id)) j.secret token
        (key_for lib j') signed early (ap some same) in
    rw (behind, read) (_, (refl, refl))
