-- ===== src/RateLimit/Keys.antt =====
-- The keys by which pkg/ratelimit/limiter.go counts requests, as lists of bytes. `none` is a panic
-- of `formatInt`.
use go_shortvideo.Prelude.{
  ℕ, Bool, true, false, Option, none, some, List, [], ◌∷◌, ◌++◌, if◌then◌else◌,
}
use go_shortvideo.Prelude.Int.{ℤ, pos, ltb_ℤ}
use go_shortvideo.Strconv.{codes}
use go_shortvideo.Auth.Context.{Stored, Context, after_prefix}
use go_shortvideo.Auth.Token.{JwtLibrary, Method, bearer}
use go_shortvideo.RateLimit.Decimal.{format_int}

unfoldable pub key_from_ip_gin : Context → List ℕ
key_from_ip_gin c = elim c.x_forwarded_for [
  | [] ↦ codes "ip:" ++ c.client_ip
  | b ∷ bs ↦ codes "ip:" ++ (b ∷ bs)
]

unfoldable pub uid_key : ℤ → Option (List ℕ)
uid_key id = elim (format_int id) [ none ↦ none | some digits ↦ some (codes "uid:" ++ digits) ]

-- `!ok || allow == true`
unfoldable pub header_counts : Context → Bool
header_counts c = elim c.allow_x_user_id [
  | Stored.unset ↦ true
  | Stored.other_type ↦ false
  | Stored.value allow ↦ allow
]

-- The part behind the checks of the user: `X-User-Id`, or the address.
unfoldable pub key_from_headers : Context → Option (List ℕ)
key_from_headers c =
    if header_counts c
    then elim c.x_user_id [
      | [] ↦ some (key_from_ip_gin c)
      | b ∷ bs ↦ some (codes "uid:" ++ (b ∷ bs))
    ]
    else some (key_from_ip_gin c)

-- The user that an earlier handler has set.
unfoldable pub set_user : Context → Option ℤ
set_user c = elim c.user_id [
  | Stored.unset ↦ none
  | Stored.other_type ↦ none
  | Stored.value id ↦ if ltb_ℤ (pos 0) id then some id else none
]

unfoldable pub key_from_user_id : Context → Option (List ℕ)
key_from_user_id c = elim (set_user c) [ none ↦ key_from_headers c | some id ↦ uid_key id ]

module _ (lib : JwtLibrary) where
  unfoldable pub key_for_secret : List ℕ → Method → Option (List ℕ)
  key_for_secret secret Method.hmac = some secret
  key_for_secret secret Method.other_method = none

  unfoldable pub parse_jwt_user_id : (now : ℕ) → (token secret : List ℕ) → Option ℤ
  parse_jwt_user_id now token secret =
      elim (lib.parse_with_claims now token (key_for_secret secret)) [
        | none ↦ none
        | some (valid, id) ↦ if valid then (if ltb_ℤ (pos 0) id then some id else none) else none
      ]

  -- The user of a bearer token, where a secret is known.
  unfoldable pub token_user : (now : ℕ) → List ℕ → Context → Option ℤ
  token_user now [] c = none
  token_user now (b ∷ secret) c = elim (after_prefix bearer c.authorization) [
    | none ↦ none
    | some token ↦ parse_jwt_user_id now token (b ∷ secret)
  ]

  unfoldable pub key_from_jwt_or_user_id : (now : ℕ) → List ℕ → Context → Option (List ℕ)
  key_from_jwt_or_user_id now secret c = elim (set_user c) [
    | some id ↦ uid_key id
    | none ↦ elim (token_user now secret c) [ some id ↦ uid_key id | none ↦ key_from_headers c ]
  ]
