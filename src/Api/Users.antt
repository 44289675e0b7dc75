-- ===== src/Api/Users.antt =====
-- internal/api/user.go. `body` is what `ShouldBindJSON` reads, or `none` for an error.
use go_shortvideo.Prelude.{ℕ, String, Option, none, some}
use go_shortvideo.Prelude.Int.{ℤ, pos, negsuc}
use go_shortvideo.Strconv.{parse_int}
use go_shortvideo.Model.{User}
use go_shortvideo.Store.State.{Store, Result, ok, err, not_found}
use go_shortvideo.Store.Users.{
  Bcrypt, create_user as store_user, authenticate_user, get_user as stored_user,
}
use go_shortvideo.Store.Follows.{follow_stats}
use go_shortvideo.Auth.Token.{JwtLibrary, new_jwt_with_options, generate_token}
use go_shortvideo.Api.Service.{Services, App, Handler, Request}
use go_shortvideo.Api.Answer.{Response, success, fail, user, session, profile, store_err_status}

module _ (services : Services) (bcrypt : Bcrypt) where
  unfoldable pub create_user :
      (salt now : ℕ) → Option (String × String) → App services → Response services × App services
  create_user salt now body a = elim body [
    | none ↦ (fail 400, a)
    | some (username, password) ↦
        let (res, store) = store_user bcrypt salt now username password a.store in
        let a' : App services = record a { store = store } in
        elim res [ err e ↦ (fail (store_err_status e), a') | ok u ↦ (success (user u), a') ]
  ]

  unfoldable pub login :
      JwtLibrary
      → Handler
      → (now : ℕ) → Option (String × String)
      → App services
      → Response services × App services
  login lib h now body a = elim body [
    | none ↦ (fail 400, a)
    | some (username, password) ↦ elim (authenticate_user bcrypt username password a.store) [
      | err e ↦ (fail 401, a)
      | ok u ↦
          let jwt = new_jwt_with_options h.jwt_secret h.jwt_ttl h.allow_x_user_id in
          elim (generate_token lib now jwt (pos u.id)) [
            | none ↦ (fail 500, a)
            | some token ↦ (success (session token u), a)
          ]
    ]
  ]

  abbrev pub user_at : ℤ → Store → Result User
  user_at (pos id) s = stored_user id s
  user_at (negsuc n) s = err not_found

  abbrev pub stats_at : ℤ → Store → ℕ × ℕ
  stats_at (pos id) s = follow_stats id s
  stats_at (negsuc n) s = (0, 0)

  unfoldable pub get_user : Request → App services → Response services × App services
  get_user r a = elim (parse_int r.id) [
    | none ↦ (fail 400, a)
    | some id ↦ elim (user_at id a.store) [
      | err e ↦ (fail (store_err_status e), a)
      | ok u ↦
          let (following, followers) = stats_at id a.store in
          (success (profile u following followers), a)
    ]
  ]
