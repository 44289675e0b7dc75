-- ===== src/Api/Likes.antt =====
-- internal/api/like.go
use go_shortvideo.Prelude.{ℕ, true, false, Option, none, some}
use go_shortvideo.Prelude.Int.{ℤ}
use go_shortvideo.Strconv.{parse_int}
use go_shortvideo.Store.State.{ok, err}
use go_shortvideo.Auth.Token.{user_id_from_context}
use go_shortvideo.Api.Service.{Services, App, Request}
use go_shortvideo.Api.Answer.{Response, success, fail, liking, store_err_status}

-- `cnt, _ := h.likeSvc.Count(id)`
abbrev pub or_zero : Option ℕ → ℕ
or_zero none = 0
or_zero (some n) = n

module _ (services : Services) where
  unfoldable pub like_as : ℕ → ℤ → App services → Response services × App services
  like_as uid id a =
      let (res, (store, ext)) = services.like uid id (a.store, a.ext) in
      let a' : App services = record a { store = store; ext = ext } in
      elim res [
        | none ↦ (fail 500, a')
        | some (err e) ↦ (fail (store_err_status e), a')
        | some (ok changed) ↦
            (success (liking changed true (or_zero (services.count id (store, ext)))), a')
      ]

  unfoldable pub like : Request → App services → Response services × App services
  like r a = elim (user_id_from_context r.context) [
    | none ↦ (fail 401, a)
    | some uid ↦ elim (parse_int r.id) [ none ↦ (fail 400, a) | some id ↦ like_as uid id a ]
  ]

  unfoldable pub unlike_as : ℕ → ℤ → App services → Response services × App services
  unlike_as uid id a =
      let (res, (store, ext)) = services.unlike uid id (a.store, a.ext) in
      let a' : App services = record a { store = store; ext = ext } in
      elim res [
        | none ↦ (fail 500, a')
        | some (err e) ↦ (fail (store_err_status e), a')
        | some (ok changed) ↦
            (success (liking changed false (or_zero (services.count id (store, ext)))), a')
      ]

  unfoldable pub unlike : Request → App services → Response services × App services
  unlike r a = elim (user_id_from_context r.context) [
    | none ↦ (fail 401, a)
    | some uid ↦ elim (parse_int r.id) [ none ↦ (fail 400, a) | some id ↦ unlike_as uid id a ]
  ]
