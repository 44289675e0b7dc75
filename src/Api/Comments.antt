-- ===== src/Api/Comments.antt =====
-- internal/api/comment.go. `body` is what `ShouldBindJSON` reads, or `none` for an error.
use text.Mathlib.Text.{◌==◌ as str_eq}
use go_shortvideo.Prelude.{ℕ, String, Option, none, some, length, if◌then◌else◌}
use go_shortvideo.Prelude.Int.{ℤ, pos, negsuc}
use go_shortvideo.Strconv.{parse_int}
use go_shortvideo.Model.{Comment}
use go_shortvideo.Store.State.{Store, Result, ok, err, not_found, invalid}
use go_shortvideo.Store.Comments.{add_comment as store_comment, list_comments as stored_comments}
use go_shortvideo.Auth.Token.{user_id_from_context}
use go_shortvideo.Api.Service.{Services, App, Request}
use go_shortvideo.Api.Answer.{Response, success, fail, comment, comments, store_err_status}

-- No video has a negative id.
abbrev pub comment_at : (now : ℕ) → ℤ → ℕ → String → Store → Result Comment × Store
comment_at now (pos video) uid content s = store_comment now video uid content s
comment_at now (negsuc n) uid content s =
    if str_eq content "" then (err invalid, s) else (err not_found, s)

module _ (services : Services) where
  unfoldable pub add_comment :
      (now : ℕ) → Option String → Request → App services → Response services × App services
  add_comment now body r a = elim (user_id_from_context r.context) [
    | none ↦ (fail 401, a)
    | some uid ↦ elim (parse_int r.id) [
      | none ↦ (fail 400, a)
      | some id ↦ elim body [
        | none ↦ (fail 400, a)
        | some content ↦
            let (res, store) = comment_at now id uid content a.store in
            let a' : App services = record a { store = store } in
            elim res [ err e ↦ (fail (store_err_status e), a') | ok c ↦ (success (comment c), a') ]
      ]
    ]
  ]

  unfoldable pub list_comments : Request → App services → Response services × App services
  list_comments r a = elim (parse_int r.id) [
    | none ↦ (fail 400, a)
    | some (negsuc n) ↦ (fail 404, a)
    | some (pos id) ↦ elim (stored_comments id a.store) [
      | err e ↦ (fail (store_err_status e), a)
      | ok list ↦ (success (comments list (length list)), a)
    ]
  ]
