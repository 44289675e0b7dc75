-- ===== src/Api/Follows.antt =====
-- internal/api/follow.go
use go_shortvideo.Prelude.{
  ℕ, true, false, Option, none, some, List, ltb, length, take, if◌then◌else◌,
}
use go_shortvideo.Prelude.Int.{ℤ, pos, negsuc}
use go_shortvideo.Strconv.{parse_int}
use go_shortvideo.Store.State.{Store, Result, ok, err, not_found}
use go_shortvideo.Store.Follows.{follow as store_follow, unfollow as store_unfollow}
use go_shortvideo.Store.Lists.{following_feed as stored_feed}
use go_shortvideo.Auth.Token.{user_id_from_context}
use go_shortvideo.Api.Service.{Services, App, Request}
use go_shortvideo.Api.Answer.{
  Response, success, fail, following, feed_page, store_err_status, query_int,
}
use go_shortvideo.Api.Videos.{write_feed}

-- No user has a negative id, and no set holds one.
abbrev pub follow_at : ℕ → ℤ → Store → Result (Unit {0}) × Store
follow_at uid (pos target) s = store_follow uid target s
follow_at uid (negsuc n) s = (err not_found, s)

abbrev pub unfollow_at : ℕ → ℤ → Store → Result (Unit {0}) × Store
unfollow_at uid (pos target) s = store_unfollow uid target s
unfollow_at uid (negsuc n) s = (ok tt, s)

-- The page of the feed service, cut at the limit; `none` is the panic of a negative limit.
unfoldable pub cut {ℓ} : {A : Type ℓ} → List A → ℤ → Option (List A)
cut page (pos limit) = some (if ltb limit (length page) then take limit page else page)
cut page (negsuc n) = none

module _ (services : Services) where
  unfoldable pub follow : Request → App services → Response services × App services
  follow r a = elim (user_id_from_context r.context) [
    | none ↦ (fail 401, a)
    | some uid ↦ elim (parse_int r.id) [
      | none ↦ (fail 400, a)
      | some target ↦
          let (res, store) = follow_at uid target a.store in
          let a' : App services = record a { store = store } in
          elim res [
            | err e ↦ (fail (store_err_status e), a')
            | ok _ ↦ (success (following true), a')
          ]
    ]
  ]

  unfoldable pub unfollow : Request → App services → Response services × App services
  unfollow r a = elim (user_id_from_context r.context) [
    | none ↦ (fail 401, a)
    | some uid ↦ elim (parse_int r.id) [
      | none ↦ (fail 400, a)
      | some target ↦
          let (res, store) = unfollow_at uid target a.store in
          let a' : App services = record a { store = store } in
          elim res [
            | err e ↦ (fail (store_err_status e), a')
            | ok _ ↦ (success (following false), a')
          ]
    ]
  ]

  -- A panic is answered with 500 by gin's `Recovery`.
  unfoldable pub following_feed : Request → App services → Response services × App services
  following_feed r a = elim (user_id_from_context r.context) [
    | none ↦ (fail 401, a)
    | some uid ↦
        let max_id = query_int r.max_id (pos 0) in
        let limit = query_int r.limit (pos 10) in
        elim services.feed_svc [
          | some get ↦ elim (get uid max_id (a.store, a.ext)) [
            | none ↦ (fail 500, a)
            | some (videos, next) ↦ elim (cut videos limit) [
              | none ↦ (fail 500, a)
              | some items ↦ (success (feed_page items next), a)
            ]
          ]
          | none ↦ elim (stored_feed uid max_id limit a.store) [
            | err e ↦ (fail (store_err_status e), a)
            | ok videos ↦ (write_feed services videos r a, a)
          ]
        ]
  ]
