-- ===== src/Api/Serving.antt =====
-- What a request that is turned away leaves behind.
use go_shortvideo.Prelude.{
  ℕ, ◌≤◌, ◌≡◌, ◌≢◌, refl, ap, ◌∙◌, Bool, true, false, String, Option, none, some, List, arith,
  Option-cases, inl, inr, Bool-cases,
}
use go_shortvideo.Prelude.Int.{ℤ}
use go_shortvideo.Dict.{has_key}
use go_shortvideo.Like.Memory.{mem_services}
use go_shortvideo.Store.Users.{Bcrypt}
use go_shortvideo.Auth.Context.{Context, after_prefix}
use go_shortvideo.Auth.Token.{
  JwtLibrary, Jwt, bearer, new_jwt_with_options, key_for, validate_token, from_header, identify,
  gin_middleware,
}
use go_shortvideo.Api.Service.{Services, App, Handler, Request}
use go_shortvideo.Api.Answer.{fail}
use go_shortvideo.Api.Comments
use go_shortvideo.Api.Users
use go_shortvideo.Api.Videos
use go_shortvideo.Api.Follows
use go_shortvideo.Api.Router.{
  PublicRoute, AuthRoute, Route, serve_public, serve_auth, prepare, serve,
}
use go_shortvideo.Api.Safety.{
  Kept, Kept-like, Kept-unlike, Kept-follow, Kept-unfollow, Kept-add_comment, Kept-publish_video,
  Kept-create_user, Kept-upload,
}

module _ (services : Services) where
  read-get_user :
      (bcrypt : Bcrypt) (r : Request) (a : App services)
      → (Users.get_user services bcrypt r a).1 ≡ a
  unfolding Users.get_user
  read-get_user bcrypt r a = ground arith

  read-login :
      (bcrypt : Bcrypt) (lib : JwtLibrary) (h : Handler) (now : ℕ) (body : Option (String × String))
      (a : App services)
      → (Users.login services bcrypt lib h now body a).1 ≡ a
  unfolding Users.login
  read-login bcrypt lib h now none a = refl
  read-login bcrypt lib h now (some (name, password)) a = ground arith

  read-list_user_videos :
      (r : Request) (a : App services) → (Videos.list_user_videos services r a).1 ≡ a
  unfolding Videos.list_user_videos
  read-list_user_videos r a = ground arith

  read-get_video : (r : Request) (a : App services) → (Videos.get_video services r a).1 ≡ a
  unfolding Videos.get_video
  read-get_video r a = ground arith

  read-show_status : (r : Request) (a : App services) → (Videos.show_status services r a).1 ≡ a
  unfolding Videos.show_status
  read-show_status r a = ground arith

  read-list_comments :
      (r : Request) (a : App services) → (Comments.list_comments services r a).1 ≡ a
  unfolding Comments.list_comments
  read-list_comments r a = ground arith

  read-following_feed :
      (r : Request) (a : App services) → (Follows.following_feed services r a).1 ≡ a
  unfolding Follows.following_feed
  read-following_feed r a = ground arith

  read-recommend_feed :
      (r : Request) (a : App services) → (Videos.recommend_feed services r a).1 ≡ a
  unfolding Videos.recommend_feed
  read-recommend_feed r a = ground arith

allow-new_jwt :
    (secret : List ℕ) (ttl : ℤ) (allow : Bool)
    → (new_jwt_with_options secret ttl allow).allow_x_user_id ≡ allow
unfolding new_jwt_with_options
allow-new_jwt secret ttl allow = ground arith

validate_token-none :
    (lib : JwtLibrary) (now : ℕ) (j : Jwt) (token : List ℕ)
    → ((user : ℤ) → lib.parse_with_claims now token (key_for lib j) ≢ some (true, user))
    → validate_token lib now j token ≡ none
unfolding validate_token
validate_token-none lib now j token invalid =
    elim (Option-cases (lib.parse_with_claims now token (key_for lib j))) [
      | inl e ↦ rw (e, validate_token) refl
      | inr ((valid, user), e) ↦ elim (Bool-cases valid) [
        | inl t ↦ absurd (invalid user (e ∙ ap (λ v. some (v, user)) t))
        | inr f ↦ rw (e, validate_token) (rw f refl)
      ]
    ]

gin_middleware-none :
    (lib : JwtLibrary) (now : ℕ) (j : Jwt) (c : Context)
    → j.allow_x_user_id ≡ false
    → ((token : List ℕ) (user : ℤ)
        → after_prefix bearer c.authorization ≡ some token
        → lib.parse_with_claims now token (key_for lib j) ≢ some (true, user))
    → gin_middleware lib now j c ≡ none
unfolding gin_middleware identify from_header
gin_middleware-none lib now j c closed invalid =
    elim (Option-cases (after_prefix bearer c.authorization)) [
      | inl e ↦ ground arith
      | inr (token, e) ↦
          let away = validate_token-none lib now j token (λ user. invalid token user e) in
          ground arith
    ]

module _ (services : Services) (bcrypt : Bcrypt) (lib : JwtLibrary) (h : Handler) where
  store_of : {a b : App services} → a ≡ b → a.store ≡ b.store
  store_of e = ap (λ (x : App services). x.store) e

  Kept-serve_public :
      (route : PublicRoute) (r : Request) (a : App services)
      → Kept services a.store (serve_public services bcrypt lib h route r a)
  unfolding serve_public Videos.list_videos
  Kept-serve_public (PublicRoute.create_user salt now body) r a error =
      Kept-create_user services bcrypt salt now body a error
  Kept-serve_public (PublicRoute.login now body) r a error =
      store_of (read-login services bcrypt lib h now body a)
  Kept-serve_public PublicRoute.get_user r a error = store_of (read-get_user services bcrypt r a)
  Kept-serve_public PublicRoute.list_user_videos r a error =
      store_of (read-list_user_videos services r a)
  Kept-serve_public PublicRoute.list_videos r a error = refl
  Kept-serve_public PublicRoute.get_video r a error = store_of (read-get_video services r a)
  Kept-serve_public PublicRoute.video_status r a error = store_of (read-show_status services r a)
  Kept-serve_public PublicRoute.list_comments r a error = store_of (read-list_comments services r a)
  Kept-serve_public PublicRoute.healthz r a error = refl
  Kept-serve_public (PublicRoute.readyz none) r a error = refl
  Kept-serve_public (PublicRoute.readyz (some false)) r a error = refl
  Kept-serve_public (PublicRoute.readyz (some true)) r a error = refl

  -- A service that does not allow `X-User-Id` answers every request of the guarded group with 401,
  -- and changes nothing, unless the request carries a bearer token that the library calls valid under
  -- the secret of the service.
  pub serve-unauthorized :
      (now : ℕ) (route : AuthRoute) (r : Request) (a : App services)
      → h.allow_x_user_id ≡ false
      → ((token : List ℕ) (user : ℤ)
          → after_prefix bearer r.context.authorization ≡ some token
          → lib.parse_with_claims now token
              (key_for lib (new_jwt_with_options h.jwt_secret h.jwt_ttl h.allow_x_user_id))
            ≢ some (true, user))
      → serve services bcrypt lib h now (Route.guarded route) r a ≡ (fail 401, a)
  unfolding serve prepare
  serve-unauthorized now route r a closed invalid =
      let jwt = new_jwt_with_options h.jwt_secret h.jwt_ttl h.allow_x_user_id in
      let away =
        gin_middleware-none lib now jwt (prepare services bcrypt lib h r.context)
          (allow-new_jwt h.jwt_secret h.jwt_ttl h.allow_x_user_id ∙ closed) invalid in
      ap
        (λ (o : Option Context). elim o [
          | none ↦ (fail 401, a)
          | some c ↦ serve_auth services bcrypt lib h route (record r { context = c }) a
        ])
        away

-- With the store in memory behind the handlers for likes.
module _ (bcrypt : Bcrypt) (lib : JwtLibrary) (h : Handler) where
  Kept-serve_auth :
      (route : AuthRoute) (r : Request) (a : App mem_services)
      → has_key 0 a.store.users ≡ false
      → Kept mem_services a.store (serve_auth mem_services bcrypt lib h route r a)
  unfolding serve_auth
  Kept-serve_auth (AuthRoute.publish_video now body) r a missing error =
      Kept-publish_video mem_services h now body r a error
  Kept-serve_auth AuthRoute.like r a missing error = Kept-like r a error
  Kept-serve_auth AuthRoute.unlike r a missing error = Kept-unlike r a error
  Kept-serve_auth AuthRoute.follow r a missing error = Kept-follow mem_services r a error
  Kept-serve_auth AuthRoute.unfollow r a missing error = Kept-unfollow mem_services r a error
  Kept-serve_auth AuthRoute.following_feed r a missing error =
      store_of mem_services bcrypt lib h (read-following_feed mem_services r a)
  Kept-serve_auth AuthRoute.recommend_feed r a missing error =
      store_of mem_services bcrypt lib h (read-recommend_feed mem_services r a)
  Kept-serve_auth (AuthRoute.add_comment now body) r a missing error =
      Kept-add_comment mem_services now body r a error
  Kept-serve_auth (AuthRoute.upload transcode now tools form) r a missing error =
      Kept-upload mem_services h transcode now tools form r a missing error

  -- Whatever a request asks for, of every route with a handler, an answer with a status of 400 or
  -- more leaves the store as it was, where the store in memory is the service for likes and no
  -- account has the id 0.
  pub store-serve :
      (now : ℕ) (route : Route) (r : Request) (a : App mem_services)
      → has_key 0 a.store.users ≡ false
      → 400 ≤ (serve mem_services bcrypt lib h now route r a).0.status
      → (serve mem_services bcrypt lib h now route r a).1.store ≡ a.store
  unfolding serve
  store-serve now (Route.public route) r a missing error =
      Kept-serve_public mem_services bcrypt lib h route
        (record r { context = prepare mem_services bcrypt lib h r.context }) a error
  store-serve now (Route.guarded route) r a missing error =
      behind
        (gin_middleware lib now (new_jwt_with_options h.jwt_secret h.jwt_ttl h.allow_x_user_id)
          (prepare mem_services bcrypt lib h r.context))
        error
    where
      behind :
          (o : Option Context)
          → Kept mem_services a.store (elim o [
            | none ↦ (fail 401, a)
            | some c ↦ serve_auth mem_services bcrypt lib h route (record r { context = c }) a
          ])
      behind none error = refl
      behind (some c) error = Kept-serve_auth route (record r { context = c }) a missing error
