-- ===== src/Api/Router.antt =====
-- `NewRouterWithOptions` of internal/api/router.go: which handler answers a request, and what runs
-- before it. `readyz` says whether there is a `ReadyCheck`, and whether it answers with an error.
-- Further middlewares and the static files are left out; the job for the transcoding that an upload
-- publishes is not kept.
use go_shortvideo.Prelude.{ℕ, Bool, true, false, String, Option, none, some}
use go_shortvideo.Store.Users.{Bcrypt}
use go_shortvideo.Store.Videos.{Draft}
use go_shortvideo.Auth.Context.{Stored, Context}
use go_shortvideo.Auth.Token.{JwtLibrary, new_jwt_with_options, gin_middleware}
use go_shortvideo.Api.Service.{Services, App, Handler, Request}
use go_shortvideo.Api.Answer.{Response, success, fail, health}
use go_shortvideo.Api.Likes
use go_shortvideo.Api.Comments
use go_shortvideo.Api.Users
use go_shortvideo.Api.Videos
use go_shortvideo.Api.Follows
use go_shortvideo.Api.Upload
use go_shortvideo.Api.Upload.{UploadTools, FormFile}

-- The routes that everyone may ask for, with what a handler reads beside the request.
pub data PublicRoute : Type 0 where
  create_user : (salt now : ℕ) → Option (String × String) → PublicRoute
  login : (now : ℕ) → Option (String × String) → PublicRoute
  get_user list_user_videos list_videos get_video video_status list_comments : PublicRoute
  healthz : PublicRoute
  readyz : (check_fails : Option Bool) → PublicRoute

-- The group behind the middleware for tokens.
pub data AuthRoute : Type 0 where
  publish_video : (now : ℕ) → Option Draft → AuthRoute
  like unlike follow unfollow following_feed recommend_feed : AuthRoute
  add_comment : (now : ℕ) → Option String → AuthRoute
  upload : (transcode : Bool) → (now : ℕ) → UploadTools → (form : Option FormFile) → AuthRoute

pub data Route : Type 0 where
  public : PublicRoute → Route
  guarded : AuthRoute → Route

module _ (services : Services) (bcrypt : Bcrypt) (lib : JwtLibrary) (h : Handler) where
  unfoldable pub serve_public :
      PublicRoute → Request → App services → Response services × App services
  serve_public (PublicRoute.create_user salt now body) r a =
      Users.create_user services bcrypt salt now body a
  serve_public (PublicRoute.login now body) r a = Users.login services bcrypt lib h now body a
  serve_public PublicRoute.get_user r a = Users.get_user services bcrypt r a
  serve_public PublicRoute.list_user_videos r a = Videos.list_user_videos services r a
  serve_public PublicRoute.list_videos r a = Videos.list_videos services r a
  serve_public PublicRoute.get_video r a = Videos.get_video services r a
  serve_public PublicRoute.video_status r a = Videos.show_status services r a
  serve_public PublicRoute.list_comments r a = Comments.list_comments services r a
  serve_public PublicRoute.healthz r a = (success (health true), a)
  serve_public (PublicRoute.readyz none) r a = (success (health true), a)
  serve_public (PublicRoute.readyz (some false)) r a = (success (health true), a)
  serve_public (PublicRoute.readyz (some true)) r a =
      (record { status = 503; body = health false }, a)

  unfoldable pub serve_auth : AuthRoute → Request → App services → Response services × App services
  serve_auth (AuthRoute.publish_video now body) r a = Videos.publish_video services h now body r a
  serve_auth AuthRoute.like r a = Likes.like services r a
  serve_auth AuthRoute.unlike r a = Likes.unlike services r a
  serve_auth AuthRoute.follow r a = Follows.follow services r a
  serve_auth AuthRoute.unfollow r a = Follows.unfollow services r a
  serve_auth AuthRoute.following_feed r a = Follows.following_feed services r a
  serve_auth AuthRoute.recommend_feed r a = Videos.recommend_feed services r a
  serve_auth (AuthRoute.add_comment now body) r a = Comments.add_comment services now body r a
  serve_auth (AuthRoute.upload transcode now tools form) r a =
      let (res, (a', job)) = Upload.upload services h transcode now tools form r a in (res, a')

  -- The first middleware sets whether `X-User-Id` is allowed.
  unfoldable pub prepare : Context → Context
  prepare c = record c { allow_x_user_id = Stored.value h.allow_x_user_id }

  unfoldable pub serve :
      (now : ℕ) → Route → Request → App services → Response services × App services
  serve now (Route.public route) r a =
      serve_public route (record r { context = prepare r.context }) a
  serve now (Route.guarded route) r a =
      let jwt = new_jwt_with_options h.jwt_secret h.jwt_ttl h.allow_x_user_id in
      elim (gin_middleware lib now jwt (prepare r.context)) [
        | none ↦ (fail 401, a)
        | some c ↦ serve_auth route (record r { context = c }) a
      ]
