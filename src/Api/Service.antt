-- ===== src/Api/Service.antt =====
-- What the handlers of internal/api/handler.go work with: the store, the service for likes, and the
-- feeds. The services are an interface, which the in-memory store or Redis stands behind.
use go_shortvideo.Prelude.{ℕ, Bool, true, false, Option, none, some, List}
use go_shortvideo.Prelude.Int.{ℤ}
use go_shortvideo.Dict.{Dict}
use go_shortvideo.Store.State.{Store, Result, ok, err}
use go_shortvideo.Auth.Context.{Context}

-- An answer of `LikeService`: `none` is an error that is not one of the store.
abbrev pub refused {ℓ} : {A : Type ℓ} → Option (Result A) → Bool
refused none = true
refused (some (err e)) = true
refused (some (ok a)) = false

-- `LikeService`, with its own state `Ext` beside the store, and the two feeds where there are any:
-- `none` is a service that is nil. An id that a client sends may be negative.
pub record Services : Type 1 where
  pub Ext : Type 0
  pub FeedItem : Type 0
  pub RecPage : Type 0
  pub like : (user : ℕ) → ℤ → Store × Ext → Option (Result Bool) × (Store × Ext)
  pub unlike : (user : ℕ) → ℤ → Store × Ext → Option (Result Bool) × (Store × Ext)
  pub count : ℤ → Store × Ext → Option ℕ
  pub batch_is_liked : (user : ℕ) → List ℕ → Store × Ext → Dict Bool
  pub feed_svc : Option ((user : ℕ) → ℤ → Store × Ext → Option (List FeedItem × ℤ))
  pub rec_svc : Option ((user : ℕ) → ℤ → Store × Ext → Option RecPage)

-- What `PublishFanout` is called with.
pub record FanoutJob : Type 0 where
  pub author_id : ℕ
  pub video_id : ℕ
  pub ts_milli : ℕ

-- The state that requests change: the store, the state of the services, and the jobs that were given
-- to the publisher.
pub record App (services : Services) : Type 0 where
  pub store : Store
  pub ext : services.Ext
  pub jobs : List FanoutJob

-- The settings of `Handler`; `fanout` says whether there is a publisher.
pub record Handler : Type 0 where
  pub jwt_secret : List ℕ
  pub jwt_ttl : ℤ
  pub allow_x_user_id : Bool
  pub fanout : Bool

-- A request: its context, the parameter `id` of its path and the parameters of its query, empty
-- where there is none.
pub record Request : Type 0 where
  pub context : Context
  pub id : List ℕ
  pub max_id : List ℕ
  pub limit : List ℕ
  pub cursor : List ℕ
