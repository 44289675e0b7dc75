-- ===== src/Server/Settings.antt =====
-- pkg/config/config.go, `validateProductionConfig` and the readiness check of cmd/server/main.go. The
-- reading of the file and of the environment is left out; a duration is in nanoseconds.
use text.Mathlib.Text.{◌==◌ as str_eq}
use Prim.Native.String.{len}
use go_shortvideo.Prelude.{
  ℕ, ◌*◌, Bool, true, false, ◌&&◌, ◌||◌, not, String, Option, none, some, List, [], ◌∷◌, ◌++◌, ltb,
  if◌then◌else◌,
}
use go_shortvideo.Prelude.Int.{ℤ, pos}

pub record ServerConfig : Type 0 where
  pub addr : String
  pub mode : String
  pub read_timeout : ℤ
  pub write_timeout : ℤ

pub record MySqlConfig : Type 0 where
  pub dsn : String
  pub max_open_conns : ℤ
  pub max_idle_conns : ℤ

pub record FeaturesConfig : Type 0 where
  pub seed : Bool
  pub mq_enabled : Bool
  pub transcode_enabled : Bool
  pub reconcile_enabled : Bool
  pub recommend_enabled : Bool

pub record RateLimitRule : Type 0 where
  pub qps : ℤ
  pub burst : ℤ

pub record RateLimitConfig : Type 0 where
  pub login : RateLimitRule
  pub upload : RateLimitRule
  pub video : RateLimitRule
  pub feed : RateLimitRule
  pub user : RateLimitRule
  pub fallback : RateLimitRule

pub record OssConfig : Type 0 where
  pub endpoint : String
  pub access_key : String
  pub secret_key : String
  pub bucket : String
  pub cdn_domain : String

-- `Config`; the sections with one or two fields stand here by their fields.
pub record Config : Type 0 where
  pub server : ServerConfig
  pub jwt_secret : String
  pub jwt_ttl : ℤ
  pub upload_dir : String
  pub max_upload_size : ℤ
  pub redis_addr : String
  pub mysql : MySqlConfig
  pub mq_type : String
  pub features : FeaturesConfig
  pub reconcile_threshold : ℤ
  pub reconcile_interval : ℤ
  pub rate_limit : RateLimitConfig
  pub oss : OssConfig

abbrev second : ℕ
second = 1000000000

abbrev rule : ℕ → ℕ → RateLimitRule
rule qps burst = record { qps = pos qps; burst = pos burst }

-- `setDefaults`, with the zero values of what it leaves alone.
unfoldable pub defaults : Config
defaults = record {
  server = record {
    addr = ":8080";
    mode = "release";
    read_timeout = pos (15 * second);
    write_timeout = pos (30 * second);
  };
  jwt_secret = "dev-secret-change-in-production";
  jwt_ttl = pos (24 * 3600 * second);
  upload_dir = "./data/uploads";
  max_upload_size = pos 500;
  redis_addr = "";
  mysql = record { dsn = ""; max_open_conns = pos 25; max_idle_conns = pos 5 };
  mq_type = "chan";
  features = record {
    seed = true;
    mq_enabled = true;
    transcode_enabled = true;
    reconcile_enabled = true;
    recommend_enabled = true;
  };
  reconcile_threshold = pos 5;
  reconcile_interval = pos (300 * second);
  rate_limit = record {
    login = rule 5 10;
    upload = rule 10 15;
    video = rule 100 200;
    feed = rule 50 100;
    user = rule 20 50;
    fallback = rule 500 1000;
  };
  oss = record { endpoint = ""; access_key = ""; secret_key = ""; bucket = ""; cdn_domain = "" };
}

unfoldable pub redis_enabled : Config → Bool
redis_enabled c = not (str_eq c.redis_addr "")

unfoldable pub mysql_enabled : Config → Bool
mysql_enabled c = not (str_eq c.mysql.dsn "")

unfoldable pub oss_enabled : Config → Bool
oss_enabled c = not (str_eq c.oss.endpoint "")

abbrev pair : RateLimitRule → ℤ × ℤ
pair r = (r.qps, r.burst)

unfoldable pub rate_limit_rules : Config → List (String × (ℤ × ℤ))
rate_limit_rules c =
    ("/api/login", pair c.rate_limit.login)
    ∷ ("/api/upload", pair c.rate_limit.upload)
    ∷ ("/api/videos", pair c.rate_limit.video)
    ∷ ("/api/feed", pair c.rate_limit.feed)
    ∷ ("/api/rec", pair c.rate_limit.feed)
    ∷ ("/api/users", pair c.rate_limit.user)
    ∷ []

-- The errors of `validateProductionConfig`.
pub data ConfigError : Type 0 where
  weak_secret seeded no_mysql no_redis no_mq chan_mq no_oss : ConfigError

unfoldable pub secret_is_weak : String → Bool
secret_is_weak s =
    str_eq s ""
    || str_eq s "dev-secret-change-in-production"
    || str_eq s "change-me-in-production"
    || str_eq s "prod-change-me"
    || ltb (len s) 32

unfoldable pub oss_is_missing : Config → Bool
unfolding oss_enabled
oss_is_missing c =
    not (oss_enabled c)
    || str_eq c.oss.access_key ""
    || str_eq c.oss.secret_key ""
    || str_eq c.oss.bucket ""

unfoldable pub validate_production_config : Config → Option ConfigError
unfolding secret_is_weak mysql_enabled redis_enabled oss_is_missing
validate_production_config c =
    if not (str_eq c.server.mode "release")
    then none
    else if secret_is_weak c.jwt_secret
    then some weak_secret
    else if c.features.seed
    then some seeded
    else if not (mysql_enabled c)
    then some no_mysql
    else if not (redis_enabled c)
    then some no_redis
    else if not c.features.mq_enabled
    then some no_mq
    else if str_eq c.mq_type "chan"
    then some chan_mq
    else if oss_is_missing c
    then some no_oss
    else none

-- What the readiness check complains of.
pub data ReadyError : Type 0 where
  mysql_down redis_down redis_stream_without_redis oss_not_initialized oss_down : ReadyError

abbrev unless : Bool → ReadyError → List ReadyError
unless true e = []
unless false e = e ∷ []

-- The check that `newReadyChecker` makes. The first three are the answers of the database, Redis and
-- the object storage, `none` for a client that is nil; there is an error where the list is not empty.
unfoldable pub ready_check :
    (db_ping redis_ping oss_health : Option Bool)
    → (mq_enabled : Bool) → (mq_type : String) → (require_oss : Bool) → List ReadyError
ready_check db_ping redis_ping oss_health mq_enabled mq_type require_oss =
    (elim db_ping [ none ↦ [] | some up ↦ unless up mysql_down ])
    ++ ((elim redis_ping [
      | none ↦ unless (not (mq_enabled && str_eq mq_type "redis_stream")) redis_stream_without_redis
      | some up ↦ unless up redis_down
    ])
        ++ (if require_oss
            then elim oss_health [ none ↦ oss_not_initialized ∷ [] | some up ↦ unless up oss_down ]
            else []))
