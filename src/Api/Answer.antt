-- ===== src/Api/Answer.antt =====
-- The answers of internal/api, without the texts of their messages, and the helpers of handler.go.
use go_shortvideo.Prelude.{ℕ, Bool, true, false, not, Option, none, some, List, [], ◌∷◌, String}
use go_shortvideo.Prelude.Int.{ℤ, pos, negsuc}
use go_shortvideo.Strconv.{parse_int}
use go_shortvideo.Model.{User, Video, Comment}
use go_shortvideo.Store.State.{
  Error, not_found, invalid, wrong_password, short_password, hash_failed,
}
use go_shortvideo.Auth.Context.{Stored, Context}
use go_shortvideo.Auth.Token.{user_id_from_context, positive}
use go_shortvideo.Api.Service.{Services}

-- `videoItem`
pub record VideoItem : Type 0 where
  pub video : Video
  pub liked : Bool

-- The field `data`; a failure has none.
pub data Data (services : Services) : Type 0 where
  failure : Data services
  liking : (changed liked : Bool) → (like_count : ℕ) → Data services
  following : Bool → Data services
  comment : Comment → Data services
  comments : List Comment → (total : ℕ) → Data services
  user : User → Data services
  session : (token : List ℕ) → User → Data services
  profile : User → (following followers : ℕ) → Data services
  video : Video → Data services
  video_status : Video → (status_text : String) → Data services
  item : VideoItem → Data services
  feed : List VideoItem → (next_cursor : ℕ) → Data services
  feed_page : List services.FeedItem → (next_cursor : ℤ) → Data services
  rec_page : services.RecPage → Data services
  health : (well : Bool) → Data services
  uploaded : Video → (play_url cover_url filename : String) → Data services

pub record Response (services : Services) : Type 0 where
  pub status : ℕ
  pub body : Data services

module _ {services : Services} where
  abbrev pub success : Data services → Response services
  success d = record { status = 200; body = d }

  abbrev pub fail : ℕ → Response services
  fail status = record { status = status; body = failure }

unfoldable pub store_err_status : Error → ℕ
store_err_status not_found = 404
store_err_status invalid = 400
store_err_status wrong_password = 500
store_err_status short_password = 500
store_err_status hash_failed = 500

-- The record that an id from a client can name.
abbrev pub record_id : ℤ → Option ℕ
record_id (pos n) = some n
record_id (negsuc n) = none

unfoldable pub query_int : List ℕ → ℤ → ℤ
query_int [] def = def
query_int (c ∷ raw) def = elim (parse_int (c ∷ raw)) [ none ↦ def | some v ↦ v ]

-- Whether `currentUserID` looks at the header.
abbrev pub header_forbidden : Stored Bool → Bool
header_forbidden Stored.unset = false
header_forbidden Stored.other_type = false
header_forbidden (Stored.value allow) = not allow

unfoldable pub header_user : List ℕ → Option ℕ
header_user [] = none
header_user (c ∷ raw) = elim (parse_int (c ∷ raw)) [ none ↦ none | some id ↦ positive id ]

unfoldable pub current_user_id : Context → Option ℕ
current_user_id c = elim (user_id_from_context c) [
  | some uid ↦ some uid
  | none ↦ elim (header_forbidden c.allow_x_user_id) [
    | true ↦ none
    | false ↦ header_user c.x_user_id
  ]
]
