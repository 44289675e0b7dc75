-- ===== src/Model.antt =====
-- internal/model/model.go: the records that the service stores. Ids, counts and timestamps, which
-- the service itself makes, are naturals; what a client may send signed is an integer.
use go_shortvideo.Prelude.{ℕ, String, List}
use go_shortvideo.Prelude.Int.{ℤ}

pub record User : Type 0 where
  pub id : ℕ
  pub username : String
  pub password_hash : String
  pub created_at : ℕ

pub data VideoStatus : Type 0 where
  uploading transcoding ready failed : VideoStatus

pub record Video : Type 0 where
  pub id : ℕ
  pub author_id : ℕ
  pub title : String
  pub play_url : String
  pub play_urls : List (String × String)
  pub cover_url : String
  pub duration : ℤ
  pub status : VideoStatus
  pub width : ℤ
  pub height : ℤ
  pub file_size : ℤ
  pub created_at : ℕ
  pub like_count : ℕ
  pub comment_count : ℕ
  pub view_count : ℕ

pub record Comment : Type 0 where
  pub id : ℕ
  pub video_id : ℕ
  pub user_id : ℕ
  pub content : String
  pub created_at : ℕ
