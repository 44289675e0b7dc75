-- ===== src/Store/State.antt =====
-- The state of `Store` and the errors of its operations. The records that the source shares by
-- pointer between `users` and `userByName` are never written after `CreateUser`, so two values do.
use go_shortvideo.Prelude.{ℕ, String, List, [], ◌≡◌, ◌==◌, if◌then◌else◌, arith}
use go_shortvideo.Dict.{Dict, lookup_or, insert, lookup-insert}
use go_shortvideo.Model.{User, Video, Comment}

pub data Error : Type 0 where
  not_found invalid wrong_password short_password hash_failed : Error

pub data Result {ℓ} (A : Type ℓ) : Type ℓ where
  ok : A → Result A
  err : Error → Result A

pub record Store : Type 0 where
  pub users : Dict User
  pub user_by_name : List (String × User)
  pub videos : Dict Video
  pub comments : Dict Comment
  pub user_likes : Dict (List ℕ)
  pub following : Dict (List ℕ)
  pub followers : Dict (List ℕ)
  pub video_comments : Dict (List ℕ)
  pub user_seq : ℕ
  pub video_seq : ℕ
  pub comment_seq : ℕ

-- `New`
unfoldable pub new : Store
new = record {
  users = [];
  user_by_name = [];
  videos = [];
  comments = [];
  user_likes = [];
  following = [];
  followers = [];
  video_comments = [];
  user_seq = 0;
  video_seq = 0;
  comment_seq = 0;
}

-- A nil map or slice reads as an empty one.
abbrev pub ids_of : ℕ → Dict (List ℕ) → List ℕ
ids_of k m = lookup_or [] k m

pub ids_of-insert :
    (k j : ℕ) (x : List ℕ) (m : Dict (List ℕ))
    → ids_of j (insert k x m) ≡ (if k == j then x else ids_of j m)
ids_of-insert k j x m = ground (arith, lookup-insert k j x m)
