-- ===== src/Store/Calls.antt =====
-- A run of the store: every operation that writes to it, in any order that the lock admits.
use go_shortvideo.Prelude.{ℕ, String, List, [], ◌∷◌}
use go_shortvideo.Model.{VideoStatus}
use go_shortvideo.Store.State.{Store}
use go_shortvideo.Store.Users
use go_shortvideo.Store.Users.{Bcrypt}
use go_shortvideo.Store.Videos
use go_shortvideo.Store.Videos.{Draft}
use go_shortvideo.Store.Likes
use go_shortvideo.Store.Comments
use go_shortvideo.Store.Follows

pub data Call : Type 0 where
  create_user : (salt now : ℕ) → String → String → Call
  create_video : (now author : ℕ) → Draft → Call
  update_video_status : ℕ → VideoStatus → Call
  update_video_playback_urls : ℕ → String → String → List (String × String) → Call
  like unlike : (user video : ℕ) → Call
  add_comment : (now video user : ℕ) → String → Call
  follow unfollow : (follower followee : ℕ) → Call

module _ (bcrypt : Bcrypt) where
  unfoldable pub step : Call → Store → Store
  step (Call.create_user salt now name password) s =
      (Users.create_user bcrypt salt now name password s).1
  step (Call.create_video now author d) s = (Videos.create_video now author d s).1
  step (Call.update_video_status id st) s = (Videos.update_video_status id st s).1
  step (Call.update_video_playback_urls id p c us) s =
      (Videos.update_video_playback_urls id p c us s).1
  step (Call.like user video) s = (Likes.like user video s).1
  step (Call.unlike user video) s = (Likes.unlike user video s).1
  step (Call.add_comment now video user content) s =
      (Comments.add_comment now video user content s).1
  step (Call.follow a b) s = (Follows.follow a b s).1
  step (Call.unfollow a b) s = (Follows.unfollow a b s).1

  unfoldable pub run : List Call → Store → Store
  run [] s = s
  run (c ∷ cs) s = run cs (step c s)
