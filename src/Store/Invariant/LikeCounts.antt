-- ===== src/Store/Invariant/LikeCounts.antt =====
-- The like count of a video against the sets of the users that `Like` and `Unlike` keep.
use go_shortvideo.Prelude.{ℕ, ◌≡◌, refl, some, none, arith, ◌∷◌, [], List}
use go_shortvideo.Dict.{lookup, lookup-insert}
use go_shortvideo.Store.State.{Store, new, ok}
use go_shortvideo.Store.Users.{Bcrypt, create_user, store_user}
use go_shortvideo.Store.Videos.{
  get_video, create_video, make_video, update_video_status, update_video_playback_urls,
}
use go_shortvideo.Store.Likes.{like, like_video, unlike, unlike_video}
use go_shortvideo.Store.Likes.Counts.{likers, likers-add, likers-remove}
use go_shortvideo.Store.Comments.{add_comment, comment_on}
use go_shortvideo.Store.Follows.{follow, unfollow}
use go_shortvideo.Store.Calls.{Call, step, run}
use go_shortvideo.Store.Invariant.Keys.{Keyed, new-Keyed, step-Keyed}
use go_shortvideo.Model.{Video}

pub record LikesCounted (s : Store) : Type 0 where
  pub counted :
      (k : ℕ) (v : Video) → lookup k s.videos ≡ some v → v.like_count ≡ likers k s.user_likes
  pub known : (k : ℕ) → lookup k s.videos ≡ none → likers k s.user_likes ≡ 0

new-LikesCounted : LikesCounted new
unfolding new lookup likers
new-LikesCounted = record { counted = λ k v h. cc; known = λ k h. refl }

like-LikesCounted :
    (user video : ℕ) (s : Store) → LikesCounted s → LikesCounted (like user video s).1
unfolding like like_video
like-LikesCounted user video s i = record {
  counted = λ k v h. grind (arith, i.counted, lookup-insert, likers-add);
  known = λ k h. grind (arith, i.known, lookup-insert, likers-add);
}

unlike-LikesCounted :
    (user video : ℕ) (s : Store) → LikesCounted s → LikesCounted (unlike user video s).1
unfolding unlike unlike_video
unlike-LikesCounted user video s i = record {
  counted = λ k v h. grind (arith, i.counted, lookup-insert, likers-remove);
  known = λ k h. grind (arith, i.known, lookup-insert, likers-remove);
}

module _ (bcrypt : Bcrypt) where
  step-LikesCounted :
      (c : Call) (s : Store) → Keyed s → LikesCounted s → LikesCounted (step bcrypt c s)
  unfolding step create_user store_user create_video make_video update_video_status
      update_video_playback_urls add_comment comment_on follow unfollow
  step-LikesCounted (Call.create_video now author d) s keyed i = record {
    counted = λ k v h. grind (arith, i.counted, i.known, lookup-insert, keyed.videos.fresh);
    known = λ k h. grind (arith, i.known, lookup-insert);
  }
  step-LikesCounted (Call.like a b) s keyed i = like-LikesCounted a b s i
  step-LikesCounted (Call.unlike a b) s keyed i = unlike-LikesCounted a b s i
  step-LikesCounted c s keyed i = record {
    counted = λ k v h. grind (arith, i.counted, lookup-insert);
    known = λ k h. grind (arith, i.known, lookup-insert);
  }

  run-LikesCounted :
      (cs : List Call) (s : Store) → Keyed s → LikesCounted s → LikesCounted (run bcrypt cs s)
  unfolding run
  run-LikesCounted [] s keyed i = i
  run-LikesCounted (c ∷ cs) s keyed i =
      run-LikesCounted cs (step bcrypt c s) (step-Keyed bcrypt c s keyed)
        (step-LikesCounted c s keyed i)

  -- After any sequence of the store's operations from an empty store, whatever they returned, the
  -- like count of every stored video is the number of users whose set of likes holds the video.
  pub like_count-run :
      (cs : List Call) (id : ℕ) (v : Video)
      → get_video id (run bcrypt cs new) ≡ ok v
      → v.like_count ≡ likers id (run bcrypt cs new).user_likes
  unfolding get_video
  like_count-run cs id v h =
      let i = run-LikesCounted cs new new-Keyed new-LikesCounted in ground (arith, i.counted id v)
