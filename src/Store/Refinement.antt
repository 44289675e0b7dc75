-- ===== src/Store/Refinement.antt =====
-- The store does what it promises.
use go_shortvideo.Prelude.{ℕ, ◌≡◌, refl, List, [], ◌∷◌, arith}
use go_shortvideo.Dict.{lookup, lookup-insert, has_key}
use go_shortvideo.IdSet.{contains, contains-add, contains-remove}
use go_shortvideo.Store.State.{Store, new}
use go_shortvideo.Store.Users.{Bcrypt, create_user, store_user}
use go_shortvideo.Store.Videos.{create_video, update_video_status, update_video_playback_urls}
use go_shortvideo.Store.Likes.{like, like_video, unlike, unlike_video, has_liked}
use go_shortvideo.Store.Comments.{add_comment, comment_on}
use go_shortvideo.Store.Follows.{follow, unfollow}
use go_shortvideo.Store.Likes.Laws.{has_liked-like, has_liked-unlike}
use go_shortvideo.Store.Invariant.Mirror.{follows, ids_of-remove_at}
use go_shortvideo.Store.Calls.{Call, step, run}
use go_shortvideo.Store.Spec.{Spec, nothing_yet, up_to, promised, promised_all}

-- What can be read from the store is what the abstract state says.
pub record Shows (s : Store) (t : Spec) : Type 0 where
  pub users : (u : ℕ) → has_key u s.users ≡ up_to t.users u
  pub videos : (v : ℕ) → has_key v s.videos ≡ up_to t.videos v
  pub liked : (u v : ℕ) → has_liked u v s ≡ t.liked u v
  pub follows : (a b : ℕ) → follows a b s ≡ t.follows a b
  pub user_seq : s.user_seq ≡ t.users
  pub video_seq : s.video_seq ≡ t.videos

Shows-new : Shows new nothing_yet
unfolding new lookup has_liked contains follows
Shows-new = record {
  users = λ u. ground arith;
  videos = λ v. ground arith;
  liked = λ u v. refl;
  follows = λ a b. refl;
  user_seq = refl;
  video_seq = refl;
}

module _ (bcrypt : Bcrypt) where
  Shows-step :
      (c : Call) (s : Store) (t : Spec) → Shows s t → Shows (step bcrypt c s) (promised bcrypt c t)
  unfolding step promised create_user store_user create_video update_video_status
      update_video_playback_urls add_comment comment_on like like_video unlike unlike_video follow
      unfollow has_liked follows contains
  Shows-step (Call.create_user salt now name password) s t i = record {
    users = λ u. grind (arith, i.users, i.user_seq, lookup-insert);
    videos = λ v. grind (arith, i.videos);
    liked = λ u v. grind (arith, i.liked);
    follows = λ c d. grind (arith, i.follows);
    user_seq = grind (arith, i.user_seq);
    video_seq = grind (arith, i.video_seq);
  }
  Shows-step (Call.create_video now author d) s t i = record {
    users = λ u. grind (arith, i.users);
    videos = λ v. grind (arith, i.videos, i.users, i.video_seq, lookup-insert);
    liked = λ u v. grind (arith, i.liked);
    follows = λ c d. grind (arith, i.follows);
    user_seq = grind (arith, i.user_seq);
    video_seq = grind (arith, i.video_seq, i.users);
  }
  Shows-step (Call.update_video_status id st) s t i = record {
    users = λ u. grind (arith, i.users);
    videos = λ v. grind (arith, i.videos, lookup-insert);
    liked = λ u v. grind (arith, i.liked);
    follows = λ c d. grind (arith, i.follows);
    user_seq = grind (arith, i.user_seq);
    video_seq = grind (arith, i.video_seq);
  }
  Shows-step (Call.update_video_playback_urls id p c us) s t i = record {
    users = λ u. grind (arith, i.users);
    videos = λ v. grind (arith, i.videos, lookup-insert);
    liked = λ u v. grind (arith, i.liked);
    follows = λ c d. grind (arith, i.follows);
    user_seq = grind (arith, i.user_seq);
    video_seq = grind (arith, i.video_seq);
  }
  Shows-step (Call.add_comment now video user content) s t i = record {
    users = λ u. grind (arith, i.users);
    videos = λ v. grind (arith, i.videos, lookup-insert);
    liked = λ u v. grind (arith, i.liked);
    follows = λ c d. grind (arith, i.follows);
    user_seq = grind (arith, i.user_seq);
    video_seq = grind (arith, i.video_seq);
  }
  Shows-step (Call.like u v) s t i = record {
    users = λ u. grind (arith, i.users);
    videos = λ v. grind (arith, i.videos, lookup-insert);
    liked = λ u v. grind (arith, i.liked, i.users, i.videos, has_liked-like);
    follows = λ c d. grind (arith, i.follows);
    user_seq = grind (arith, i.user_seq);
    video_seq = grind (arith, i.video_seq);
  }
  Shows-step (Call.unlike u v) s t i = record {
    users = λ u. grind (arith, i.users);
    videos = λ v. grind (arith, i.videos, lookup-insert);
    liked = λ u v. grind (arith, i.liked, i.users, i.videos, has_liked-unlike);
    follows = λ c d. grind (arith, i.follows);
    user_seq = grind (arith, i.user_seq);
    video_seq = grind (arith, i.video_seq);
  }
  Shows-step (Call.follow a b) s t i = record {
    users = λ u. grind (arith, i.users);
    videos = λ v. grind (arith, i.videos);
    liked = λ u v. grind (arith, i.liked);
    follows = λ c d. grind (arith, i.follows, i.users, lookup-insert, contains-add);
    user_seq = grind (arith, i.user_seq);
    video_seq = grind (arith, i.video_seq);
  }
  Shows-step (Call.unfollow a b) s t i = record {
    users = λ u. grind (arith, i.users);
    videos = λ v. grind (arith, i.videos);
    liked = λ u v. grind (arith, i.liked);
    follows = λ c d. grind (arith, i.follows, ids_of-remove_at, contains-remove);
    user_seq = grind (arith, i.user_seq);
    video_seq = grind (arith, i.video_seq);
  }

  Shows-run :
      (cs : List Call) (s : Store) (t : Spec)
      → Shows s t
      → Shows (run bcrypt cs s) (promised_all bcrypt cs t)
  unfolding run promised_all
  Shows-run [] s t i = i
  Shows-run (c ∷ cs) s t i =
      Shows-run cs (step bcrypt c s) (promised bcrypt c t) (Shows-step c s t i)

  -- Any run of the store is a run of the abstract state, which knows only two counters and two
  -- relations: afterwards the store has the accounts and the videos with the ids up to the counters,
  -- HasLiked answers by the one relation, and the following index holds the other.
  pub run-Shows : (cs : List Call) → Shows (run bcrypt cs new) (promised_all bcrypt cs nothing_yet)
  run-Shows cs = Shows-run cs new nothing_yet Shows-new
