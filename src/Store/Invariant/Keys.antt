-- ===== src/Store/Invariant/Keys.antt =====
-- The keys of the tables against the ids of the records and the sequence numbers.
use go_shortvideo.Prelude.{ℕ, ◌+◌, ◌<◌, ◌≡◌, refl, some, none, arith, ◌∷◌, [], List}
use go_shortvideo.Dict.{Dict, lookup, insert, lookup-insert, keys}
use go_shortvideo.Dict.Keys.{insert-Distinct}
use go_shortvideo.IdSet.{Distinct}
use go_shortvideo.Store.State.{Store, new}
use go_shortvideo.Store.Users.{Bcrypt, create_user, store_user}
use go_shortvideo.Store.Videos.{
  create_video, make_video, update_video_status, update_video_playback_urls,
}
use go_shortvideo.Store.Likes.{like, like_video, unlike, unlike_video}
use go_shortvideo.Store.Comments.{add_comment, comment_on}
use go_shortvideo.Store.Follows.{follow, unfollow}
use go_shortvideo.Store.Calls.{Call, step, run}
use go_shortvideo.Model.{User, Video, Comment}

-- A table of records under a sequence number.
pub record KeyedTable {V : Type 0} (id_of : V → ℕ) (seq : ℕ) (m : Dict V) : Type 0 where
  pub at : (k : ℕ) (v : V) → lookup k m ≡ some v → id_of v ≡ k
  pub fresh : (k : ℕ) → seq < k → lookup k m ≡ none

module _ {V : Type 0} {id_of : V → ℕ} {seq : ℕ} {m : Dict V} (t : KeyedTable id_of seq m) where
  insert_next : (v : V) → id_of v ≡ seq + 1 → KeyedTable id_of (seq + 1) (insert (seq + 1) v m)
  insert_next v e = record {
    at = λ k w h. grind (arith, t.at, lookup-insert);
    fresh = λ k h. grind (arith, t.fresh, lookup-insert);
  }

  insert_kept :
      (k : ℕ) (v w : V)
      → lookup k m ≡ some v
      → id_of w ≡ id_of v
      → KeyedTable id_of seq (insert k w m)
  insert_kept k v w found e = record {
    at = λ j x h. grind (arith, t.at, lookup-insert);
    fresh = λ j h. grind (arith, t.fresh, lookup-insert);
  }

pub record Keyed (s : Store) : Type 0 where
  pub users : KeyedTable {V = User} (λ u. u.id) s.user_seq s.users
  pub videos : KeyedTable {V = Video} (λ v. v.id) s.video_seq s.videos
  pub comments : KeyedTable {V = Comment} (λ c. c.id) s.comment_seq s.comments

pub new-Keyed : Keyed new
unfolding new lookup
new-Keyed = record {
  users = record { at = λ k u h. cc; fresh = λ k h. refl };
  videos = record { at = λ k u h. cc; fresh = λ k h. refl };
  comments = record { at = λ k u h. cc; fresh = λ k h. refl };
}

module _ (bcrypt : Bcrypt) where
  pub step-Keyed : (c : Call) (s : Store) → Keyed s → Keyed (step bcrypt c s)
  unfolding step create_user store_user create_video make_video update_video_status
      update_video_playback_urls like like_video unlike unlike_video add_comment comment_on follow
      unfollow
  step-Keyed (Call.create_user salt now name password) s i = grind (arith, insert_next i.users)
  step-Keyed (Call.create_video now author d) s i = grind (arith, insert_next i.videos)
  step-Keyed (Call.update_video_status id st) s i = grind (arith, insert_kept i.videos)
  step-Keyed (Call.update_video_playback_urls id p c us) s i = grind (arith, insert_kept i.videos)
  step-Keyed (Call.like user video) s i = grind (arith, insert_kept i.videos)
  step-Keyed (Call.unlike user video) s i = grind (arith, insert_kept i.videos)
  step-Keyed (Call.add_comment now video user content) s i =
      grind (arith, insert_kept i.videos, insert_next i.comments)
  step-Keyed (Call.follow a b) s i = grind arith
  step-Keyed (Call.unfollow a b) s i = record {
    users = i.users;
    videos = i.videos;
    comments = i.comments;
  }

  -- In every state that the operations reach, the tables are keyed.
  pub run-Keyed : (cs : List Call) (s : Store) → Keyed s → Keyed (run bcrypt cs s)
  unfolding run
  run-Keyed [] s i = i
  run-Keyed (c ∷ cs) s i = run-Keyed cs (step bcrypt c s) (step-Keyed c s i)

  -- Every video id stands once in the table, and none is 0.
  step-Distinct :
      (c : Call) (s : Store) → Distinct (keys s.videos) → Distinct (keys (step bcrypt c s).videos)
  unfolding step create_user store_user create_video update_video_status update_video_playback_urls
      like like_video unlike unlike_video add_comment comment_on follow unfollow
  step-Distinct (Call.create_user salt now name password) s d = grind arith
  step-Distinct c s d = grind (arith, insert-Distinct)

  step-no_zero :
      (c : Call) (s : Store) → lookup 0 s.videos ≡ none → lookup 0 (step bcrypt c s).videos ≡ none
  unfolding step create_user store_user create_video update_video_status update_video_playback_urls
      like like_video unlike unlike_video add_comment comment_on follow unfollow
  step-no_zero (Call.create_user salt now name password) s d = grind arith
  step-no_zero c s d = grind (arith, lookup-insert)

  run-Distinct :
      (cs : List Call) (s : Store)
      → Distinct (keys s.videos)
      → Distinct (keys (run bcrypt cs s).videos)
  unfolding run
  run-Distinct [] s d = d
  run-Distinct (c ∷ cs) s d = run-Distinct cs (step bcrypt c s) (step-Distinct c s d)

  run-no_zero :
      (cs : List Call) (s : Store)
      → lookup 0 s.videos ≡ none
      → lookup 0 (run bcrypt cs s).videos ≡ none
  unfolding run
  run-no_zero [] s d = d
  run-no_zero (c ∷ cs) s d = run-no_zero cs (step bcrypt c s) (step-no_zero c s d)

  pub videos-Distinct : (cs : List Call) → Distinct (keys (run bcrypt cs new).videos)
  unfolding new
  videos-Distinct cs = run-Distinct cs new tt

  pub videos-no_zero : (cs : List Call) → lookup 0 (run bcrypt cs new).videos ≡ none
  unfolding new lookup
  videos-no_zero cs = run-no_zero cs new refl
