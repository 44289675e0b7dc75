-- ===== src/Tests/StoreRuns.antt =====
-- The store's theorems at the sample calls, and runs of its operations.
use go_shortvideo.Prelude.{
  suc, ◌≡◌, refl, true, false, some, List, if◌then◌else◌, map, length, All, String,
}
use text.Mathlib.Text.{◌==◌ as str_eq}
use go_shortvideo.Prelude.Int.{pos}
use go_shortvideo.Dict.{lookup, insert, has_key}
use go_shortvideo.TextDict
use go_shortvideo.IdSet.{contains, add, Distinct}
use go_shortvideo.Sort.{Ordered}
use go_shortvideo.Model.{Video, Comment, User}
use go_shortvideo.Store.State.{Store, new, ok, err, wrong_password, ids_of}
use go_shortvideo.Store.Users.{create_user, store_user, authenticate_user, get_user}
use go_shortvideo.Store.Users.Laws.{authenticate_user-create_user}
use go_shortvideo.Store.Videos.{create_video, make_video, get_video}
use go_shortvideo.Store.Likes.{like, like_video}
use go_shortvideo.Store.Likes.Counts.{likers}
use go_shortvideo.Store.Comments.{add_comment, comment_on, list_comments}
use go_shortvideo.Store.Follows.{follow}
use go_shortvideo.Store.Calls.{step, run}
use go_shortvideo.Store.Lists.{list_videos, following_feed}
use go_shortvideo.Store.Lists.Walk.{walk}
use go_shortvideo.Store.Lists.Complete.{IsFeed, videos_of, list_videos-walk, following_feed-walk}
use go_shortvideo.Store.Invariant.LikeCounts.{like_count-run}
use go_shortvideo.Store.Invariant.Comments.{list_comments-run, before}
use go_shortvideo.Store.Invariant.Mirror.{follows, followed_by, follows-run}
use go_shortvideo.Store.Spec.{nothing_yet, promised, promised_all}
use go_shortvideo.Store.Refinement.{Shows, run-Shows}
use go_shortvideo.Tests.Samples.{plain, calls, video_1}

abbrev world : Store
world = run plain calls new

program : Unit {0}
unfolding run step new create_user store_user create_video make_video follow like like_video
    add_comment comment_on lookup insert TextDict.insert contains add
program = tt

video_1-world : lookup 1 world.videos ≡ some video_1
unfolding program
video_1-world = refl

get_video-world : get_video 1 world ≡ ok video_1
unfolding program get_video
get_video-world = refl

like_count-run_example : video_1.like_count ≡ likers 1 (run plain calls new).user_likes
like_count-run_example = like_count-run plain calls 1 video_1 get_video-world

follows-run_example :
    (follows 3 1 (run plain calls new) ≡ followed_by 1 3 (run plain calls new))
    × (follows 3 3 (run plain calls new) ≡ false)
    × Distinct (ids_of 3 (run plain calls new).following)
    × Distinct (ids_of 3 (run plain calls new).followers)
follows-run_example = follows-run plain calls 3 1

list_comments-run_example :
    (list : List Comment) × (list_comments 1 (run plain calls new) ≡ ok list)
    × (length list ≡ video_1.comment_count)
    × All (λ c. c.video_id ≡ 1) list
    × Ordered before (map (λ c. c.id) list)
list_comments-run_example = list_comments-run plain calls 1 video_1 video_1-world

list_videos-walk_example :
    (list : List Video) × IsFeed (λ v. true) (run plain calls new) list
    × (walk (λ c. list_videos c (pos 1) (run plain calls new)) (suc (length list)) 0 ≡ list)
list_videos-walk_example = list_videos-walk plain calls (pos 1)

carol-known : has_key 3 world.users ≡ true
unfolding program
carol-known = refl

following_feed-walk_example :
    (list : List Video) × IsFeed
      (λ v. follows 3 v.author_id (run plain calls new))
      (run plain calls new)
      list
    × (walk
          (λ c. videos_of (following_feed 3 c (pos 1) (run plain calls new)))
          (suc (length list))
          0
        ≡ list)
following_feed-walk_example = following_feed-walk plain calls 3 (pos 1) carol-known

-- A second account under a name that is taken.
abbrev second : User
second = record { id = 4; username = "alice"; password_hash = "letmein"; created_at = 200 }

abbrev after : Store
after = (create_user plain 0 200 "alice" "letmein" world).1

created : create_user plain 0 200 "alice" "letmein" world ≡ (ok second, after)
unfolding program
created = refl

authenticate_user-create_user_example :
    (authenticate_user plain "alice" "letmein" after ≡ ok (record second { password_hash = "" }))
    × ((tried : String)
        → authenticate_user plain "alice" tried after ≡ (
            if str_eq second.password_hash tried
            then ok (record second { password_hash = "" })
            else err wrong_password))
    × (get_user second.id after ≡ ok second)
    × ((other tried : String)
        → str_eq "alice" other ≡ false
        → authenticate_user plain other tried after ≡ authenticate_user plain other tried world)
authenticate_user-create_user_example =
    authenticate_user-create_user plain 0 200 "alice" "letmein" world second after created

run-Shows_example : Shows (run plain calls new) (promised_all plain calls nothing_yet)
run-Shows_example = run-Shows plain calls

-- The abstract state after the sample calls.
promised_calls :
    let t = promised_all plain calls nothing_yet in
    (t.users ≡ 3) × (t.videos ≡ 2) × (t.liked 3 1 ≡ true) × (t.follows 1 3 ≡ false)
unfolding promised_all promised
promised_calls = (refl, refl, refl, refl)
