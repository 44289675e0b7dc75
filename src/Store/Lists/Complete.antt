-- ===== src/Store/Lists/Complete.antt =====
-- What a client sees that follows the cursors of `ListVideos`, `ListUserVideos` and
-- `FollowingFeed`, in any state that the operations of the store reach.

use mathlib.Core.List.Permᴰ
use go_shortvideo.Prelude.{
  ℕ, zero, suc, ◌<◌, ◌≤◌, ◌≡◌, refl, ap, ◌∙◌, Bool, true, some, none, List, [], ◌∷◌, arith, All,
  keep, length, Bool-cases, inl, inr, ◌==◌, if◌then◌else◌,
}
use go_shortvideo.Prelude.Int.{ℤ, pos, negsuc}
use go_shortvideo.Dict.{Dict, lookup, values, has_key}
use go_shortvideo.Dict.Keys.{lookup_entries, lookup-values}
use go_shortvideo.IdSet.{contains}
use go_shortvideo.Sort.{sort_slice-perm, perm_All, perm_contains}
use go_shortvideo.Model.{Video}
use go_shortvideo.Store.State.{Store, new, Result, ok, err, not_found, ids_of}
use go_shortvideo.Store.Invariant.Mirror.{follows}
use go_shortvideo.Store.Users.{Bcrypt}
use go_shortvideo.Store.Calls.{Call, run}
use go_shortvideo.Store.Invariant.Keys.{run-Keyed, new-Keyed, videos-Distinct, videos-no_zero}
use go_shortvideo.Store.Lists.{
  later, sort_by_id_desc, page_of, clamp_limit, next_cursor, list_videos, list_user_videos,
  following_feed,
}
use go_shortvideo.Store.Lists.Paging.{Decreasing, ids, feed_of, feed_of-Decreasing}
use go_shortvideo.Store.Lists.Walk.{walk, walk_lem}

-- A client takes an error for an empty page.
abbrev pub videos_of : Result (List Video) → List Video
videos_of (ok vs) = vs
videos_of (err e) = []

-- `list` holds the stored videos that are wanted, each once, newest first.
pub record IsFeed (wanted : Video → Bool) (s : Store) (list : List Video) : Type 0 where
  pub falling : Decreasing list
  pub stored : All (λ v. (lookup v.id s.videos ≡ some v) × (wanted v ≡ true)) list
  pub all :
      (k : ℕ) (v : Video)
      → lookup k s.videos ≡ some v
      → wanted v ≡ true
      → contains k (ids list) ≡ true

keep_wanted :
    (wanted : Video → Bool) (m : Dict Video) (vs : List Video)
    → All (λ v. lookup v.id m ≡ some v) vs
    → All (λ v. (lookup v.id m ≡ some v) × (wanted v ≡ true)) (keep wanted vs)
keep_wanted wanted m [] h = tt
keep_wanted wanted m (v ∷ vs) h = elim (Bool-cases (wanted v)) [
  | inl e ↦ rw e ((h.0, e), keep_wanted wanted m vs h.1)
  | inr e ↦ rw e (keep_wanted wanted m vs h.1)
]

contains-wanted :
    (wanted : Video → Bool) (k : ℕ) (v : Video) (m : Dict Video)
    → lookup k m ≡ some v
    → v.id ≡ k
    → wanted v ≡ true
    → contains k (ids (keep wanted (values m))) ≡ true
unfolding lookup contains
contains-wanted wanted k v [] h e w = cc
contains-wanted wanted k v (x ∷ m) h e w = ground (arith, contains-wanted wanted k v m)

positive_stored :
    (P : Video → Type 0) (m : Dict Video) (vs : List Video)
    → lookup 0 m ≡ none
    → All (λ v. (lookup v.id m ≡ some v) × P v) vs
    → All (λ v. 0 < v.id) vs
positive_stored P m [] z h = tt
positive_stored P m (v ∷ vs) z h = (grind (arith, h.0.0), positive_stored P m vs z h.1)

-- The list that is cut into pages is the one that it should be.
feed_of-IsFeed :
    (bcrypt : Bcrypt) (calls : List Call) (wanted : Video → Bool)
    → let s = run bcrypt calls new in IsFeed wanted s (feed_of wanted s.videos)
unfolding feed_of sort_by_id_desc
feed_of-IsFeed bcrypt calls wanted =
    let s = run bcrypt calls new in
    let m = s.videos in
    let keyed = run-Keyed bcrypt calls new new-Keyed in
    let once = videos-Distinct bcrypt calls in
    let kept = keep wanted (values m) in
    let perm = sort_slice-perm later kept in
    record {
      falling = feed_of-Decreasing wanted m once keyed.videos.at;
      stored =
          perm_All (λ v. (lookup v.id m ≡ some v) × (wanted v ≡ true)) perm
            (keep_wanted wanted m (values m)
              (lookup-values (λ v. v.id) m keyed.videos.at m (lookup_entries m once)));
      all = λ k v h w.
          perm_contains k (Permᴰ.map (λ (x : Video). x.id) perm)
          ∙ contains-wanted wanted k v m h (keyed.videos.at k v h) w;
    }

-- Every limit that a client asks for is cut down to 1 to 50.
pub clamp_limit_bounds : (limit : ℤ) → (0 < clamp_limit limit) × (clamp_limit limit ≤ 50)
unfolding clamp_limit
clamp_limit_bounds (pos zero) = omega arith
clamp_limit_bounds (pos (suc n)) = ground arith
clamp_limit_bounds (negsuc n) = omega arith

module _ (bcrypt : Bcrypt) (calls : List Call) (wanted : Video → Bool) where
  pages-walk :
      (k : ℕ)
      → 0 < k
      → let s = run bcrypt calls new in
        let list = feed_of wanted s.videos in
        walk (λ c. page_of wanted c k s.videos) (suc (length list)) 0 ≡ list
  unfolding next_cursor
  pages-walk zero h = elim h [ ]
  pages-walk (suc n) h =
      let s = run bcrypt calls new in
      let i = feed_of-IsFeed bcrypt calls wanted in
      let list = feed_of wanted s.videos in
      walk_lem wanted n s.videos i.falling
        (positive_stored (λ v. wanted v ≡ true) s.videos list (videos-no_zero bcrypt calls)
          i.stored)
        (suc (length list)) [] list refl (omega arith)

-- In any state that the operations reach, a client that follows the cursor of `ListVideos` from
-- page to page, with any limit and while nothing is published, is given every stored video exactly once, newest first, and then an empty
-- page, after at most one page more than there are videos.
pub list_videos-walk :
    (bcrypt : Bcrypt) (calls : List Call) (limit : ℤ)
    → let s = run bcrypt calls new in
      (list : List Video) × IsFeed (λ v. true) s list
      × (walk (λ c. list_videos c limit s) (suc (length list)) 0 ≡ list)
unfolding list_videos
list_videos-walk bcrypt calls limit = (
  feed_of (λ v. true) (run bcrypt calls new).videos,
  feed_of-IsFeed bcrypt calls (λ v. true),
  pages-walk bcrypt calls (λ v. true) (clamp_limit limit) (clamp_limit_bounds limit).0,
)

-- In any state that the operations reach, and for a user that exists, a client that follows the
-- cursor of `FollowingFeed` with any limit is given exactly the videos of the authors whom the user
-- follows, each once, newest first, and then an empty page, after at most one page more than there
-- are such videos.
pub following_feed-walk :
    (bcrypt : Bcrypt) (calls : List Call) (user : ℕ) (limit : ℤ)
    → let s = run bcrypt calls new in
      has_key user s.users ≡ true
      → (list : List Video) × IsFeed (λ v. follows user v.author_id s) s list
        × (walk (λ c. videos_of (following_feed user c limit s)) (suc (length list)) 0 ≡ list)
unfolding following_feed follows
following_feed-walk bcrypt calls user limit known =
    let s = run bcrypt calls new in
    let wanted = λ (v : Video). contains v.author_id (ids_of user s.following) in
    (
      feed_of wanted s.videos,
      feed_of-IsFeed bcrypt calls wanted,
      ap
            (λ (b : Bool).
              walk
                (λ c.
                  videos_of (
                    if b
                    then ok (page_of wanted c (clamp_limit limit) s.videos)
                    else err not_found))
                (suc (length (feed_of wanted s.videos))) 0)
            known
          ∙ pages-walk bcrypt calls wanted (clamp_limit limit) (clamp_limit_bounds limit).0,
    )

-- In any state that the operations reach, and for an author that exists, a client that follows the
-- cursor of `ListUserVideos` with any limit is given exactly the author's videos, each once, newest
-- first, and then an empty page, after at most one page more than there are such videos.
pub list_user_videos-walk :
    (bcrypt : Bcrypt) (calls : List Call) (author : ℕ) (limit : ℤ)
    → let s = run bcrypt calls new in
      has_key author s.users ≡ true
      → (list : List Video) × IsFeed (λ v. v.author_id == author) s list
        × (walk (λ c. videos_of (list_user_videos author c limit s)) (suc (length list)) 0 ≡ list)
unfolding list_user_videos
list_user_videos-walk bcrypt calls author limit known =
    let s = run bcrypt calls new in
    let wanted = λ (v : Video). v.author_id == author in
    (
      feed_of wanted s.videos,
      feed_of-IsFeed bcrypt calls wanted,
      ap
            (λ (b : Bool).
              walk
                (λ c.
                  videos_of (
                    if b
                    then ok (page_of wanted c (clamp_limit limit) s.videos)
                    else err not_found))
                (suc (length (feed_of wanted s.videos))) 0)
            known
          ∙ pages-walk bcrypt calls wanted (clamp_limit limit) (clamp_limit_bounds limit).0,
    )
