-- ===== src/Store/Likes/Laws.antt =====
-- Likes as a relation between users and videos.
use go_shortvideo.Prelude.{
  ℕ, ◌≡◌, refl, not, Bool, true, false, arith, ◌==◌, ◌&&◌, if◌then◌else◌, some, none, Option, List,
  [], ◌∷◌,
}
use go_shortvideo.Dict.{Dict, lookup, insert, lookup-insert, has_key}
use go_shortvideo.IdSet.{contains, add, remove, contains-add, contains-remove}
use go_shortvideo.Store.State.{Store, ids_of, ok, err, not_found}
use go_shortvideo.Store.Likes.{
  like, like_video, unlike, unlike_video, has_liked, batch_has_liked, batch_has_liked_from,
}

-- `HasLiked` reads the user's set.
has_liked_lem : (u v : ℕ) (s : Store) → has_liked u v s ≡ contains v (ids_of u s.user_likes)
unfolding has_liked contains
has_liked_lem u v s = ground arith

-- `Like` is refused for an unknown user or video and then changes no like; otherwise it reports
-- whether the user had not liked the video yet, the relation holds the pair from then on, and no
-- other pair changes.
pub has_liked-like :
    (u v c d : ℕ) (s : Store)
    → let found = has_key u s.users && has_key v s.videos in
      let s' = (like u v s).1 in
      ((like u v s).0 ≡ (if found then ok (not (has_liked u v s)) else err not_found))
      × (has_liked c d s' ≡ (if found && u == c && v == d then true else has_liked c d s))
unfolding like like_video has_liked contains
has_liked-like u v c d s = (
  ground arith,
  ground (
    arith,
    lookup-insert u c (add v (ids_of u s.user_likes)) s.user_likes,
    contains-add v d (ids_of u s.user_likes),
  ),
)

-- `Unlike` is refused for an unknown user or video and then changes no like; otherwise it reports
-- whether the user had liked the video, takes the pair out, and changes no other pair.
pub has_liked-unlike :
    (u v c d : ℕ) (s : Store)
    → let found = has_key u s.users && has_key v s.videos in
      let s' = (unlike u v s).1 in
      ((unlike u v s).0 ≡ (if found then ok (has_liked u v s) else err not_found))
      × (has_liked c d s' ≡ (if found && u == c && v == d then false else has_liked c d s))
unfolding unlike unlike_video has_liked contains
has_liked-unlike u v c d s = (
  ground arith,
  ground (
    arith,
    lookup-insert u c (remove v (ids_of u s.user_likes)) s.user_likes,
    contains-remove v d (ids_of u s.user_likes),
  ),
)

batch_from_lem :
    (set : Option (List ℕ)) (vids : List ℕ) (res : Dict Bool) (d : ℕ)
    → lookup d (batch_has_liked_from set vids res) ≡ (
        if contains d vids
        then some (elim set [ none ↦ false | some ids ↦ contains d ids ])
        else lookup d res)
unfolding batch_has_liked_from contains
batch_from_lem set [] res d = refl
batch_from_lem set (v ∷ vs) res d =
    let liked =
      λ (x : ℕ). let b : Bool = elim set [ none ↦ false | some ids ↦ contains x ids ] in b in
    ground
      (arith, batch_from_lem set vs (insert v (liked v) res) d, lookup-insert v d (liked v) res)

-- `BatchHasLiked` answers for exactly the videos that were asked for, each as `HasLiked` would.
pub batch_has_liked_lem :
    (u d : ℕ) (vids : List ℕ) (s : Store)
    → lookup d (batch_has_liked u vids s)
      ≡ (if contains d vids then some (has_liked u d s) else none)
unfolding batch_has_liked has_liked lookup
batch_has_liked_lem u d vids s = ground (arith, batch_from_lem (lookup u s.user_likes) vids [] d)
