-- ===== src/Store/Likes.antt =====
-- Likes: `Like`, `Unlike`, `HasLiked`, `BatchHasLiked` of the in-memory store.
pub mod Counts
pub mod Laws
use go_shortvideo.Prelude.{
  ℕ, ◌+◌, ◌-◌, Bool, true, false, Option, none, some, List, [], ◌∷◌, ltb, if◌then◌else◌,
}
use go_shortvideo.Dict.{Dict, lookup, insert, has_key}
use go_shortvideo.IdSet.{contains, add, remove}
use go_shortvideo.Model.{Video}
use go_shortvideo.Store.State.{Store, not_found, Result, ok, err, ids_of}

-- The part of `Like` behind its two look-ups: `v` is the record that `s.videos` holds at `video`.
unfoldable pub like_video : (user video : ℕ) → Video → Store → Bool × Store
like_video user video v s =
    let set = ids_of user s.user_likes in
    if contains video set then (false, s) else (
      true,
      record s {
        user_likes = insert user (add video set) s.user_likes;
        videos = insert video (record v { like_count = v.like_count + 1 }) s.videos;
      },
    )

unfoldable pub like : (user video : ℕ) → Store → Result Bool × Store
like user video s =
    if has_key user s.users
    then elim (lookup video s.videos) [
      | none ↦ (err not_found, s)
      | some v ↦ let (changed, s') = like_video user video v s in (ok changed, s')
    ]
    else (err not_found, s)

unfoldable pub unlike_video : (user video : ℕ) → Video → Store → Bool × Store
unlike_video user video v s =
    let set = ids_of user s.user_likes in
    if contains video set
    then (
      true,
      record s {
        user_likes = insert user (remove video set) s.user_likes;
        videos =
            insert video
              (record v {
                like_count = if ltb 0 v.like_count then v.like_count - 1 else v.like_count;
              })
              s.videos;
      },
    )
    else (false, s)

unfoldable pub unlike : (user video : ℕ) → Store → Result Bool × Store
unlike user video s =
    if has_key user s.users
    then elim (lookup video s.videos) [
      | none ↦ (err not_found, s)
      | some v ↦ let (changed, s') = unlike_video user video v s in (ok changed, s')
    ]
    else (err not_found, s)

unfoldable pub has_liked : (user video : ℕ) → Store → Bool
has_liked user video s = elim (lookup user s.user_likes) [
  | none ↦ false
  | some set ↦ contains video set
]

-- The loop of `BatchHasLiked`, over a set that may be missing.
unfoldable pub batch_has_liked_from : Option (List ℕ) → List ℕ → Dict Bool → Dict Bool
batch_has_liked_from set [] res = res
batch_has_liked_from set (vid ∷ vids) res =
    batch_has_liked_from set vids
      (insert vid (elim set [ none ↦ false | some ids ↦ contains vid ids ]) res)

unfoldable pub batch_has_liked : ℕ → List ℕ → Store → Dict Bool
batch_has_liked user vids s = batch_has_liked_from (lookup user s.user_likes) vids []
