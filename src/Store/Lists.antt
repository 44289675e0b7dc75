-- ===== src/Store/Lists.antt =====
-- Video lists: `ListVideos`, `ListUserVideos`, `FollowingFeed` of the in-memory store, and the
-- helpers `clampLimit`, `sortByIDDesc`, `truncate`.
pub mod Paging
pub mod Walk
pub mod Complete
use go_shortvideo.Prelude.{
  ℕ, zero, suc, [], ◌∷◌, Bool, true, false, not, ◌&&◌, List, ltb, leb, ◌==◌, take, keep, length,
  if◌then◌else◌,
}
use go_shortvideo.Prelude.Int.{ℤ, pos, negsuc}
use go_shortvideo.Dict.{Dict, has_key, values}
use go_shortvideo.IdSet.{contains}
use go_shortvideo.Sort.{sort_slice}
use go_shortvideo.Model.{Video}
use go_shortvideo.Store.State.{Store, not_found, Result, ok, err, ids_of}

unfoldable pub clamp_limit : ℤ → ℕ
clamp_limit (pos zero) = 10
clamp_limit (pos (suc n)) = if ltb 50 (suc n) then 10 else suc n
clamp_limit (negsuc n) = 10

-- `maxID > 0 && v.ID >= maxID`
unfoldable pub beyond : ℤ → ℕ → Bool
beyond (pos zero) id = false
beyond (pos (suc n)) id = leb (suc n) id
beyond (negsuc n) id = false

abbrev pub later : Video → Video → Bool
later a b = ltb b.id a.id

unfoldable pub sort_by_id_desc : List Video → List Video
sort_by_id_desc = sort_slice later

unfoldable pub truncate {ℓ} : {A : Type ℓ} → List A → ℕ → List A
truncate vs limit = if ltb limit (length vs) then take limit vs else vs

-- The loop over `s.videos`, in the order of the map, and what follows it.
unfoldable pub page_of : (Video → Bool) → ℤ → ℕ → Dict Video → List Video
unfolding sort_by_id_desc truncate
page_of wanted max_id limit m =
    truncate (sort_by_id_desc (keep (λ v. wanted v && not (beyond max_id v.id)) (values m))) limit

unfoldable pub list_videos : ℤ → ℤ → Store → List Video
list_videos max_id limit s = page_of (λ v. true) max_id (clamp_limit limit) s.videos

unfoldable pub list_user_videos : ℕ → ℤ → ℤ → Store → Result (List Video)
list_user_videos author max_id limit s =
    if has_key author s.users
    then ok (page_of (λ v. v.author_id == author) max_id (clamp_limit limit) s.videos)
    else err not_found

unfoldable pub following_feed : ℕ → ℤ → ℤ → Store → Result (List Video)
following_feed user max_id limit s =
    if has_key user s.users
    then (let followees = ids_of user s.following in
        ok (page_of (λ v. contains v.author_id followees) max_id (clamp_limit limit) s.videos))
    else err not_found

-- `writeFeed` of internal/api/video.go: the cursor for the next page, the id of the last video.
unfoldable pub next_cursor : List Video → ℕ
next_cursor [] = 0
next_cursor (v ∷ []) = v.id
next_cursor (v ∷ w ∷ vs) = next_cursor (w ∷ vs)
