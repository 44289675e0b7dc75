-- ===== src/Api/Liking.antt =====
-- A like and what is shown of it afterwards, with the in-memory store behind the handlers.
use go_shortvideo.Prelude.{
  ℕ, ◌+◌, ◌≡◌, refl, ap, ◌∙◌, Bool, true, false, some, List, [], ◌∷◌, arith, Option-cases,
  Bool-cases, inl, inr,
}
use go_shortvideo.Prelude.Int.{pos}
use go_shortvideo.Strconv.{parse_int}
use go_shortvideo.Dict.{lookup, lookup_or, lookup-insert}
use go_shortvideo.IdSet.{contains, add, contains-add}
use go_shortvideo.Model.{Video}
use go_shortvideo.Store.State.{Store, new, ok, ids_of}
use go_shortvideo.Store.Likes.{like as store_like, like_video, has_liked}
use go_shortvideo.Store.Likes.Laws.{batch_has_liked_lem}
use go_shortvideo.Store.Videos.{get_video as stored_video}
use mathlib.Core.Path.{subst⁻¹}
use go_shortvideo.Store.Users.{Bcrypt}
use go_shortvideo.Store.Calls.{Call, step, run}
use go_shortvideo.Store.Invariant.Keys.{Keyed, new-Keyed, step-Keyed, run-Keyed}
use go_shortvideo.Like.Memory.{mem_services, mem_like, mem_count, mem_batch_is_liked}
use go_shortvideo.Auth.Token.{user_id_from_context}
use go_shortvideo.Api.Service.{App, Request}
use go_shortvideo.Api.Answer.{current_user_id, item, liking, success}
use go_shortvideo.Api.Likes.{like, like_as}
use go_shortvideo.Api.Videos.{get_video, item_of, liked_map}

-- After a like that goes well, the video is stored, and is liked by the user.
shown-like :
    (user id : ℕ) (s : Store) (changed : Bool)
    → (store_like user id s).0 ≡ ok changed
    → let s' = (store_like user id s).1 in
      (v : Video) × ((lookup id s'.videos ≡ some v) × (has_liked user id s' ≡ true))
unfolding store_like like_video has_liked contains
shown-like user id s changed e = elim (Option-cases (lookup id s.videos)) [
  | inl missing ↦ absurd (ground arith)
  | inr (v, found) ↦ elim (Bool-cases (contains id (ids_of user s.user_likes))) [
    | inl already ↦ (v, (ground arith, ground arith))
    | inr new ↦ (
      record v { like_count = v.like_count + 1 },
      (
        ground (arith, lookup-insert id id (record v { like_count = v.like_count + 1 }) s.videos),
        ground (
          arith,
          lookup-insert user user (add id (ids_of user s.user_likes)) s.user_likes,
          contains-add id id (ids_of user s.user_likes),
        ),
      ),
    )
  ]
]

count-stored :
    (id : ℕ) (s : Store) (v : Video)
    → lookup id s.videos ≡ some v
    → mem_count (pos id) s ≡ some v.like_count
unfolding mem_count stored_video
count-stored id s v found = ground arith

liked-batch :
    (user id : ℕ) (s : Store)
    → lookup_or false id (mem_batch_is_liked user (id ∷ []) s) ≡ has_liked user id s
unfolding mem_batch_is_liked contains
liked-batch user id s = ground (arith, batch_has_liked_lem user id (id ∷ []) s)

-- What the two handlers answer, in a store where the video has its own id.
like_answer :
    (r : Request) (user id : ℕ) (a : App mem_services) (changed : Bool) (v : Video)
    → user_id_from_context r.context ≡ some user
    → parse_int r.id ≡ some (pos id)
    → (store_like user id a.store).0 ≡ ok changed
    → lookup id (store_like user id a.store).1.videos ≡ some v
    → like mem_services r a ≡ (
      success (liking changed true v.like_count),
      record a { store = (store_like user id a.store).1 },
    )
unfolding like like_as mem_like
like_answer r user id a changed v sent named went found =
    let counted = count-stored id (store_like user id a.store).1 v found in
    rw (sent, named, like) (rw (went, like_as) (rw counted refl))

current_user :
    (r : Request) (user : ℕ)
    → user_id_from_context r.context ≡ some user
    → current_user_id r.context ≡ some user
unfolding current_user_id
current_user r user sent = rw (sent, current_user_id) refl

map_of_user :
    (r : Request) (user : ℕ) (ids : List ℕ) (a : App mem_services)
    → user_id_from_context r.context ≡ some user
    → liked_map mem_services r ids a ≡ mem_batch_is_liked user ids a.store
unfolding liked_map
map_of_user r user ids a sent = rw (current_user r user sent, liked_map) refl

video_answer :
    (r : Request) (user id : ℕ) (a : App mem_services) (v : Video)
    → user_id_from_context r.context ≡ some user
    → parse_int r.id ≡ some (pos id)
    → lookup id a.store.videos ≡ some v
    → v.id ≡ id
    → has_liked user id a.store ≡ true
    → (get_video mem_services r a).0 ≡ success (item (record { video = v; liked = true }))
unfolding get_video item_of stored_video
video_answer r user id a v sent named found own liked =
    let counted : mem_count (pos v.id) a.store ≡ some v.like_count =
      ap (λ k. mem_count (pos k) a.store) own ∙ count-stored id a.store v found in
    let shown : lookup_or false v.id (mem_batch_is_liked user (v.id ∷ []) a.store) ≡ true =
      liked-batch user v.id a.store ∙ ap (λ k. has_liked user k a.store) own ∙ liked in
    let map_is = map_of_user r user (v.id ∷ []) a sent in
    rw (named, get_video) (rw (found, stored_video) (rw map_is (rw (counted, shown) refl)))

-- Over the in-memory store, in any state that its operations reach: when Like succeeds for a user, it
-- answers with the like count that the video then has, and a GetVideo of the same user that follows
-- shows the video with this count, and as liked.
pub get_video-like :
    (bcrypt : Bcrypt) (cs : List Call) (r : Request) (user id : ℕ) (a : App mem_services)
    (changed : Bool)
    → a.store ≡ run bcrypt cs new
    → user_id_from_context r.context ≡ some user
    → parse_int r.id ≡ some (pos id)
    → (store_like user id a.store).0 ≡ ok changed
    → let (answer, a') = like mem_services r a in
      (v : Video) × ((answer ≡ success (liking changed true v.like_count))
        × ((get_video mem_services r a').0 ≡ success (item (record { video = v; liked = true }))))
unfolding step
get_video-like bcrypt cs r user id a changed reached sent named went =
    let (v, (found, liked)) = shown-like user id a.store changed went in
    let keyed = subst⁻¹ (λ (s : Store). Keyed s) reached (run-Keyed bcrypt cs new new-Keyed) in
    let after = step-Keyed bcrypt (Call.like user id) a.store keyed in
    let answered = like_answer r user id a changed v sent named went found in
    let a' : App mem_services = record a { store = (store_like user id a.store).1 } in
    (
      v,
      (
        ap (λ p. p.0) answered,
        ap (λ p. (get_video mem_services r p.1).0) answered
            ∙ video_answer r user id a' v sent named found (after.videos.at id v found) liked,
      ),
    )
