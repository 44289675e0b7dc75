-- ===== src/Store/Follows.antt =====
-- Follow relations: `Follow`, `Unfollow`, `FollowStats`, `ListFollowees`, `ListFollowers` of the
-- in-memory store.
pub mod Pages
pub mod Ascending
use go_shortvideo.Prelude.{
  ℕ, Bool, ◌+◌, Option, none, some, List, [], ◌∷◌, ltb, leb, ◌==◌, length, take, drop,
  if◌then◌else◌, ◌-◌, suc,
}
use go_shortvideo.Dict.{Dict, lookup, insert, has_key}
use go_shortvideo.IdSet.{add, remove}
use go_shortvideo.Sort.{sort_slice}
use go_shortvideo.Store.State.{Store, not_found, invalid, Result, ok, err, ids_of}

unfoldable pub follow : (follower followee : ℕ) → Store → Result (Unit {0}) × Store
follow follower followee s =
    if follower == followee
    then (err invalid, s)
    else if has_key follower s.users
    then (if has_key followee s.users
        then (
          ok tt,
          record s {
            following = insert follower (add followee (ids_of follower s.following)) s.following;
            followers = insert followee (add follower (ids_of followee s.followers)) s.followers;
          },
        )
        else (err not_found, s))
    else (err not_found, s)

-- `delete` in the set of a key, where the key has one.
unfoldable pub remove_at : ℕ → ℕ → Dict (List ℕ) → Dict (List ℕ)
remove_at k x m = elim (lookup k m) [ none ↦ m | some set ↦ insert k (remove x set) m ]

unfoldable pub unfollow : (follower followee : ℕ) → Store → Result (Unit {0}) × Store
unfollow follower followee s = (
  ok tt,
  record s {
    following = remove_at follower followee s.following;
    followers = remove_at followee follower s.followers;
  },
)

unfoldable pub follow_stats : ℕ → Store → ℕ × ℕ
follow_stats user s = (length (ids_of user s.following), length (ids_of user s.followers))

unfoldable pub list_followees : ℕ → Store → List ℕ
list_followees user s = ids_of user s.following

-- The loop that looks for `start`: the index of the first id above the cursor, or the length.
unfoldable pub start_after : ℕ → List ℕ → ℕ
start_after cursor [] = 0
start_after cursor (uid ∷ rest) = if ltb cursor uid then 0 else suc (start_after cursor rest)

-- The last element of `page`, as `page[len(page)-1]`; an empty page panics there, and is `none`.
unfoldable pub last_of : List ℕ → Option ℕ
last_of [] = none
last_of (x ∷ []) = some x
last_of (x ∷ y ∷ l) = last_of (y ∷ l)

-- A page with its next cursor; `none` where the source panics (a limit of 0 with ids left).
unfoldable pub with_next : List ℕ → Bool → Option (List ℕ × ℕ)
unfolding last_of
with_next page more =
    if more
    then elim (last_of page) [ none ↦ none | some next ↦ some (page, next) ]
    else some (page, 0)

unfoldable pub page_between : List ℕ → (start end : ℕ) → Option (List ℕ × ℕ)
page_between all start end = with_next (take (end - start) (drop start all)) (ltb end (length all))

unfoldable pub page_at : List ℕ → (start limit : ℕ) → Option (List ℕ × ℕ)
page_at all start limit =
    if leb (length all) start
    then some ([], 0)
    else page_between all start
        (if ltb (length all) (start + limit) then length all else start + limit)

unfoldable pub followers_page : List ℕ → (cursor limit : ℕ) → Option (List ℕ × ℕ)
followers_page all cursor limit =
    page_at all (if ltb 0 cursor then start_after cursor all else 0) limit

unfoldable pub list_followers : (author cursor limit : ℕ) → Store → Option (List ℕ × ℕ)
list_followers author cursor limit s =
    followers_page (sort_slice (λ a b. ltb a b) (ids_of author s.followers)) cursor limit
