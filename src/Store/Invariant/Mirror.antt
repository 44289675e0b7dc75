-- ===== src/Store/Invariant/Mirror.antt =====
-- The two indexes of the follow relation, `following` and `followers`, against each other.
use go_shortvideo.Prelude.{
  ℕ, ◌≡◌, not, refl, none, true, false, arith, ◌∷◌, [], List, Bool, ◌==◌, ◌&&◌, if◌then◌else◌,
}
use go_shortvideo.Dict.{Dict, lookup, lookup-insert, has_key}
use go_shortvideo.IdSet.{
  contains, add, remove, contains-add, contains-remove, Distinct, add-Distinct, remove-Distinct,
}
use go_shortvideo.Store.State.{Store, new, ids_of, ok, err, invalid, not_found}
use go_shortvideo.Store.Users.{Bcrypt, create_user, store_user}
use go_shortvideo.Store.Videos.{create_video, update_video_status, update_video_playback_urls}
use go_shortvideo.Store.Likes.{like, like_video, unlike, unlike_video}
use go_shortvideo.Store.Comments.{add_comment, comment_on}
use go_shortvideo.Store.Follows.{follow, unfollow, remove_at}
use go_shortvideo.Store.Calls.{Call, step, run}

-- Whether `a` follows `b`, by the index of what `a` follows.
unfoldable pub follows : (a b : ℕ) → Store → Bool
follows a b s = contains b (ids_of a s.following)

-- The same by the index of who follows `b`.
unfoldable pub followed_by : (b a : ℕ) → Store → Bool
followed_by b a s = contains a (ids_of b s.followers)

pub record Mirrored (s : Store) : Type 0 where
  pub same : (a b : ℕ) → contains b (ids_of a s.following) ≡ contains a (ids_of b s.followers)
  pub following_distinct : (a : ℕ) → Distinct (ids_of a s.following)
  pub followers_distinct : (a : ℕ) → Distinct (ids_of a s.followers)
  pub irreflexive : (a : ℕ) → contains a (ids_of a s.following) ≡ false
  pub no_zero : lookup 0 s.users ≡ none
  pub positive : (a : ℕ) → contains 0 (ids_of a s.followers) ≡ false

pub new-Mirrored : Mirrored new
unfolding new lookup contains
new-Mirrored = record {
  same = λ a b. refl;
  following_distinct = λ a. tt;
  followers_distinct = λ a. tt;
  irreflexive = λ a. refl;
  no_zero = refl;
  positive = λ a. refl;
}

-- The sets after `delete` in the set of one key.
pub ids_of-remove_at :
    (k x j : ℕ) (m : Dict (List ℕ))
    → ids_of j (remove_at k x m) ≡ (if k == j then remove x (ids_of j m) else ids_of j m)
unfolding remove_at remove lookup
ids_of-remove_at k x j m = grind (arith, lookup-insert)

pub follow-Mirrored : (a b : ℕ) (s : Store) → Mirrored s → Mirrored (follow a b s).1
unfolding follow contains
follow-Mirrored a b s i = record {
  same = λ c d. grind (arith, i.same, lookup-insert, contains-add);
  following_distinct = λ c. grind (arith, i.following_distinct, lookup-insert, add-Distinct);
  followers_distinct = λ c. grind (arith, i.followers_distinct, lookup-insert, add-Distinct);
  irreflexive = λ c. grind (arith, i.irreflexive, lookup-insert, contains-add);
  no_zero = grind (arith, i.no_zero);
  positive = λ c. grind (arith, i.positive, i.no_zero, lookup-insert, contains-add);
}

pub unfollow-Mirrored : (a b : ℕ) (s : Store) → Mirrored s → Mirrored (unfollow a b s).1
unfolding unfollow
unfollow-Mirrored a b s i = record {
  same = λ c d. grind (arith, i.same, ids_of-remove_at, contains-remove);
  following_distinct = λ c. grind (arith, i.following_distinct, ids_of-remove_at, remove-Distinct);
  followers_distinct = λ c. grind (arith, i.followers_distinct, ids_of-remove_at, remove-Distinct);
  irreflexive = λ c. grind (arith, i.irreflexive, ids_of-remove_at, contains-remove);
  no_zero = i.no_zero;
  positive = λ c. grind (arith, i.positive, ids_of-remove_at, contains-remove);
}

module _ (bcrypt : Bcrypt) where
  step-Mirrored : (c : Call) (s : Store) → Mirrored s → Mirrored (step bcrypt c s)
  unfolding step create_user store_user create_video update_video_status update_video_playback_urls
      like like_video unlike unlike_video add_comment comment_on
  step-Mirrored (Call.follow a b) s i = follow-Mirrored a b s i
  step-Mirrored (Call.unfollow a b) s i = unfollow-Mirrored a b s i
  step-Mirrored c s i = record {
    same = λ a b. grind (arith, i.same);
    following_distinct = λ a. grind (arith, i.following_distinct);
    followers_distinct = λ a. grind (arith, i.followers_distinct);
    irreflexive = λ a. grind (arith, i.irreflexive);
    no_zero = grind (arith, i.no_zero, lookup-insert);
    positive = λ a. grind (arith, i.positive);
  }

  pub run-Mirrored : (cs : List Call) (s : Store) → Mirrored s → Mirrored (run bcrypt cs s)
  unfolding run
  run-Mirrored [] s i = i
  run-Mirrored (c ∷ cs) s i = run-Mirrored cs (step bcrypt c s) (step-Mirrored c s i)

  -- After any sequence of the store's operations from an empty store the two follow indexes agree:
  -- `b` stands among those whom `a` follows exactly when `a` stands among the followers of `b`;
  -- no index holds an id twice, and nobody follows themselves.
  pub follows-run :
      (cs : List Call) (a b : ℕ)
      → (follows a b (run bcrypt cs new) ≡ followed_by b a (run bcrypt cs new))
        × (follows a a (run bcrypt cs new) ≡ false)
        × Distinct (ids_of a (run bcrypt cs new).following)
        × Distinct (ids_of a (run bcrypt cs new).followers)
  unfolding follows followed_by
  follows-run cs a b =
      let i = run-Mirrored cs new new-Mirrored in
      (i.same a b, i.irreflexive a, i.following_distinct a, i.followers_distinct a)

-- `Follow` succeeds exactly for two different existing users, and then the relation gains the one
-- pair, in both indexes, and no other pair changes; a refused call changes no pair.
pub follows-follow :
    (a b c d : ℕ) (s : Store)
    → let s' = (follow a b s).1 in
      let done = not (a == b) && has_key a s.users && has_key b s.users in
      ((follow a b s).0 ≡ (if a == b then err invalid else if done then ok tt else err not_found))
      × (follows c d s' ≡ (if done && a == c && b == d then true else follows c d s))
      × (followed_by d c s' ≡ (if done && a == c && b == d then true else followed_by d c s))
unfolding follow follows followed_by
follows-follow a b c d s = (
  ground arith,
  ground (
    arith,
    lookup-insert a c (add b (ids_of a s.following)) s.following,
    contains-add b d (ids_of a s.following),
  ),
  ground (
    arith,
    lookup-insert b d (add a (ids_of b s.followers)) s.followers,
    contains-add a c (ids_of b s.followers),
  ),
)

-- `Unfollow` never fails, takes the one pair out of both indexes, and leaves every other pair.
pub follows-unfollow :
    (a b c d : ℕ) (s : Store)
    → let s' = (unfollow a b s).1 in
      ((unfollow a b s).0 ≡ ok tt)
      × (follows c d s' ≡ (if a == c && b == d then false else follows c d s))
      × (followed_by d c s' ≡ (if a == c && b == d then false else followed_by d c s))
unfolding unfollow follows followed_by
follows-unfollow a b c d s = (
  refl,
  grind (arith, ids_of-remove_at, contains-remove),
  grind (arith, ids_of-remove_at, contains-remove),
)
