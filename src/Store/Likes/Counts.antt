-- ===== src/Store/Likes/Counts.antt =====
-- How many users' sets hold a video: what `LikeCount` should be.
use go_shortvideo.Prelude.{
  ℕ, suc, ◌+◌, ◌≡◌, Bool, true, false, List, [], ◌∷◌, arith, ◌==◌, if◌then◌else◌,
}
use go_shortvideo.Dict.{Dict, insert, lookup}
use go_shortvideo.IdSet.{contains, add, remove, contains-add, contains-remove}
use go_shortvideo.Store.State.{ids_of}

unfoldable pub likers : ℕ → Dict (List ℕ) → ℕ
likers vid [] = 0
likers vid ((user, set) ∷ m) = if contains vid set then suc (likers vid m) else likers vid m

abbrev flag : Bool → ℕ
flag b = if b then 1 else 0

likers-insert :
    (vid user : ℕ) (set : List ℕ) (m : Dict (List ℕ))
    → likers vid (insert user set m) + flag (contains vid (ids_of user m))
      ≡ likers vid m + flag (contains vid set)
unfolding likers insert lookup contains
likers-insert vid user set [] = ground arith
likers-insert vid user set ((u, x) ∷ m) = ground (arith, likers-insert vid user set m)

-- A user that did not like a video now does.
pub likers-add :
    (vid k user : ℕ) (m : Dict (List ℕ))
    → contains vid (ids_of user m) ≡ false
    → likers k (insert user (add vid (ids_of user m)) m)
      ≡ (if vid == k then suc (likers k m) else likers k m)
likers-add vid k user m h =
    ground
      (arith, likers-insert k user (add vid (ids_of user m)) m, contains-add vid k (ids_of user m))

-- A user that liked a video no longer does.
pub likers-remove :
    (vid k user : ℕ) (m : Dict (List ℕ))
    → contains vid (ids_of user m) ≡ true
    → likers k m ≡ (
        if vid == k
        then suc (likers k (insert user (remove vid (ids_of user m)) m))
        else likers k (insert user (remove vid (ids_of user m)) m))
likers-remove vid k user m h = ground (
  arith,
  likers-insert k user (remove vid (ids_of user m)) m,
  contains-remove vid k (ids_of user m),
)
