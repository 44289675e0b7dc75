-- ===== src/Relation/Service.antt =====
-- internal/relation/service.go. The cache in Redis and the repository are parameters; `none` is an
-- error.
use go_shortvideo.Prelude.{ℕ, ◌≡◌, ◌⊎◌, Bool, Option, none, some, List, [], ◌∷◌, if◌then◌else◌}
use go_shortvideo.Prelude.Int.{ℤ, pos, leb_ℤ}

abbrev pub big_v_follower_threshold : ℕ
big_v_follower_threshold = 100000

-- The keys `bigVCacheKeyPrefix + id`, by their id. A count that is read was written before: a write
-- may be refused, and a count may expire.
pub record Cache : Type 1 where
  pub State : Type 0
  pub get : ℕ → State → Option ℤ
  pub set : ℕ → ℤ → State → State
  pub get-set :
      (id other : ℕ) (cnt now : ℤ) (s : State)
      → get other (set id cnt s) ≡ some now
      → (get other s ≡ some now) ⊎ ((id ≡ other) × (now ≡ cnt))

pub record Repo : Type 0 where
  pub follower_count : ℕ → Option ℤ
  pub list_followees : ℕ → Option (List ℕ)

module _ (cache : Cache) (repo : Repo) where
  unfoldable pub follower_count : ℕ → cache.State → Option ℤ × cache.State
  follower_count user s = elim (cache.get user s) [
    | some val ↦ (some val, s)
    | none ↦ elim (repo.follower_count user) [
      | none ↦ (none, s)
      | some cnt ↦ (some cnt, cache.set user cnt s)
    ]
  ]

  unfoldable pub is_big_v : ℕ → cache.State → Option Bool × cache.State
  is_big_v author s =
      let (cnt, s') = follower_count author s in
      elim cnt [ none ↦ (none, s') | some n ↦ (some (leb_ℤ (pos big_v_follower_threshold) n), s') ]

  -- The loop of `BigVFollowees`.
  unfoldable pub big_v_of : List ℕ → cache.State → List ℕ × cache.State
  big_v_of [] s = ([], s)
  big_v_of (fid ∷ fids) s =
      let (answer, s') = is_big_v fid s in
      let (rest, s'') = big_v_of fids s' in
      elim answer [ none ↦ (rest, s'') | some large ↦ (if large then fid ∷ rest else rest, s'') ]

  unfoldable pub big_v_followees : ℕ → cache.State → Option (List ℕ) × cache.State
  big_v_followees user s = elim (repo.list_followees user) [
    | none ↦ (none, s)
    | some followees ↦ let (ids, s') = big_v_of followees s in (some ids, s')
  ]
