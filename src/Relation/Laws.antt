-- ===== src/Relation/Laws.antt =====
-- Which accounts the service calls large.
use go_shortvideo.Prelude.{
  ℕ, ◌≡◌, ◌⊎◌, refl, Bool, true, false, Option, none, some, List, [], ◌∷◌, if◌then◌else◌,
  Option-cases, inl, inr,
}
use mathlib.Core.Path.{subst}
use go_shortvideo.Prelude.Int.{ℤ, pos, leb_ℤ}
use go_shortvideo.Relation.Service.{
  Cache, Repo, big_v_follower_threshold, follower_count, is_big_v, big_v_of, big_v_followees,
}

module _ (cache : Cache) (repo : Repo) (start : cache.State) where
  -- The count that the cache held at the start, or the one of the database.
  abbrev pub Known : ℕ → ℤ → Type 0
  Known id n = (cache.get id start ≡ some n) ⊎ (repo.follower_count id ≡ some n)

  abbrev pub large : ℤ → Bool
  large n = leb_ℤ (pos big_v_follower_threshold) n

  -- What is picked of the followees, in their order: `take` and `drop` judge an account by a known
  -- count, and `skip` passes over one that the database does not answer for.
  pub data Picked : List ℕ → List ℕ → Type 0 where
    done : Picked [] []
    take :
        {id : ℕ} {n : ℤ} {ids out : List ℕ}
        → Known id n
        → large n ≡ true
        → Picked ids out
        → Picked (id ∷ ids) (id ∷ out)
    drop :
        {id : ℕ} {n : ℤ} {ids out : List ℕ}
        → Known id n
        → large n ≡ false
        → Picked ids out
        → Picked (id ∷ ids) out
    skip :
        {id : ℕ} {ids out : List ℕ}
        → repo.follower_count id ≡ none
        → Picked ids out
        → Picked (id ∷ ids) out

  abbrev Held : cache.State → Type 0
  Held s = (id : ℕ) (n : ℤ) → cache.get id s ≡ some n → Known id n

  Held-set :
      (id : ℕ) (n : ℤ) (s : cache.State)
      → repo.follower_count id ≡ some n
      → Held s
      → Held (cache.set id n s)
  Held-set id n s found h other m e = elim (cache.get-set id other n m s e) [
    | inl before ↦ h other m before
    | inr (same, val) ↦ inr (rw (← same, val) found)
  ]

  -- What a count that is asked for tells, by its answer.
  abbrev Told : ℕ → Option ℤ → Type 0
  Told id none = repo.follower_count id ≡ none
  Told id (some n) = Known id n

  follower_count_lem :
      (id : ℕ) (s : cache.State)
      → Held s
      → Told id (follower_count cache repo id s).0 × Held (follower_count cache repo id s).1
  unfolding follower_count
  follower_count_lem id s h = elim (Option-cases (cache.get id s)) [
    | inr (n, e) ↦ rw (e, follower_count) (h id n e, h)
    | inl e ↦ elim (Option-cases (repo.follower_count id)) [
      | inl failed ↦ rw (e, failed, follower_count) (failed, h)
      | inr (n, found) ↦ rw (e, found, follower_count) (inr found, Held-set id n s found h)
    ]
  ]

  abbrev Judged : ℕ → Option Bool → Type 0
  Judged id none = repo.follower_count id ≡ none
  Judged id (some b) = (n : ℤ) × Known id n × (large n ≡ b)

  is_big_v_lem :
      (id : ℕ) (s : cache.State)
      → Held s
      → Judged id (is_big_v cache repo id s).0 × Held (is_big_v cache repo id s).1
  unfolding is_big_v
  is_big_v_lem id s h =
      let (told, after) = follower_count_lem id s h in
      elim (Option-cases (follower_count cache repo id s).0) [
        | inl e ↦ rw (e, is_big_v) (subst (Told id) e told, after)
        | inr (n, e) ↦ rw (e, is_big_v) ((n, subst (Told id) e told, refl), after)
      ]

  picked :
      {id : ℕ} {ids out : List ℕ} (b : Bool)
      → Judged id (some b)
      → Picked ids out
      → Picked (id ∷ ids) (if b then id ∷ out else out)
  picked true (n, known, e) rest = take known e rest
  picked false (n, known, e) rest = drop known e rest

  big_v_of_lem :
      (ids : List ℕ) (s : cache.State) → Held s → Picked ids (big_v_of cache repo ids s).0
  unfolding big_v_of
  big_v_of_lem [] s h = done
  big_v_of_lem (id ∷ ids) s h =
      let (told, after) = is_big_v_lem id s h in
      let rest = big_v_of_lem ids (is_big_v cache repo id s).1 after in
      elim (Option-cases (is_big_v cache repo id s).0) [
        | inl e ↦ rw (e, big_v_of) (skip (subst (Judged id) e told) rest)
        | inr (b, e) ↦ rw (e, big_v_of) (picked b (subst (Judged id) e told) rest)
      ]

  -- Where the list of followees is read, the answer is what is picked of it, in its order: each
  -- account is judged by a count that the cache held at the start or that the database has, which
  -- may differ while a cached count is stale, and is in the answer if that count is 100000 or more;
  -- one is left out unjudged only if the database does not answer for it. Nothing depends on what
  -- the cache forgets or which writes to it fail.
  pub big_v_followees_lem :
      (user : ℕ) (followees : List ℕ)
      → repo.list_followees user ≡ some followees
      → (ids : List ℕ) × ((big_v_followees cache repo user start).0 ≡ some ids)
        × Picked followees ids
  unfolding big_v_followees
  big_v_followees_lem user followees known = (
    (big_v_of cache repo followees start).0,
    rw (known, big_v_followees) refl,
    big_v_of_lem followees start (λ id n e. inl e),
  )
