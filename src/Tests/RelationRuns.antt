-- ===== src/Tests/RelationRuns.antt =====
-- Three accounts that a user follows.
use go_shortvideo.Prelude.{
  ℕ, ◌≡◌, ◌⊎◌, inl, inr, refl, Option, none, some, List, [], ◌∷◌, ◌==◌, arith, if◌then◌else◌,
  Bool-cases,
}
use go_shortvideo.Prelude.Int.{ℤ, pos}
use go_shortvideo.Relation.Service.{
  Cache, Repo, big_v_followees, big_v_of, is_big_v, follower_count,
}
use go_shortvideo.Relation.Laws.{Picked, big_v_followees_lem}

get-set :
    (id other : ℕ) (cnt now : ℤ) (s : ℕ → Option ℤ)
    → (if id == other then some cnt else s other) ≡ some now
    → (s other ≡ some now) ⊎ ((id ≡ other) × (now ≡ cnt))
get-set id other cnt now s e = elim (Bool-cases (id == other)) [
  | inl t ↦ inr (ground arith, ground arith)
  | inr f ↦ inl (ground arith)
]

abbrev memory : Cache
memory = record {
  State = ℕ → Option ℤ;
  get = λ id s. s id;
  set = λ id cnt s j. if id == j then some cnt else s j;
  get-set = get-set;
}

-- The cache still holds an old count of 5, which is below the threshold; 7 is not cached, and the
-- database does not answer for 8.
abbrev followers : ℕ → Option ℤ
followers id = if id == 8 then none else some (pos 150000)

abbrev database : Repo
database = record { follower_count = followers; list_followees = λ user. some (5 ∷ 7 ∷ 8 ∷ []) }

abbrev stale : ℕ → Option ℤ
stale id = if id == 5 then some (pos 3) else none

seven_only : (big_v_followees memory database 1 stale).0 ≡ some (7 ∷ [])
unfolding big_v_followees big_v_of is_big_v follower_count
seven_only = refl

big_v_followees_lem_example :
    (ids : List ℕ) × ((big_v_followees memory database 1 stale).0 ≡ some ids)
    × Picked memory database stale (5 ∷ 7 ∷ 8 ∷ []) ids
big_v_followees_lem_example = big_v_followees_lem memory database stale 1 (5 ∷ 7 ∷ 8 ∷ []) refl
