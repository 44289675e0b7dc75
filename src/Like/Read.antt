-- ===== src/Like/Read.antt =====
-- `BatchIsLiked` of internal/like/read.go: one pipeline of `SISMEMBER`.
use go_shortvideo.Prelude.{
  ℕ, ◌≡◌, refl, ap, ◌∙◌, Bool, Option, none, some, List, [], ◌∷◌, map, ◌==◌, if◌then◌else◌, arith,
  Option-cases, Bool-cases, ==_iff, sym, inl, inr,
}
use go_shortvideo.Dict.{Dict, lookup, insert, lookup-insert}
use go_shortvideo.IdSet.{contains}
use go_shortvideo.Like.Redis.{Redis}
use go_shortvideo.Like.Service.{Service}

-- The loop over the answers.
unfoldable pub liked_of : List ℕ → List Bool → Dict Bool → Dict Bool
liked_of [] flags res = res
liked_of (v ∷ vs) [] res = res
liked_of (v ∷ vs) (b ∷ flags) res = liked_of vs flags (insert v b res)

unfoldable pub batch_is_liked :
    (redis : Redis) → (user : ℕ) → List ℕ → Service redis → Option (Dict Bool)
unfolding liked_of
batch_is_liked redis user [] s = some []
batch_is_liked redis user (v ∷ vs) s = elim (redis.sis_members user (v ∷ vs) s.rdb) [
  | none ↦ none
  | some flags ↦ some (liked_of (v ∷ vs) flags [])
]

lookup-liked_of :
    (f : ℕ → Bool) (vs : List ℕ) (id : ℕ) (res : Dict Bool)
    → lookup id (liked_of vs (map f vs) res)
      ≡ (if contains id vs then some (f id) else lookup id res)
unfolding liked_of contains
lookup-liked_of f [] id res = refl
lookup-liked_of f (v ∷ vs) id res =
    let rest = lookup-liked_of f vs id (insert v (f v) res) in
    let first = lookup-insert v id (f v) res in
    elim (Bool-cases (v == id)) [
      | inr other ↦ rw other (rest ∙ ground arith)
      | inl same ↦ let e = (==_iff v id).0 same in rw same (rest ∙ ground (arith, ap f e))
    ]

-- An answer has exactly the ids that were asked about, each with whether the set of the user holds
-- it.
pub batch_is_liked_lem :
    (redis : Redis) (user id : ℕ) (vids : List ℕ) (s : Service redis) (m : Dict Bool)
    → batch_is_liked redis user vids s ≡ some m
    → lookup id m ≡ (if contains id vids then some (redis.member user id s.rdb) else none)
unfolding batch_is_liked contains lookup
batch_is_liked_lem redis user id [] s m h = ground arith
batch_is_liked_lem redis user id (v ∷ vs) s m h =
    elim (Option-cases (redis.sis_members user (v ∷ vs) s.rdb)) [
      | inl failed ↦ absurd (ground arith)
      | inr (flags, e) ↦
          let asked = redis.sis_members-some user (v ∷ vs) flags s.rdb e in
          let f = λ (w : ℕ). redis.member user w s.rdb in
          let read : liked_of (v ∷ vs) flags [] ≡ m = ground arith in
          ap (lookup id) (sym read)
          ∙ ap (λ (fs : List Bool). lookup id (liked_of (v ∷ vs) fs [])) asked
          ∙ lookup-liked_of f (v ∷ vs) id []
    ]
