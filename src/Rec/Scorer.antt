-- ===== src/Rec/Scorer.antt =====
-- internal/rec/scorer.go. A score is a float64, which is a parameter here: any type, with the
-- factors of `MergeAndRank` as functions and the comparison `>` as a test.
use go_shortvideo.Prelude.{
  ℕ, zero, suc, ◌+◌, ◌-◌, Bool, true, false, List, [], ◌∷◌, ◌++◌, ltb, leb, ◌==◌, take, length,
  if◌then◌else◌, map,
}
use go_shortvideo.Dict.{Dict, lookup_or, insert}
use go_shortvideo.IdSet.{contains, add}
use go_shortvideo.Sort.{Sorter}

pub record Scores : Type 1 where
  pub Score : Type 0
  pub zero_score : Score
  pub greater : Score → Score → Bool
  pub w_hot : Score → Score
  pub w_fresh : Score → Score
  pub w_cf : Score → Score
  pub w_social : Score → Score

pub record ScoredVideo (f : Scores) : Type 0 where
  pub video_id : ℕ
  pub author_id : ℕ
  pub score : f.Score

-- What the closure `add` of `MergeAndRank` writes to.
pub record Gathered (f : Scores) : Type 0 where
  pub seen : List ℕ
  pub all : List (ScoredVideo f)

-- `max_per_author` is positive: the entries of an author beyond it are passed over.
unfoldable pub rerank_from :
    {f : Scores} → (max : ℕ) → Dict ℕ → List (ScoredVideo f) → List (ScoredVideo f)
rerank_from max counts [] = []
rerank_from max counts (v ∷ vs) =
    let n = lookup_or 0 v.author_id counts in
    elim (leb max n) [
      | true ↦ rerank_from max counts vs
      | false ↦ v ∷ rerank_from max (insert v.author_id (n + 1) counts) vs
    ]

unfoldable pub diversity_rerank :
    {f : Scores} → List (ScoredVideo f) → (max : ℕ) → List (ScoredVideo f)
diversity_rerank videos max = if max == 0 then videos else rerank_from max [] videos

abbrev pub ids_of : {f : Scores} → List (ScoredVideo f) → List ℕ
ids_of vs = map (λ v. v.video_id) vs

-- The loop that counts the fresh entries of `merged`.
unfoldable pub count_fresh : {f : Scores} → List ℕ → List (ScoredVideo f) → ℕ
count_fresh fresh [] = 0
count_fresh fresh (v ∷ vs) =
    let rest = count_fresh fresh vs in if contains v.video_id fresh then suc rest else rest

-- The loop that appends what is needed of `fresh`.
unfoldable pub inject :
    {f : Scores} → List ℕ → (needed : ℕ) → List (ScoredVideo f) → List (ScoredVideo f)
inject merged needed [] = []
inject merged zero (v ∷ vs) = []
inject merged (suc needed) (v ∷ vs) = elim (contains v.video_id merged) [
  | true ↦ inject merged (suc needed) vs
  | false ↦ v ∷ inject merged needed vs
]

-- `share n` is `int(float64(n) * freshRatio)`.
unfoldable pub fresh_injection :
    {f : Scores} → (share : ℕ → ℕ) → (merged fresh : List (ScoredVideo f)) → List (ScoredVideo f)
fresh_injection share [] fresh = []
fresh_injection share (m ∷ ms) [] = m ∷ ms
fresh_injection share (m ∷ ms) (v ∷ vs) =
    let merged = m ∷ ms in
    let fresh = v ∷ vs in
    let target = if ltb (share (length merged)) 1 then 1 else share (length merged) in
    let current = count_fresh (ids_of fresh) merged in
    if leb target current then merged else merged ++ inject (ids_of merged) (target - current) fresh

module _ (f : Scores) where
  unfoldable pub add_videos : (f.Score → f.Score) → List (ScoredVideo f) → Gathered f → Gathered f
  add_videos weight [] g = g
  add_videos weight (v ∷ vs) g = elim (contains v.video_id g.seen) [
    | true ↦ add_videos weight vs g
    | false ↦ add_videos weight vs (record {
      seen = add v.video_id g.seen;
      all = g.all ++ record v { score = weight v.score } ∷ [];
    })
  ]

  abbrev pub better : ScoredVideo f → ScoredVideo f → Bool
  better a b = f.greater a.score b.score

  unfoldable pub gather : (hot fresh cf social : List (ScoredVideo f)) → Gathered f
  gather hot fresh cf social =
      let nothing : Gathered f = record { seen = []; all = [] } in
      add_videos f.w_social social
        (add_videos f.w_cf cf (add_videos f.w_fresh fresh (add_videos f.w_hot hot nothing)))

  unfoldable pub merge_and_rank :
      Sorter better
      → (hot fresh cf social : List (ScoredVideo f)) → (limit : ℕ) → List (ScoredVideo f)
  merge_and_rank sorter hot fresh cf social limit =
      let all = sorter.sort (gather hot fresh cf social).all in
      if ltb limit (length all) then take limit all else all
