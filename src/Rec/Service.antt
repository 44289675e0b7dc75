-- ===== src/Rec/Service.antt =====
-- `GetRecommendFeed` of internal/rec/service.go and `MultiRecall` of recall.go, over the recalls of
-- store.go. Redis, the video and the like providers are parameters; `none` is an error.
use go_shortvideo.Prelude.{
  ℕ, Bool, false, String, Option, none, some, List, [], ◌∷◌, ◌==◌, ltb, map, length, take,
  if◌then◌else◌, ◌*◌,
}
use go_shortvideo.Dict.{Dict, lookup_or}
use go_shortvideo.Sort.{Sorter}
use go_shortvideo.Rec.Scorer.{
  Scores, ScoredVideo, ids_of, better, merge_and_rank, diversity_rerank, fresh_injection,
}
use go_shortvideo.Rec.Filter.{filter_seen, filter_self_author}
use go_shortvideo.Rec.Pools.{Pools, hot_recall, fresh_recall, cf_recall, is_seen}
use go_shortvideo.Prelude.Int.{pos}

abbrev pub page_size : ℕ
page_size = 10

abbrev pub recall_hot_limit : ℕ
recall_hot_limit = 30

abbrev pub recall_fresh_limit : ℕ
recall_fresh_limit = 15

abbrev pub recall_cf_limit : ℕ
recall_cf_limit = 20

pub record VideoVo : Type 0 where
  pub video_id : ℕ
  pub author_id : ℕ
  pub title : String
  pub play_url : String
  pub cover_url : String
  pub created_at : ℕ
  pub like_count : ℕ
  pub comment_count : ℕ
  pub liked : Bool

pub record FeedPage (f : Scores) : Type 0 where
  pub videos : List VideoVo
  pub next_cursor : f.Score

pub record RecallResult (f : Scores) : Type 0 where
  pub hot : List (ScoredVideo f)
  pub fresh : List (ScoredVideo f)
  pub cf : List (ScoredVideo f)
  pub social : List (ScoredVideo f)

-- What the service is given: Redis, at a state of which all of a page is read, and the providers.
-- `share n` is `int(float64(n) * 0.2)`.
pub record Sources (f : Scores) : Type 1 where
  pub redis : Pools f
  pub state : redis.State
  pub share : ℕ → ℕ
  pub batch_get : List ℕ → Option (List VideoVo)
  pub batch_is_liked : ℕ → List ℕ → Option (Dict Bool)

-- A recall that fails finds nothing.
abbrev pub or_nil {ℓ} : {A : Type ℓ} → Option (List A) → List A
or_nil none = []
or_nil (some xs) = xs

unfoldable pub mark : Option (Dict Bool) → VideoVo → VideoVo
mark liked v = record v {
  liked = elim liked [ none ↦ false | some m ↦ lookup_or false v.video_id m ];
}

module _ {f : Scores} where
  unfoldable pub last_score : List (ScoredVideo f) → f.Score
  last_score [] = f.zero_score
  last_score (v ∷ []) = v.score
  last_score (v ∷ w ∷ vs) = last_score (w ∷ vs)

module _ {f : Scores} (src : Sources f) where
  unfoldable pub multi_recall : (user : ℕ) → List (ScoredVideo f) → RecallResult f
  multi_recall user social = record {
    hot = or_nil (hot_recall f src.redis user (pos recall_hot_limit) src.state);
    fresh = or_nil (fresh_recall f src.redis user (pos recall_fresh_limit) src.state);
    cf = or_nil (cf_recall f src.redis user (pos recall_cf_limit) src.state);
    social = social;
  }

  module _ (sorter : Sorter (better f)) where
    -- Steps 2 to 5.
    unfoldable pub ranked : (user : ℕ) → RecallResult f → List (ScoredVideo f)
    ranked user result =
        let merged =
          merge_and_rank f sorter result.hot result.fresh result.cf result.social (page_size * 5) in
        diversity_rerank
          (filter_self_author (filter_seen (λ vs. is_seen f src.redis user vs src.state) merged)
            user)
          2

    -- Steps 1 to 7: the entries of a page.
    unfoldable pub candidates : (user : ℕ) → List (ScoredVideo f)
    candidates user =
        let result = multi_recall user [] in
        let merged = fresh_injection src.share (ranked user result) result.fresh in
        if ltb page_size (length merged) then take page_size merged else merged

    -- The page, and the ids that `MarkSeen` is given.
    unfoldable pub get_recommend_feed : (user : ℕ) → Option (FeedPage f × List ℕ)
    unfolding mark
    get_recommend_feed user =
        let merged = candidates user in
        let ids = ids_of merged in
        elim (src.batch_get ids) [
          | none ↦ none
          | some videos ↦ some (
            record {
              videos = map (mark (src.batch_is_liked user ids)) videos;
              next_cursor = if length merged == page_size then last_score merged else f.zero_score;
            },
            ids,
          )
        ]
