-- ===== src/Tests/RecRuns.antt =====
-- The recommendation's theorems at sample inputs: scores are tenths, counted in naturals.
use go_shortvideo.Prelude.{
  ℕ, ◌||◌, ◌+◌, ◌-◌, ◌*◌, ◌/◌, ◌≡◌, ◌≤◌, refl, false, none, some, List, [], ◌∷◌, ◌++◌, ◌==◌, map,
  arith, ltb, All, length, min, take,
}
use go_shortvideo.Prelude.Int.{pos_part}
use go_shortvideo.Dict.{lookup, insert}
use go_shortvideo.IdSet.{contains, add, Distinct}
use go_shortvideo.Sort.{Sorter, IsOrder, slice_sorter, sort_slice, Ordered}
use go_shortvideo.Rec.Scorer.{
  Scores, ScoredVideo, ids_of, better, merge_and_rank, diversity_rerank, rerank_from,
  fresh_injection, count_fresh, inject, gather, add_videos,
}
use go_shortvideo.Rec.Diversity.{by_author, by_author-diversity_rerank}
use go_shortvideo.Rec.Injection.{target, spare, fresh_injection_lem}
use go_shortvideo.Rec.Filter.{filter_seen, filter_self_author}
use go_shortvideo.Rec.Pools.{
  Pools, PoolKey, zrev_range, hot_recall, fresh_recall, cf_recall, is_seen, answers,
}
use go_shortvideo.Rec.Service.{Sources, multi_recall, ranked, candidates}
use go_shortvideo.Rec.Merge.{merge_and_rank_lem}
use go_shortvideo.Rec.Page.{Unseen, asked, fresh_pool, candidates_lem}

abbrev tenths : Scores
tenths = record {
  Score = ℕ;
  zero_score = 0;
  greater = λ a b. ltb b a;
  w_hot = λ x. x * 10;
  w_fresh = λ x. x * 7;
  w_cf = λ x. x * 12;
  w_social = λ x. x * 9;
}

better-IsOrder : IsOrder (better tenths)
better-IsOrder = record { asym = λ a b h. ground arith; ge_trans = λ a b c h k. ground arith }

abbrev by_score : Sorter (better tenths)
by_score = slice_sorter better-IsOrder

abbrev entry : (video author score : ℕ) → ScoredVideo tenths
entry video author score = record { video_id = video; author_id = author; score = score }

abbrev hot : List (ScoredVideo tenths)
hot = entry 1 7 90 ∷ entry 2 7 80 ∷ entry 3 8 70 ∷ entry 4 7 60 ∷ []

abbrev fresh : List (ScoredVideo tenths)
fresh = entry 1 7 5 ∷ entry 5 9 4 ∷ entry 6 8 3 ∷ []

by_author-diversity_rerank_example : by_author 7 (diversity_rerank hot 2) ≡ take 2 (by_author 7 hot)
by_author-diversity_rerank_example = by_author-diversity_rerank hot 2 7 (omega arith)

reranked : diversity_rerank hot 2 ≡ entry 1 7 90 ∷ entry 2 7 80 ∷ entry 3 8 70 ∷ []
unfolding diversity_rerank rerank_from lookup insert
reranked = refl

-- A page of four with a share of two, and one fresh video on it.
fresh_injection_lem_example :
    let needed = target (λ n. n / 2) hot - count_fresh (ids_of fresh) hot in
    (fresh_injection (λ n. n / 2) hot fresh ≡ hot ++ take needed (spare hot fresh))
    × (count_fresh (ids_of fresh) (fresh_injection (λ n. n / 2) hot fresh)
        ≡ count_fresh (ids_of fresh) hot + min needed (length (spare hot fresh)))
fresh_injection_lem_example =
    fresh_injection_lem (λ n. n / 2) (entry 1 7 90) (entry 1 7 5)
      (entry 2 7 80 ∷ entry 3 8 70 ∷ entry 4 7 60 ∷ []) (entry 5 9 4 ∷ entry 6 8 3 ∷ [])

injected_one : fresh_injection (λ n. n / 2) hot fresh ≡ hot ++ entry 5 9 4 ∷ []
unfolding fresh_injection count_fresh inject contains
injected_one = refl

-- Redis with two pools of four and three videos, of which video 2 is seen; scores are tenths.
abbrev stored : PoolKey → List (ℕ × ℕ)
stored (PoolKey.hot n) = (90, 1) ∷ (80, 2) ∷ (70, 3) ∷ (60, 4) ∷ []
stored (PoolKey.fresh n) = (5, 1) ∷ (4, 5) ∷ (3, 6) ∷ []
stored (PoolKey.cf n) = []
stored (PoolKey.cf_sim n) = []
stored (PoolKey.seen n) = []

abbrev redis : Pools tenths
redis = record {
  State = Unit;
  run = λ c s. s;
  exec = λ cs s. s;
  zrev_range_with_scores = λ key start stop s. some (stored key);
  sis_members = λ key vs s. some (map (λ v. v == 2) vs);
  millis = λ t. pos_part t;
  heat_score = λ now likes comments created. likes;
}

abbrev pools : Sources tenths
pools = record {
  redis = redis;
  state = tt;
  share = λ n. n / 5;
  batch_get = λ vs. some [];
  batch_is_liked = λ u vs. none;
}

-- Of the videos that are not seen the rerank keeps two, and one of them is in the fresh pool: a page of
-- ten has two.
page_of_two : map (λ v. v.video_id) (candidates pools by_score 8) ≡ 1 ∷ 3 ∷ []
unfolding candidates multi_recall ranked hot_recall fresh_recall cf_recall zrev_range is_seen
    answers merge_and_rank gather add_videos filter_seen filter_self_author diversity_rerank
    rerank_from fresh_injection count_fresh inject contains add lookup insert sort_slice
page_of_two = refl

candidates_lem_example :
    let page = candidates pools by_score 8 in
    (length page ≤ 3)
    × All
        (λ v.
          contains v.video_id (ids_of (fresh_pool pools by_score 8)) ≡ false
          → Unseen (asked pools by_score 8) v)
        page
candidates_lem_example = candidates_lem pools by_score 8 (λ n h. omega arith)

merge_and_rank_lem_example :
    let page = merge_and_rank tenths by_score hot fresh [] [] 3 in
    (left : List (ScoredVideo tenths)) × Distinct (ids_of (page ++ left))
    × ((k : ℕ)
        → contains k (ids_of (page ++ left))
          ≡ (contains k (ids_of hot) || contains k (ids_of fresh) || false || false))
    × Ordered (better tenths) (page ++ left)
    × (length page ≡ min 3 (length (page ++ left)))
unfolding contains
merge_and_rank_lem_example = merge_and_rank_lem tenths hot fresh [] [] by_score 3
