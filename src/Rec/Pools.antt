-- ===== src/Rec/Pools.antt =====
-- internal/rec/store.go, and the background task of internal/rec/service.go: the pools of the
-- recommendation in Redis, which is a parameter. A member of a set is the id that the code writes; its
-- decimal text is left out, and so are the texts of the keys.
use go_shortvideo.Prelude.{
  ℕ, zero, suc, ◌*◌, ◌%◌, Bool, Option, none, some, List, [], ◌∷◌, ◌++◌, map,
}
use go_shortvideo.Prelude.Int.{ℤ, pos, ◌-ℤ◌}
use go_shortvideo.Dict.{Dict, insert}
use go_shortvideo.Rec.Scorer.{Scores, ScoredVideo}

abbrev pub shard_count : ℕ
shard_count = 4

abbrev pub seen_ttl : ℕ
seen_ttl = 7 * 24 * 3600

abbrev pub cf_ttl : ℕ
cf_ttl = 30 * 60

abbrev pub cf_sim_ttl : ℕ
cf_sim_ttl = 2 * 3600

-- `hotKey`, `freshKey`, `cfKey`, `cfSimKey` and `seenKey`
pub data PoolKey : Type 0 where
  hot fresh cf cf_sim seen : ℕ → PoolKey

module _ (f : Scores) where
  pub data Command : Type 0 where
    zadd : PoolKey → List (f.Score × ℕ) → Command
    zrem_range_by_score : PoolKey → (max : f.Score) → Command
    sadd : PoolKey → List ℕ → Command
    expire : PoolKey → (seconds : ℕ) → Command
    del : PoolKey → Command

  -- The answers of writes are ignored. `millis` is the conversion of a time to a score, and
  -- `heat_score` is `HeatScore`, whose result depends on the time of the call.
  pub record Pools : Type 1 where
    pub State : Type 0
    pub run : Command → State → State
    pub exec : List Command → State → State
    pub zrev_range_with_scores : PoolKey → (start stop : ℤ) → State → Option (List (f.Score × ℕ))
    pub sis_members : PoolKey → List ℕ → State → Option (List Bool)
    pub millis : ℤ → f.Score
    pub heat_score : (now like_count comment_count created_at : ℕ) → f.Score

  module _ (redis : Pools) where
    -- The loop of `UpdateHotScore` and of `AddToFresh`, over the first shards.
    unfoldable pub add_to_shards :
        (ℕ → PoolKey) → (shards : ℕ) → f.Score → (video : ℕ) → redis.State → redis.State
    add_to_shards key zero score video s = s
    add_to_shards key (suc i) score video s =
        redis.run (zadd (key i) ((score, video) ∷ [])) (add_to_shards key i score video s)

    unfoldable pub update_hot_score :
        (now video like_count comment_count created_at : ℕ) → redis.State → redis.State
    unfolding add_to_shards
    update_hot_score now video likes comments created s =
        add_to_shards hot shard_count (redis.heat_score now likes comments created) video s

    unfoldable pub add_to_fresh : (video ts : ℕ) → redis.State → redis.State
    unfolding add_to_shards
    add_to_fresh video ts s = add_to_shards fresh shard_count (redis.millis (pos ts)) video s

    -- The loop of `PrunePools`.
    unfoldable pub prune_shards : (shards : ℕ) → f.Score → redis.State → redis.State
    prune_shards zero min_score s = s
    prune_shards (suc i) min_score s =
        redis.run (zrem_range_by_score (fresh i) min_score)
          (redis.run (zrem_range_by_score (hot i) min_score) (prune_shards i min_score s))

    -- Times and ages are in milliseconds.
    unfoldable pub prune_pools : (now max_age : ℕ) → redis.State → redis.State
    unfolding prune_shards
    prune_pools now max_age s = prune_shards shard_count (redis.millis (pos now -ℤ pos max_age)) s

    -- `zRevRange`: the author of an entry is never set.
    unfoldable pub zrev_range : PoolKey → ℤ → redis.State → Option (List (ScoredVideo f))
    zrev_range key limit s = elim (redis.zrev_range_with_scores key (pos 0) (limit -ℤ pos 1) s) [
      | none ↦ none
      | some zs ↦ some (map (λ z. record { video_id = z.1; author_id = 0; score = z.0 }) zs)
    ]

    unfoldable pub hot_recall : (user : ℕ) → ℤ → redis.State → Option (List (ScoredVideo f))
    unfolding zrev_range
    hot_recall user limit s = zrev_range (hot (user % shard_count)) limit s

    unfoldable pub fresh_recall : (user : ℕ) → ℤ → redis.State → Option (List (ScoredVideo f))
    unfolding zrev_range
    fresh_recall user limit s = zrev_range (fresh (user % shard_count)) limit s

    unfoldable pub cf_recall : (user : ℕ) → ℤ → redis.State → Option (List (ScoredVideo f))
    unfolding zrev_range
    cf_recall user limit s = zrev_range (cf user) limit s

    unfoldable pub mark_seen : (user : ℕ) → List ℕ → redis.State → redis.State
    mark_seen user [] s = s
    mark_seen user (v ∷ vs) s =
        redis.exec (sadd (seen user) (v ∷ vs) ∷ expire (seen user) seen_ttl ∷ []) s

    -- The loop of `IsSeen` over the answers.
    unfoldable pub answers : List ℕ → List Bool → Dict Bool → Dict Bool
    answers [] flags res = res
    answers (v ∷ vs) [] res = res
    answers (v ∷ vs) (b ∷ flags) res = answers vs flags (insert v b res)

    unfoldable pub is_seen : (user : ℕ) → List ℕ → redis.State → Option (Dict Bool)
    unfolding answers
    is_seen user [] s = some []
    is_seen user (v ∷ vs) s = elim (redis.sis_members (seen user) (v ∷ vs) s) [
      | none ↦ none
      | some flags ↦ some (answers (v ∷ vs) flags [])
    ]

    abbrev pub members_of : List (ScoredVideo f) → List (f.Score × ℕ)
    members_of videos = map (λ v. (v.score, v.video_id)) videos

    -- `ZADD` of the members, where there are any.
    abbrev pub zadd_all : PoolKey → List (f.Score × ℕ) → List Command
    zadd_all key [] = []
    zadd_all key (z ∷ zs) = zadd key (z ∷ zs) ∷ []

    unfoldable pub update_cf_sim : (video : ℕ) → List (ScoredVideo f) → redis.State → redis.State
    update_cf_sim video similar s =
        redis.exec
          (zadd_all (cf_sim video) (members_of similar) ++ expire (cf_sim video) cf_sim_ttl ∷ []) s

    unfoldable pub get_cf_sim : (video : ℕ) → ℤ → redis.State → Option (List (ScoredVideo f))
    unfolding zrev_range
    get_cf_sim video limit s = zrev_range (cf_sim video) limit s

    unfoldable pub set_cf_for_user : (user : ℕ) → List (ScoredVideo f) → redis.State → redis.State
    set_cf_for_user user videos s =
        redis.exec
          (del (cf user) ∷ (zadd_all (cf user) (members_of videos) ++ expire (cf user) cf_ttl ∷ []))
          s

    -- `VideoStats`, and the loop of `refreshPools`
    pub record VideoStats : Type 0 where
      pub video_id : ℕ
      pub like_count : ℕ
      pub comment_count : ℕ
      pub created_at : ℕ

    unfoldable pub refresh_pools : (now : ℕ) → List VideoStats → redis.State → redis.State
    refresh_pools now [] s = s
    refresh_pools now (v ∷ vs) s =
        refresh_pools now vs
          (update_hot_score now v.video_id v.like_count v.comment_count v.created_at s)

    -- A round of `RunBackgroundTasks`.
    unfoldable pub background_round : (now : ℕ) → List VideoStats → redis.State → redis.State
    background_round now stats s = prune_pools now (7 * 24 * 3600000) (refresh_pools now stats s)
