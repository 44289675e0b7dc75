-- ===== src/Like/Service.antt =====
-- internal/like/service.go and read.go: `Like`, `Unlike` and `Count`. The counter is either the
-- aggregator of aggregator.go, or Redis itself. An error is `none`. What is handed to the event
-- producer, whose answer is ignored, is kept as a list.
use go_shortvideo.Prelude.{
  ℕ, zero, suc, ◌%◌, Bool, true, false, Option, none, some, List, [], ◌∷◌, ◌++◌, ◌==◌,
  if◌then◌else◌,
}
use go_shortvideo.Prelude.Int.{ℤ, pos, negsuc, ◌+ℤ◌, ltb_ℤ}
use go_shortvideo.Dict.{Dict, lookup_or, insert}
use go_shortvideo.Like.Redis.{Redis, Incr, value_or_0}

abbrev pub counter_shards : ℕ
counter_shards = 16

pub data Action : Type 0 where
  liked unliked : Action

pub record LikeEvent : Type 0 where
  pub user_id : ℕ
  pub video_id : ℕ
  pub action : Action
  pub ts_milli : ℕ

-- `deltas` is the map of the aggregator, `none` where no aggregator is injected; `batch` is what
-- its `flush` has taken out and not yet sent.
pub record Service (redis : Redis) : Type 0 where
  pub rdb : redis.State
  pub deltas : Option (Dict ℤ)
  pub batch : Option (Dict ℤ)
  pub published : List LikeEvent

-- `CounterAggregator.Add`
unfoldable pub add_delta : (video : ℕ) → ℤ → Dict ℤ → Dict ℤ
add_delta video delta m = insert video (lookup_or (pos 0) video m +ℤ delta) m

unfoldable pub incr_by : (video : ℕ) → ℤ → List Incr
incr_by video delta = record { video = video; shard = video % counter_shards; delta = delta } ∷ []

-- The keys of the shards 0 to n - 1.
unfoldable pub shard_keys : (video n : ℕ) → List (ℕ × ℕ)
shard_keys video zero = []
shard_keys video (suc n) = shard_keys video n ++ (video, n) ∷ []

-- The loop of `Count`: a missing counter is passed over.
unfoldable pub sum_values : List (Option ℤ) → ℤ
sum_values [] = pos 0
sum_values (v ∷ vs) = value_or_0 v +ℤ sum_values vs

module _ (redis : Redis) where
  -- The second step of `Like` and `Unlike`, and the answer whether it went well.
  unfoldable pub count_delta : (video : ℕ) → ℤ → Service redis → Bool × Service redis
  unfolding incr_by
  count_delta video delta s = elim s.deltas [
    | some m ↦ (true, record s { deltas = some (add_delta video delta m) })
    | none ↦
        let sent = redis.exec (incr_by video delta) s.rdb in (sent.0, record s { rdb = sent.1 })
  ]

  unfoldable pub publish : LikeEvent → Service redis → Service redis
  publish e s = record s { published = s.published ++ e ∷ [] }

  unfoldable pub like_event : (now user video : ℕ) → Action → LikeEvent
  like_event now user video action = record {
    user_id = user;
    video_id = video;
    action = action;
    ts_milli = now;
  }

  -- Behind the gate: count, or take the user out of the set again.
  unfoldable pub like_new : (now user video : ℕ) → Service redis → Option Bool × Service redis
  like_new now user video s =
      let counted = count_delta video (pos 1) s in
      if counted.0
      then (some true, publish (like_event now user video liked) counted.1)
      else (none, record counted.1 { rdb = (redis.srem user video counted.1.rdb).1 })

  unfoldable pub like : (now user video : ℕ) → Service redis → Option Bool × Service redis
  like now user video s =
      let gate = redis.sadd user video s.rdb in
      let s' = record s { rdb = gate.1 } in
      elim gate.0 [
        | none ↦ (none, s')
        | some n ↦ if n == 0 then (some false, s') else like_new now user video s'
      ]

  unfoldable pub unlike_old : (now user video : ℕ) → Service redis → Option Bool × Service redis
  unlike_old now user video s =
      let counted = count_delta video (negsuc 0) s in
      if counted.0
      then (some true, publish (like_event now user video unliked) counted.1)
      else (none, record counted.1 { rdb = (redis.sadd user video counted.1.rdb).1 })

  unfoldable pub unlike : (now user video : ℕ) → Service redis → Option Bool × Service redis
  unlike now user video s =
      let gate = redis.srem user video s.rdb in
      let s' = record s { rdb = gate.1 } in
      elim gate.0 [
        | none ↦ (none, s')
        | some n ↦ if n == 0 then (some false, s') else unlike_old now user video s'
      ]

  -- A negative sum counts as 0.
  unfoldable pub count : (video : ℕ) → Service redis → Option ℤ
  count video s = elim (redis.mget (shard_keys video counter_shards) s.rdb) [
    | none ↦ none
    | some vals ↦ let total = sum_values vals in some (if ltb_ℤ total (pos 0) then pos 0 else total)
  ]
