-- ===== src/Like/Aggregator.antt =====
-- `flush` of internal/like/aggregator.go, in the two parts between which the lock is free: the
-- map of deltas is swapped for an empty one, then it is sent, or merged back where that fails.
use go_shortvideo.Prelude.{◌%◌, none, some, List, [], ◌∷◌, ◌==◌, if◌then◌else◌}
use go_shortvideo.Prelude.Int.{ℤ, pos, negsuc}
use go_shortvideo.Dict.{Dict}
use go_shortvideo.Like.Redis.{Redis, Incr}
use go_shortvideo.Like.Service.{Service, add_delta, counter_shards}

-- The pipeline: a delta of 0 is passed over.
unfoldable pub commands : Dict ℤ → List Incr
commands [] = []
commands ((video, delta) ∷ m) =
    let rest = commands m in
    elim delta [
      | pos n ↦
          if n == 0
          then rest
          else record { video = video; shard = video % counter_shards; delta = pos n } ∷ rest
      | negsuc n ↦ record { video = video; shard = video % counter_shards; delta = negsuc n } ∷ rest
    ]

-- The loop that adds a failed batch back.
unfoldable pub merge_back : Dict ℤ → Dict ℤ → Dict ℤ
merge_back [] m = m
merge_back ((video, delta) ∷ batch) m = merge_back batch (add_delta video delta m)

module _ (redis : Redis) where
  -- The one goroutine of `Run` takes no batch while it has another.
  unfoldable pub take_batch : Service redis → Service redis
  take_batch s = elim s.batch [
    | some batch ↦ s
    | none ↦ elim s.deltas [
      | none ↦ s
      | some m ↦ elim m [ [] ↦ s | e ∷ es ↦ record s { deltas = some []; batch = some (e ∷ es) } ]
    ]
  ]

  unfoldable pub send_batch : Service redis → Service redis
  send_batch s = elim s.batch [
    | none ↦ s
    | some batch ↦
        let sent = redis.exec (commands batch) s.rdb in
        if sent.0 then record s { rdb = sent.1; batch = none } else record s {
          rdb = sent.1;
          batch = none;
          deltas = elim s.deltas [ none ↦ none | some m ↦ some (merge_back batch m) ];
        }
  ]
