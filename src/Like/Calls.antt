-- ===== src/Like/Calls.antt =====
-- A history of the like service with its aggregator: the calls of the clients and the two parts of
-- `flush`, in any order.
use go_shortvideo.Prelude.{ℕ, ◌<◌, List, [], ◌∷◌}
use go_shortvideo.Like.Redis.{Redis}
use go_shortvideo.Like.Service.{Service, like as like_video, unlike as unlike_video}
use go_shortvideo.Like.Aggregator.{take_batch as take, send_batch as send}

pub data Call : Type 0 where
  like unlike : (now user video : ℕ) → Call
  take_batch send_batch : Call

-- The user of a call is below the bound.
abbrev pub Below : ℕ → Call → Type 0
Below n (Call.like now user video) = user < n
Below n (Call.unlike now user video) = user < n
Below n Call.take_batch = Unit
Below n Call.send_batch = Unit

module _ (redis : Redis) where
  unfoldable pub step : Call → Service redis → Service redis
  step (Call.like now user video) s = (like_video redis now user video s).1
  step (Call.unlike now user video) s = (unlike_video redis now user video s).1
  step Call.take_batch s = take redis s
  step Call.send_batch s = send redis s

  unfoldable pub run : List Call → Service redis → Service redis
  run [] s = s
  run (c ∷ cs) s = run cs (step c s)
