-- ===== src/Like/Effect.antt =====
-- What one step of the like service does to the sets in Redis and to the events.
use go_shortvideo.Prelude.{
  ℕ, ◌≡◌, ◌⊎◌, ◌&&◌, not, some, [], ◌∷◌, ◌++◌, ◌==◌, arith, if◌then◌else◌, Bool-cases, Option-cases,
  inl, inr,
}
use go_shortvideo.Prelude.Int.{ℤ, pos, negsuc}
use go_shortvideo.Dict.{Dict}
use go_shortvideo.Like.Redis.{Redis}
use go_shortvideo.Like.Service.{
  Service, LikeEvent, liked, unliked, like_event, add_delta, count_delta, like, like_new, unlike,
  unlike_old, publish,
}
use go_shortvideo.Like.Aggregator.{take_batch, send_batch, commands, merge_back}
use go_shortvideo.Like.Calls.{Call, step}
use go_shortvideo.Like.Consumer.{is_liked}

module _ (redis : Redis) where
  -- An aggregator is injected.
  abbrev pub Injected : Service redis → Type 0
  Injected s = (m : Dict ℤ) × (s.deltas ≡ some m)

  abbrev pub Quiet : Service redis → Service redis → Type 0
  Quiet s s' =
      ((a b : ℕ) → redis.member a b s'.rdb ≡ redis.member a b s.rdb) × (s'.published ≡ s.published)

  -- A pair goes into the sets or out of them, and an event tells of it.
  abbrev pub Tells : LikeEvent → Service redis → Service redis → Type 0
  Tells e s s' =
      ((a b : ℕ)
        → redis.member a b s'.rdb ≡ (
            if e.user_id == a && e.video_id == b
            then is_liked e.action
            else redis.member a b s.rdb))
      × ((s'.published ≡ s.published ++ (e ∷ []))
          × (redis.member e.user_id e.video_id s.rdb ≡ not (is_liked e.action)))

  abbrev pub Effect : Call → Service redis → Service redis → Type 0
  Effect (Call.like now u v) s s' = Quiet s s' ⊎ Tells (like_event redis now u v liked) s s'
  Effect (Call.unlike now u v) s s' = Quiet s s' ⊎ Tells (like_event redis now u v unliked) s s'
  Effect Call.take_batch s s' = Quiet s s'
  Effect Call.send_batch s s' = Quiet s s'

  Effect-like :
      (now u v : ℕ) (s : Service redis)
      → Injected s
      → Effect (Call.like now u v) s (like redis now u v s).1
  unfolding like like_new count_delta publish like_event
  Effect-like now u v s (m, held) = elim (Option-cases (redis.sadd u v s.rdb).0) [
    | inl e ↦ inl (λ a b. ground (arith, redis.member-sadd_none u v s.rdb e a b), ground arith)
    | inr (x, e) ↦
        let members = redis.member-sadd u v x s.rdb e in
        let answer = redis.sadd-some u v x s.rdb e in
        elim (Bool-cases (x == 0)) [
          | inl again ↦ inl (λ a b. ground (arith, members a b, answer), ground arith)
          | inr new ↦
              inr (λ a b. ground (arith, members a b), (ground arith, ground (arith, answer)))
        ]
  ]

  Effect-unlike :
      (now u v : ℕ) (s : Service redis)
      → Injected s
      → Effect (Call.unlike now u v) s (unlike redis now u v s).1
  unfolding unlike unlike_old count_delta publish like_event
  Effect-unlike now u v s (m, held) = elim (Option-cases (redis.srem u v s.rdb).0) [
    | inl e ↦ inl (λ a b. ground (arith, redis.member-srem_none u v s.rdb e a b), ground arith)
    | inr (x, e) ↦
        let members = redis.member-srem u v x s.rdb e in
        let answer = redis.srem-some u v x s.rdb e in
        elim (Bool-cases (x == 0)) [
          | inl again ↦ inl (λ a b. ground (arith, members a b, answer), ground arith)
          | inr new ↦
              inr (λ a b. ground (arith, members a b), (ground arith, ground (arith, answer)))
        ]
  ]

  Effect-send_batch : (s : Service redis) → Quiet s (send_batch redis s)
  unfolding send_batch
  Effect-send_batch s = (
    λ a b. elim (Option-cases s.batch) [
      | inl e ↦ ground arith
      | inr (batch, e) ↦ ground (arith, redis.member-exec (commands batch) a b s.rdb)
    ],
    ground arith,
  )

  pub Effect-step : (c : Call) (s : Service redis) → Injected s → Effect c s (step redis c s)
  unfolding step take_batch
  Effect-step (Call.like now u v) s i = Effect-like now u v s i
  Effect-step (Call.unlike now u v) s i = Effect-unlike now u v s i
  Effect-step Call.take_batch s i = (λ a b. ground arith, ground arith)
  Effect-step Call.send_batch s i = Effect-send_batch s

  Injected-take_batch :
      (s : Service redis) (m : Dict ℤ) → s.deltas ≡ some m → Injected (take_batch redis s)
  unfolding take_batch
  Injected-take_batch s [] held = ([], ground arith)
  Injected-take_batch s (e ∷ es) held = elim (Option-cases s.batch) [
    | inl nothing ↦ ([], ground arith)
    | inr (batch, sending) ↦ (e ∷ es, ground arith)
  ]

  Injected-send_batch :
      (s : Service redis) (m : Dict ℤ) → s.deltas ≡ some m → Injected (send_batch redis s)
  unfolding send_batch
  Injected-send_batch s m held = elim (Option-cases s.batch) [
    | inl nothing ↦ (m, ground arith)
    | inr (batch, e) ↦ elim (Bool-cases (redis.exec (commands batch) s.rdb).0) [
      | inl went ↦ (m, ground arith)
      | inr failed ↦ (merge_back batch m, ground arith)
    ]
  ]

  pub Injected-step : (c : Call) (s : Service redis) → Injected s → Injected (step redis c s)
  unfolding step take_batch send_batch like like_new unlike unlike_old count_delta publish
  Injected-step (Call.like now u v) s (m, held) = elim (Option-cases (redis.sadd u v s.rdb).0) [
    | inl e ↦ (m, ground arith)
    | inr (x, e) ↦ elim (Bool-cases (x == 0)) [
      | inl again ↦ (m, ground arith)
      | inr new ↦ (add_delta v (pos 1) m, ground arith)
    ]
  ]
  Injected-step (Call.unlike now u v) s (m, held) = elim (Option-cases (redis.srem u v s.rdb).0) [
    | inl e ↦ (m, ground arith)
    | inr (x, e) ↦ elim (Bool-cases (x == 0)) [
      | inl again ↦ (m, ground arith)
      | inr new ↦ (add_delta v (negsuc 0) m, ground arith)
    ]
  ]
  Injected-step Call.take_batch s (m, held) = Injected-take_batch s m held
  Injected-step Call.send_batch s (m, held) = Injected-send_batch s m held
