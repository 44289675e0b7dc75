-- ===== src/Like/Rollback.antt =====
-- `Like` and `Unlike` without an aggregator, where the counter cannot be written.
use go_shortvideo.Prelude.{ℕ, ◌+◌, ◌≡◌, refl, false, none, some, arith}
use go_shortvideo.Prelude.Int.{pos, negsuc}
use go_shortvideo.Like.Redis.{Redis}
use go_shortvideo.Like.Sums.{counter-incr_by}
use go_shortvideo.Like.Service.{Service, count_delta, incr_by, like, like_new, unlike, unlike_old}

module _ (redis : Redis) (now u v : ℕ) (s : Service redis) where
  abbrev gate : redis.State
  gate = (redis.sadd u v s.rdb).1

  abbrev ungate : redis.State
  ungate = (redis.srem u v s.rdb).1

  -- Without an aggregator, a `Like` that passed the gate, could not count and could be rolled back
  -- returns an error, every like and every counter is what it was, and no event is published.
  pub like-undo :
      (x y : ℕ)
      → s.deltas ≡ none
      → (redis.sadd u v s.rdb).0 ≡ some (1 + x)
      → (redis.exec (incr_by v (pos 1)) gate).0 ≡ false
      → (redis.srem u v (redis.exec (incr_by v (pos 1)) gate).1).0 ≡ some y
      → let s' = (like redis now u v s).1 in
        ((like redis now u v s).0 ≡ none)
        × ((a b : ℕ) → redis.member a b s'.rdb ≡ redis.member a b s.rdb)
        × ((a b : ℕ) → redis.counter a b s'.rdb ≡ redis.counter a b s.rdb)
        × (s'.published ≡ s.published)
  unfolding like like_new count_delta
  like-undo x y direct passed failed undone =
      let cs = incr_by v (pos 1) in
      let r = (redis.exec cs gate).1 in
      let back = (redis.srem u v r).1 in
      let whole : like redis now u v s ≡ (none, record s { rdb = back }) = ground arith in
      rw whole (
        refl,
        λ a b. ground (
          arith,
          redis.member-srem u v y r undone a b,
          redis.member-exec cs a b gate,
          redis.member-sadd u v (1 + x) s.rdb passed a b,
          redis.sadd-some u v (1 + x) s.rdb passed,
        ),
        λ a b. ground (
          arith,
          redis.counter-srem u v a b r,
          counter-incr_by redis v (pos 1) a b gate,
          redis.counter-sadd u v a b s.rdb,
        ),
        refl,
      )

  -- Without an aggregator, an `Unlike` that passed the gate, could not count and could be rolled
  -- back returns an error, every like and every counter is what it was, and no event is published.
  pub unlike-undo :
      (x y : ℕ)
      → s.deltas ≡ none
      → (redis.srem u v s.rdb).0 ≡ some (1 + x)
      → (redis.exec (incr_by v (negsuc 0)) ungate).0 ≡ false
      → (redis.sadd u v (redis.exec (incr_by v (negsuc 0)) ungate).1).0 ≡ some y
      → let s' = (unlike redis now u v s).1 in
        ((unlike redis now u v s).0 ≡ none)
        × ((a b : ℕ) → redis.member a b s'.rdb ≡ redis.member a b s.rdb)
        × ((a b : ℕ) → redis.counter a b s'.rdb ≡ redis.counter a b s.rdb)
        × (s'.published ≡ s.published)
  unfolding unlike unlike_old count_delta
  unlike-undo x y direct passed failed undone =
      let cs = incr_by v (negsuc 0) in
      let r = (redis.exec cs ungate).1 in
      let back = (redis.sadd u v r).1 in
      let whole : unlike redis now u v s ≡ (none, record s { rdb = back }) = ground arith in
      rw whole (
        refl,
        λ a b. ground (
          arith,
          redis.member-sadd u v y r undone a b,
          redis.member-exec cs a b ungate,
          redis.member-srem u v (1 + x) s.rdb passed a b,
          redis.srem-some u v (1 + x) s.rdb passed,
        ),
        λ a b. ground (
          arith,
          redis.counter-sadd u v a b r,
          counter-incr_by redis v (negsuc 0) a b ungate,
          redis.counter-srem u v a b s.rdb,
        ),
        refl,
      )
