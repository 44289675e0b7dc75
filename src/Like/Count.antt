-- ===== src/Like/Count.antt =====
-- What `Count` reads after a history of the like service.
use go_shortvideo.Prelude.{
  ℕ, zero, suc, ◌%◌, ◌≡◌, refl, ap, ◌∙◌, false, Option, none, some, List, [], ◌∷◌, ◌++◌, ◌==◌, ltb,
  arith, if◌then◌else◌, All, Option-cases, inl, inr, map,
}
use go_shortvideo.Prelude.Int.{ℤ, pos, ◌+ℤ◌, ltb_ℤ}
use go_shortvideo.Like.Redis.{Redis, value_or_0}
use go_shortvideo.Like.Service.{Service, count, sum_values, shard_keys}
use go_shortvideo.Like.Calls.{Call, Below, run}
use go_shortvideo.Like.Sums.{sum_at, fans, +ℤ-pos_0, pos_0-+ℤ, +ℤ_assoc}
use go_shortvideo.Like.Balance.{Balanced, total}
use go_shortvideo.Like.Runs.{repeated, run-Balanced}

abbrev pub sum_ℤ : List ℤ → ℤ
sum_ℤ [] = pos 0
sum_ℤ (x ∷ xs) = x +ℤ sum_ℤ xs

pub sum_values_lem : (vals : List (Option ℤ)) → sum_values vals ≡ sum_ℤ (map value_or_0 vals)
unfolding sum_values
sum_values_lem [] = refl
sum_values_lem (v ∷ vals) = cc (sum_values_lem vals)

pub sum-snoc :
    (f : ℕ × ℕ → ℤ) (xs : List (ℕ × ℕ)) (k : ℕ × ℕ)
    → sum_ℤ (map f (xs ++ k ∷ [])) ≡ sum_ℤ (map f xs) +ℤ f k
sum-snoc f [] k = cc (+ℤ-pos_0 (f k), pos_0-+ℤ (f k))
sum-snoc f (x ∷ xs) k = cc (sum-snoc f xs k, +ℤ_assoc (f x) (sum_ℤ (map f xs)) (f k))

-- Only one shard counts.
sum-shard_keys :
    (f : ℕ × ℕ → ℤ) (video home n : ℕ)
    → ((j : ℕ) → (j == home) ≡ false → f (video, j) ≡ pos 0)
    → sum_ℤ (map f (shard_keys video n)) ≡ (if ltb home n then f (video, home) else pos 0)
unfolding shard_keys
sum-shard_keys f video home zero h = ground arith
sum-shard_keys f video home (suc n) h = ground (
  arith,
  h n,
  sum-snoc f (shard_keys video n) (video, n),
  sum-shard_keys f video home n h,
  +ℤ-pos_0 (f (video, home)),
  +ℤ-pos_0 (pos 0),
  pos_0-+ℤ (f (video, home)),
)

-- The service as it starts, with an aggregator.
abbrev pub start : (redis : Redis) → redis.State → Service redis
start redis r = record { rdb = r; deltas = some []; batch = none; published = [] }

module _ (redis : Redis) (r : redis.State) where
  abbrev pub Empty : Type 0
  Empty = ((a b : ℕ) → redis.member a b r ≡ false) × ((a b : ℕ) → redis.counter a b r ≡ pos 0)

  pub fans-Empty : Empty → (n k : ℕ) → fans redis n k r ≡ 0
  unfolding fans
  fans-Empty e zero k = refl
  fans-Empty e (suc n) k = ground (arith, e.0 n k, fans-Empty e n k)

  pub start-Balanced : Empty → (n : ℕ) → Balanced redis n (λ k. pos 0) (start redis r)
  unfolding sum_at
  start-Balanced e n = record {
    balance = λ k. cc (e.1 k (k % 16), fans-Empty e n k, +ℤ-pos_0 (pos 0));
    one_shard = λ k j h. e.1 k j;
    injected = ([], refl);
  }

  settled :
      (n k : ℕ) (x : ℤ) (s : Service redis)
      → s.deltas ≡ some []
      → s.batch ≡ none
      → total redis k s ≡ x
      → (if ltb (k % 16) 16 then redis.counter k (k % 16) s.rdb else pos 0) ≡ x
  unfolding sum_at
  settled n k x s flushed sent h =
      let c = redis.counter k (k % 16) s.rdb in
      ground (arith, h, flushed, sent, +ℤ-pos_0 c, +ℤ-pos_0 (c +ℤ pos 0))

  -- The likers of a video, and what flushes have counted twice.
  abbrev pub expected : (n video : ℕ) → List Call → ℤ
  expected n k cs =
      pos (fans redis n k (run redis cs (start redis r)).rdb) +ℤ repeated redis k cs (start redis r)

  -- From an empty Redis, through any history of likes and unlikes of the users below `n` and of
  -- flushes, whatever commands fail on the way, where a single command that fails has changed nothing
  -- and a pipeline that fails may have been run in any part: the counter of a video in Redis and the
  -- deltas that the aggregator still holds add up to the number of users whose set holds the video,
  -- and exactly what the failed pipelines of the flushes had run already, which is sent again.
  pub total-run :
      (n : ℕ) (cs : List Call)
      → Empty
      → All (Below n) cs
      → (k : ℕ) → total redis k (run redis cs (start redis r)) ≡ expected n k cs
  total-run n cs empty below k =
      let s = start redis r in
      let i = run-Balanced redis n (λ k. pos 0) cs s below (start-Balanced empty n) in
      i.balance k
      ∙ ap (λ (e : ℤ). pos (fans redis n k (run redis cs s).rdb) +ℤ e)
          (pos_0-+ℤ (repeated redis k cs s))

  -- From an empty Redis, through any history of likes and unlikes of the users below `n` and of
  -- flushes, whatever fails on the way, where a single command that fails has changed nothing and a
  -- pipeline that fails may have been run in any part: when no delta waits and no batch is on its way,
  -- a `Count` that is answered reads exactly the number of users whose set holds the video and what
  -- the failed pipelines of the flushes had run already, or 0 where that sum is below 0.
  pub count-run :
      (n : ℕ) (cs : List Call)
      → Empty
      → All (Below n) cs
      → let s = run redis cs (start redis r) in
        s.deltas ≡ some []
        → s.batch ≡ none
        → (k : ℕ) (x : ℤ) → count redis k s ≡ some x
        → x ≡ (if ltb_ℤ (expected n k cs) (pos 0) then pos 0 else expected n k cs)
  unfolding count
  count-run n cs empty below flushed sent k x h =
      let s = run redis cs (start redis r) in
      let i = run-Balanced redis n (λ k. pos 0) cs (start redis r) below (start-Balanced empty n) in
      elim (Option-cases (redis.mget (shard_keys k 16) s.rdb)) [
        | inl failed ↦ absurd (ground arith)
        | inr (vals, e) ↦
            let read : sum_values vals ≡ expected n k cs =
              sum_values_lem vals
              ∙ ap sum_ℤ (redis.mget-some (shard_keys k 16) vals s.rdb e)
              ∙ sum-shard_keys (λ key. redis.counter key.0 key.1 s.rdb) k (k % 16) 16
                  (i.one_shard k)
              ∙ settled n k (expected n k cs) s flushed sent (total-run n cs empty below k) in
            ground (arith, read)
      ]
