-- ===== src/Like/Reconcile.antt =====
-- `syncVideo` of internal/like/reconcile.go: the count in Redis is corrected to that of the
-- database.
use go_shortvideo.Prelude.{
  ℕ, zero, suc, ◌%◌, ◌≡◌, sym, ap, ◌∙◌, Bool, true, false, none, some, ◌==◌, ltb, arith,
  if◌then◌else◌, map, Option-cases, Bool-cases, inl, inr,
}
use go_shortvideo.Prelude.Int.{ℤ, pos, negsuc, ◌+ℤ◌, ◌-ℤ◌, ltb_ℤ, +ℤ_parts, -ℤ_parts, eq_of_parts}
use go_shortvideo.Like.Redis.{Redis}
use go_shortvideo.Like.Service.{Service, count, incr_by, shard_keys, sum_values}
use go_shortvideo.Like.Sums.{counter-incr_by, +ℤ-pos_0, +ℤ_assoc, +ℤ_right_comm}
use go_shortvideo.Like.Count.{sum_ℤ, sum_values_lem, sum-snoc}

abbrev pub is_zero : ℤ → Bool
is_zero (pos n) = n == 0
is_zero (negsuc n) = false

-- The answer says whether there was no error.
unfoldable pub sync_video :
    (redis : Redis) → (video : ℕ) → (db_cnt : ℤ) → Service redis → Bool × Service redis
unfolding incr_by
sync_video redis video db_cnt s = elim (count redis video s) [
  | none ↦ (false, s)
  | some redis_cnt ↦
      let delta = db_cnt -ℤ redis_cnt in
      let sent = redis.exec (incr_by video delta) s.rdb in
      if is_zero delta then (true, s) else (sent.0, record s { rdb = sent.1 })
]

-- What the shards of a video add up to.
abbrev pub shard_sum : (redis : Redis) → (video : ℕ) → redis.State → ℤ
shard_sum redis video r = sum_ℤ (map (λ k. redis.counter k.0 k.1 r) (shard_keys video 16))

-- One shard grows.
sum-grown :
    (f g : ℕ × ℕ → ℤ) (d : ℤ) (video home n : ℕ)
    → ((j : ℕ) → g (video, j) ≡ (if j == home then f (video, j) +ℤ d else f (video, j)))
    → sum_ℤ (map g (shard_keys video n)) ≡ (
        if ltb home n
        then sum_ℤ (map f (shard_keys video n)) +ℤ d
        else sum_ℤ (map f (shard_keys video n)))
unfolding shard_keys
sum-grown f g d video home zero h = ground arith
sum-grown f g d video home (suc n) h =
    let s = sum_ℤ (map f (shard_keys video n)) in
    ground (
      arith,
      h n,
      sum-snoc f (shard_keys video n) (video, n),
      sum-snoc g (shard_keys video n) (video, n),
      sum-grown f g d video home n h,
      +ℤ_assoc s (f (video, n)) d,
      +ℤ_right_comm s d (f (video, n)),
    )

no_difference : (db n : ℕ) → is_zero (pos db -ℤ pos n) ≡ true → n ≡ db
unfolding ◌-ℤ◌
no_difference db n h = ground arith

add_difference : (db n : ℕ) → pos n +ℤ (pos db -ℤ pos n) ≡ pos db
add_difference db n =
    let d = pos db -ℤ pos n in
    eq_of_parts (pos n +ℤ d) (pos db) (omega (arith, +ℤ_parts (pos n) d, -ℤ_parts (pos db) (pos n)))

module _ (redis : Redis) (video : ℕ) where
  count_lem :
      (s : Service redis) (x : ℤ)
      → count redis video s ≡ some x
      → x ≡ (
          if ltb_ℤ (shard_sum redis video s.rdb) (pos 0)
          then pos 0
          else shard_sum redis video s.rdb)
  unfolding count
  count_lem s x h = elim (Option-cases (redis.mget (shard_keys video 16) s.rdb)) [
    | inl failed ↦ absurd (ground arith)
    | inr (vals, e) ↦
        let read : sum_values vals ≡ shard_sum redis video s.rdb =
          sum_values_lem vals ∙ ap sum_ℤ (redis.mget-some (shard_keys video 16) vals s.rdb e) in
        ground (arith, read)
  ]

  shard_sum-exec :
      (d : ℤ) (r : redis.State)
      → (redis.exec (incr_by video d) r).0 ≡ true
      → shard_sum redis video (redis.exec (incr_by video d) r).1 ≡ shard_sum redis video r +ℤ d
  unfolding incr_by
  shard_sum-exec d r went =
      let r' = (redis.exec (incr_by video d) r).1 in
      ground (
        arith,
        sum-grown (λ k. redis.counter k.0 k.1 r) (λ k. redis.counter k.0 k.1 r') d video
            (video % 16) 16
            (λ j. ground (
              arith,
              counter-incr_by redis video d video j r,
              +ℤ-pos_0 d,
              +ℤ-pos_0 (redis.counter video j r),
            )),
      )

  -- After a repair that reports no error, of counters that add up to 0 or more, a `Count` that is
  -- answered reads the count of the database.
  pub count-sync_video :
      (db n : ℕ) (s : Service redis) (x : ℤ)
      → let s' = (sync_video redis video (pos db) s).1 in
        shard_sum redis video s.rdb ≡ pos n
        → (sync_video redis video (pos db) s).0 ≡ true
        → count redis video s' ≡ some x
        → x ≡ pos db
  unfolding sync_video
  count-sync_video db n s x positive went read = elim (Option-cases (count redis video s)) [
    | inl failed ↦ absurd (ground arith)
    | inr (c, e) ↦
        let before : c ≡ pos n = ground (arith, count_lem s c e) in
        let d = pos db -ℤ c in
        elim (Bool-cases (is_zero d)) [
          | inl same ↦
              let kept : (sync_video redis video (pos db) s).1 ≡ s = ground arith in
              let again : x ≡ c = ground arith in
              again ∙ before ∙ ap pos (no_difference db n (ground arith))
          | inr other ↦
              let r = (redis.exec (incr_by video d) s.rdb).1 in
              let moved : (sync_video redis video (pos db) s).1 ≡ record s { rdb = r } =
                ground arith in
              let sent : (redis.exec (incr_by video d) s.rdb).0 ≡ true = ground arith in
              let sum : shard_sum redis video r ≡ pos db =
                shard_sum-exec d s.rdb sent
                ∙ ap (λ (y : ℤ). y +ℤ d) positive
                ∙ ap (λ (y : ℤ). pos n +ℤ (pos db -ℤ y)) before
                ∙ add_difference db n in
              ground (
                arith,
                sum,
                count_lem (record s { rdb = r }) x
                    (sym (ap (λ (q : Service redis). count redis video q) moved) ∙ read),
              )
        ]
  ]
