-- ===== src/Like/Balance.antt =====
-- The counters of the like service against the sets, through every history with the aggregator.
use mathlib.Core.Path.{subst}
use go_shortvideo.Prelude.{
  zero, suc, ap, List, ℕ, ◌%◌, ◌≡◌, ◌<◌, refl, sym, ◌∙◌, Bool, true, false, ◌&&◌, Option, none,
  some, [], ◌∷◌, ◌==◌, arith, if◌then◌else◌, Bool-cases, Option-cases, inl, inr,
}
use go_shortvideo.Prelude.Int.{ℤ, pos, negsuc, ◌+ℤ◌, +ℤ_parts, eq_of_parts}
use go_shortvideo.Dict.{Dict}
use go_shortvideo.Like.Redis.{Redis, Incr, added, picked, flag}
use go_shortvideo.Like.Service.{Service, add_delta}
use go_shortvideo.Like.Aggregator.{commands, merge_back, take_batch, send_batch}
use go_shortvideo.Like.Sums.{
  sum_at, sum_at-add_delta, sum_at-merge_back, added-commands, fans, fans-same, fans-change,
  +ℤ-pos_0, +ℤ_assoc, +ℤ_right_comm,
}

abbrev pub waiting : ℕ → Option (Dict ℤ) → ℤ
waiting k none = pos 0
waiting k (some m) = sum_at k m

shift : (c x w d : ℤ) → c +ℤ (x +ℤ d) +ℤ w ≡ (c +ℤ x +ℤ w) +ℤ d
shift c x w d = cc (+ℤ_assoc c x d, +ℤ_right_comm (c +ℤ x) d w)

shift_ran : (c a m b : ℤ) → c +ℤ a +ℤ (m +ℤ b) ≡ c +ℤ m +ℤ b +ℤ a
shift_ran c a m b = cc (+ℤ_assoc (c +ℤ a) m b, +ℤ_right_comm c a m, +ℤ_right_comm (c +ℤ m) a b)

-- A batch touches one shard only, whatever part of it is run.
added-picked :
    (k j : ℕ) (flags : List Bool) (m : Dict ℤ)
    → (j == k % 16) ≡ false
    → added k j (picked flags (commands m)) ≡ pos 0
unfolding commands
added-picked k j flags [] e = refl
added-picked k j flags ((v, pos zero) ∷ m) e = added-picked k j flags m e
added-picked k j [] ((v, pos (suc d)) ∷ m) e = ground arith
added-picked k j (f ∷ flags) ((v, pos (suc d)) ∷ m) e = ground (arith, added-picked k j flags m e)
added-picked k j [] ((v, negsuc d) ∷ m) e = refl
added-picked k j (f ∷ flags) ((v, negsuc d) ∷ m) e = ground (arith, added-picked k j flags m e)

module _ (redis : Redis) where
  -- What Redis counts, and what the aggregator still holds.
  abbrev pub total : ℕ → Service redis → ℤ
  total k s = redis.counter k (k % 16) s.rdb +ℤ waiting k s.deltas +ℤ waiting k s.batch

  -- What a pipeline of a batch has added to the counter of a video.
  abbrev pub run_of : (video : ℕ) → Dict ℤ → Service redis → ℤ
  run_of k batch s = added k (k % 16) (picked (redis.ran (commands batch) s.rdb) (commands batch))

  -- What the pipeline of a flush has added to the counter of a video although it is answered with an
  -- error: the flush merges it back and sends it again.
  abbrev pub repeated_by : (video : ℕ) → Service redis → ℤ
  repeated_by k s = elim s.batch [
    | none ↦ pos 0
    | some batch ↦ if (redis.exec (commands batch) s.rdb).0 then pos 0 else run_of k batch s
  ]

  -- The counts are those of the sets, but for what is said to be counted beside them.
  pub record Balanced (n : ℕ) (x : ℕ → ℤ) (s : Service redis) : Type 0 where
    pub balance : (k : ℕ) → total k s ≡ pos (fans redis n k s.rdb) +ℤ x k
    pub one_shard : (k j : ℕ) → (j == k % 16) ≡ false → redis.counter k j s.rdb ≡ pos 0
    pub injected : (m : Dict ℤ) × (s.deltas ≡ some m)

  total-grown :
      (k v : ℕ) (d : ℤ) (s s' : Service redis) (m : Dict ℤ)
      → redis.counter k (k % 16) s'.rdb ≡ redis.counter k (k % 16) s.rdb
      → s.deltas ≡ some m
      → s'.deltas ≡ some (add_delta v d m)
      → s'.batch ≡ s.batch
      → total k s' ≡ (if v == k then total k s +ℤ d else total k s)
  total-grown k v d s s' m counters before after same = ground (
    arith,
    sum_at-add_delta k v d m,
    shift (redis.counter k (k % 16) s.rdb) (sum_at k m) (waiting k s.batch) d,
  )

  -- The gate moves nothing but one pair, and what is counted behind it is the same change.
  pub gated :
      (n u v : ℕ) (x : ℕ → ℤ) (now : Bool) (d : ℤ) (s s' : Service redis) (m : Dict ℤ)
      → u < n
      → Balanced n x s
      → ((a b : ℕ)
          → redis.member a b s'.rdb ≡ (if u == a && v == b then now else redis.member a b s.rdb))
      → ((a b : ℕ) → redis.counter a b s'.rdb ≡ redis.counter a b s.rdb)
      → s.deltas ≡ some m
      → s'.deltas ≡ some (add_delta v d m)
      → s'.batch ≡ s.batch
      → (pos (flag (redis.member u v s.rdb)) +ℤ d ≡ pos (flag now))
      → Balanced n x s'
  gated n u v x now d s s' m below i members counters before after same exact = record {
    balance = λ k.
        let grown : total k s' ≡ (if v == k then total k s +ℤ d else total k s) =
          total-grown k v d s s' m (counters k (k % 16)) before after same in
        let old = flag (redis.member u v s.rdb) in
        let f = fans redis n k s.rdb in
        let f' = fans redis n k s'.rdb in
        eq_of_parts (total k s') (pos f' +ℤ x k) (
          ground (
            arith,
            grown,
            i.balance k,
            exact,
            +ℤ_parts (pos f) (x k),
            +ℤ_parts (pos f') (x k),
            +ℤ_parts (pos f +ℤ x k) d,
            +ℤ_parts (pos old) d,
            fans-change redis n k u v now s.rdb s'.rdb members,
          ));
    one_shard = λ k j e. counters k j ∙ i.one_shard k j e;
    injected = (add_delta v d m, after);
  }

  pub along : (n : ℕ) (x : ℕ → ℤ) (s s' : Service redis) → s' ≡ s → Balanced n x s → Balanced n x s'
  along n x s s' e i = subst (λ (y : Service redis). Balanced n x y) (sym e) i

  pub Balanced-same :
      (n : ℕ) (x y : ℕ → ℤ) (s : Service redis)
      → ((k : ℕ) → y k ≡ x k)
      → Balanced n x s
      → Balanced n y s
  Balanced-same n x y s same i = record {
    balance = λ k. i.balance k ∙ ap (λ (e : ℤ). pos (fans redis n k s.rdb) +ℤ e) (sym (same k));
    one_shard = i.one_shard;
    injected = i.injected;
  }

  taken :
      (n : ℕ) (x : ℕ → ℤ) (s : Service redis) (m : Dict ℤ)
      → s.deltas ≡ some m
      → s.batch ≡ none
      → Balanced n x s
      → Balanced n x (record s { deltas = some []; batch = some m })
  unfolding sum_at
  taken n x s m held idle i = record {
    balance = λ k.
        let c = redis.counter k (k % 16) s.rdb in
        cc (i.balance k, held, idle, +ℤ-pos_0 c, +ℤ-pos_0 (c +ℤ sum_at k m));
    one_shard = i.one_shard;
    injected = ([], refl);
  }

  take_of :
      (n : ℕ) (x : ℕ → ℤ) (s : Service redis) (m : Dict ℤ)
      → s.deltas ≡ some m
      → s.batch ≡ none
      → Balanced n x s
      → Balanced n x (take_batch redis s)
  unfolding take_batch
  take_of n x s [] held idle i = along n x s (take_batch redis s) (ground arith) i
  take_of n x s (e ∷ es) held idle i =
      along n x (record s { deltas = some []; batch = some (e ∷ es) }) (take_batch redis s)
        (ground arith) (taken n x s (e ∷ es) held idle i)

  pub take_batch-Balanced :
      (n : ℕ) (x : ℕ → ℤ) (s : Service redis) → Balanced n x s → Balanced n x (take_batch redis s)
  unfolding take_batch
  take_batch-Balanced n x s i = elim (Option-cases s.batch) [
    | inr (b, e) ↦ along n x s (take_batch redis s) (ground arith) i
    | inl idle ↦ take_of n x s i.injected.0 i.injected.1 idle i
  ]

  sent :
      (n : ℕ) (x : ℕ → ℤ) (s : Service redis) (batch : Dict ℤ)
      → s.batch ≡ some batch
      → (redis.exec (commands batch) s.rdb).0 ≡ true
      → Balanced n x s
      → Balanced n x (record s { rdb = (redis.exec (commands batch) s.rdb).1; batch = none })
  sent n x s batch full went i =
      let counted = λ (k j : ℕ).
        redis.counter-exec (commands batch) k j s.rdb
        ∙ ap (λ (cs : List Incr). redis.counter k j s.rdb +ℤ added k j cs)
            (redis.ran_all (commands batch) s.rdb went) in
      let alike = λ (a b : ℕ). redis.member-exec (commands batch) a b s.rdb in
      record {
        balance = λ k.
            let c = redis.counter k (k % 16) s.rdb in
            let w = waiting k s.deltas in
            ground (
              arith,
              i.balance k,
              counted k (k % 16),
              added-commands k (k % 16) batch,
              fans-same redis n k s.rdb (redis.exec (commands batch) s.rdb).1 alike,
              +ℤ_right_comm c (sum_at k batch) w,
              +ℤ-pos_0 (c +ℤ sum_at k batch +ℤ w),
            );
        one_shard = λ k j e.
            ground
              (arith, counted k j, added-commands k j batch, i.one_shard k j e, +ℤ-pos_0 (pos 0));
        injected = i.injected;
      }

  lost :
      (n : ℕ) (x : ℕ → ℤ) (s : Service redis) (batch m : Dict ℤ)
      → s.batch ≡ some batch
      → s.deltas ≡ some m
      → (redis.exec (commands batch) s.rdb).0 ≡ false
      → Balanced n x s
      → Balanced n
          (λ k. x k +ℤ run_of k batch s)
          (record s {
            rdb = (redis.exec (commands batch) s.rdb).1;
            batch = none;
            deltas = some (merge_back batch m);
          })
  lost n x s batch m full held failed i =
      let counted = λ (k j : ℕ). redis.counter-exec (commands batch) k j s.rdb in
      let alike = λ (a b : ℕ). redis.member-exec (commands batch) a b s.rdb in
      record {
        balance = λ k.
            let c = redis.counter k (k % 16) s.rdb in
            ground (
              arith,
              i.balance k,
              counted k (k % 16),
              fans-same redis n k s.rdb (redis.exec (commands batch) s.rdb).1 alike,
              sum_at-merge_back k batch m,
              shift_ran c (run_of k batch s) (sum_at k m) (sum_at k batch),
              +ℤ-pos_0 (c +ℤ run_of k batch s +ℤ (sum_at k m +ℤ sum_at k batch)),
              +ℤ_assoc (pos (fans redis n k s.rdb)) (x k) (run_of k batch s),
            );
        one_shard = λ k j e. ground (
          arith,
          counted k j,
          i.one_shard k j e,
          added-picked k j (redis.ran (commands batch) s.rdb) batch e,
          +ℤ-pos_0 (pos 0),
        );
        injected = (merge_back batch m, refl);
      }

  pub send_batch-Balanced :
      (n : ℕ) (x : ℕ → ℤ) (s : Service redis)
      → Balanced n x s
      → Balanced n (λ k. x k +ℤ repeated_by k s) (send_batch redis s)
  unfolding send_batch
  send_batch-Balanced n x s i = elim (Option-cases s.batch) [
    | inl e ↦
        along n _ s (send_batch redis s) (ground arith)
          (Balanced-same n x _ s (λ k. ground (arith, +ℤ-pos_0 (x k))) i)
    | inr (batch, full) ↦ elim (Bool-cases (redis.exec (commands batch) s.rdb).0) [
      | inl went ↦
          let s' = record s { rdb = (redis.exec (commands batch) s.rdb).1; batch = none } in
          along n _ s' (send_batch redis s) (ground arith) (
            Balanced-same n x _ s' (λ k. ground (arith, +ℤ-pos_0 (x k)))
              (sent n x s batch full went i))
      | inr failed ↦
          let (m, held) = i.injected in
          let s' = record s {
            rdb = (redis.exec (commands batch) s.rdb).1;
            batch = none;
            deltas = some (merge_back batch m);
          } in
          along n _ s' (send_batch redis s) (ground arith)
            (Balanced-same n _ _ s' (λ k. ground arith) (lost n x s batch m full held failed i))
    ]
  ]

  pub unchanged :
      (n : ℕ) (x : ℕ → ℤ) (s s' : Service redis)
      → ((a b : ℕ) → redis.member a b s'.rdb ≡ redis.member a b s.rdb)
      → ((a b : ℕ) → redis.counter a b s'.rdb ≡ redis.counter a b s.rdb)
      → s'.deltas ≡ s.deltas
      → s'.batch ≡ s.batch
      → Balanced n x s
      → Balanced n x s'
  unchanged n x s s' members counters d b i = record {
    balance =
        λ k. cc (i.balance k, counters k (k % 16), d, b, fans-same redis n k s.rdb s'.rdb members);
    one_shard = λ k j e. counters k j ∙ i.one_shard k j e;
    injected = (i.injected.0, d ∙ i.injected.1);
  }
