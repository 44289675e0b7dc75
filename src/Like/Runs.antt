-- ===== src/Like/Runs.antt =====
-- The calls of the like service, one by one and in histories.

use go_shortvideo.Prelude.{
  All, List, sym, ◌++◌, ℕ, ◌<◌, refl, true, false, some, [], ◌∷◌, ◌==◌, arith, Bool-cases,
  Option-cases, inl, inr,
}
use go_shortvideo.Prelude.Int.{ℤ, pos, ◌+ℤ◌, negsuc, +ℤ_parts}
use go_shortvideo.Like.Redis.{Redis}
use go_shortvideo.Like.Service.{
  Service, like_event, liked, add_delta, count_delta, like, like_new, publish,
}
use go_shortvideo.Like.Sums.{pos_0-+ℤ, +ℤ-pos_0, +ℤ_assoc}
use go_shortvideo.Like.Balance.{
  Balanced, Balanced-same, repeated_by, along, unchanged, gated, take_batch-Balanced,
  send_batch-Balanced,
}
use go_shortvideo.Like.Service.{unlike, unlike_old, unliked}
use go_shortvideo.Like.Calls.{Call, Below, step, run}

module _ (redis : Redis) where
  like-Balanced :
      (n now u v : ℕ) (x : ℕ → ℤ) (s : Service redis)
      → u < n
      → Balanced redis n x s
      → Balanced redis n x (like redis now u v s).1
  unfolding like like_new count_delta publish
  like-Balanced n now u v x s below i =
      let r = (redis.sadd u v s.rdb).1 in
      let counters = λ (a b : ℕ). redis.counter-sadd u v a b s.rdb in
      let (m, held) = i.injected in
      elim (Option-cases (redis.sadd u v s.rdb).0) [
        | inl e ↦
            along redis n x (record s { rdb = r }) (like redis now u v s).1 (ground arith)
              (unchanged redis n x s (record s { rdb = r }) (redis.member-sadd_none u v s.rdb e)
                counters refl refl i)
        | inr (z, e) ↦
            let members = redis.member-sadd u v z s.rdb e in
            let answer = redis.sadd-some u v z s.rdb e in
            elim (Bool-cases (z == 0)) [
              | inl again ↦
                  along redis n x (record s { rdb = r }) (like redis now u v s).1 (ground arith)
                    (unchanged redis n x s (record s { rdb = r })
                      (λ a b. ground (arith, members a b, answer)) counters refl refl i)
              | inr new ↦
                  let s' = record s {
                    rdb = r;
                    deltas = some (add_delta v (pos 1) m);
                    published = s.published ++ like_event redis now u v liked ∷ [];
                  } in
                  along redis n x s' (like redis now u v s).1 (ground arith) (
                    gated redis n u v x true (pos 1) s s' m below i members counters held refl refl
                      (ground (arith, pos_0-+ℤ (pos 1))))
            ]
      ]

  unlike-Balanced :
      (n now u v : ℕ) (x : ℕ → ℤ) (s : Service redis)
      → u < n
      → Balanced redis n x s
      → Balanced redis n x (unlike redis now u v s).1
  unfolding unlike unlike_old count_delta publish
  unlike-Balanced n now u v x s below i =
      let r = (redis.srem u v s.rdb).1 in
      let counters = λ (a b : ℕ). redis.counter-srem u v a b s.rdb in
      let (m, held) = i.injected in
      elim (Option-cases (redis.srem u v s.rdb).0) [
        | inl e ↦
            along redis n x (record s { rdb = r }) (unlike redis now u v s).1 (ground arith)
              (unchanged redis n x s (record s { rdb = r }) (redis.member-srem_none u v s.rdb e)
                counters refl refl i)
        | inr (z, e) ↦
            let members = redis.member-srem u v z s.rdb e in
            let answer = redis.srem-some u v z s.rdb e in
            elim (Bool-cases (z == 0)) [
              | inl again ↦
                  along redis n x (record s { rdb = r }) (unlike redis now u v s).1 (ground arith)
                    (unchanged redis n x s (record s { rdb = r })
                      (λ a b. ground (arith, members a b, answer)) counters refl refl i)
              | inr new ↦
                  let s' = record s {
                    rdb = r;
                    deltas = some (add_delta v (negsuc 0) m);
                    published = s.published ++ like_event redis now u v unliked ∷ [];
                  } in
                  along redis n x s' (unlike redis now u v s).1 (ground arith) (
                    gated redis n u v x false (negsuc 0) s s' m below i members counters held refl
                      refl (ground (arith, +ℤ_parts (pos 1) (negsuc 0))))
            ]
      ]

  -- What the flushes of a history have added twice to the counter of a video: what the pipelines that
  -- were answered with an error had run, before it was merged back.
  abbrev pub repeated_in : (video : ℕ) → Call → Service redis → ℤ
  repeated_in k (Call.like now u v) s = pos 0
  repeated_in k (Call.unlike now u v) s = pos 0
  repeated_in k Call.take_batch s = pos 0
  repeated_in k Call.send_batch s = repeated_by redis k s

  unfoldable pub repeated : (video : ℕ) → List Call → Service redis → ℤ
  unfolding step
  repeated k [] s = pos 0
  repeated k (c ∷ cs) s = repeated_in k c s +ℤ repeated k cs (step redis c s)

  step-Balanced :
      (n : ℕ) (x : ℕ → ℤ) (c : Call) (s : Service redis)
      → Below n c
      → Balanced redis n x s
      → Balanced redis n (λ k. x k +ℤ repeated_in k c s) (step redis c s)
  unfolding step
  step-Balanced n x (Call.like now u v) s below i =
      Balanced-same redis n x _ _ (λ k. +ℤ-pos_0 (x k)) (like-Balanced n now u v x s below i)
  step-Balanced n x (Call.unlike now u v) s below i =
      Balanced-same redis n x _ _ (λ k. +ℤ-pos_0 (x k)) (unlike-Balanced n now u v x s below i)
  step-Balanced n x Call.take_batch s below i =
      Balanced-same redis n x _ _ (λ k. +ℤ-pos_0 (x k)) (take_batch-Balanced redis n x s i)
  step-Balanced n x Call.send_batch s below i = send_batch-Balanced redis n x s i

  pub run-Balanced :
      (n : ℕ) (x : ℕ → ℤ) (cs : List Call) (s : Service redis)
      → All (Below n) cs
      → Balanced redis n x s
      → Balanced redis n (λ k. x k +ℤ repeated k cs s) (run redis cs s)
  unfolding run repeated
  run-Balanced n x [] s below i = Balanced-same redis n x _ s (λ k. +ℤ-pos_0 (x k)) i
  run-Balanced n x (c ∷ cs) s below i =
      Balanced-same redis n _ _ _
        (λ k. sym (+ℤ_assoc (x k) (repeated_in k c s) (repeated k cs (step redis c s))))
        (run-Balanced n (λ k. x k +ℤ repeated_in k c s) cs (step redis c s) below.1
          (step-Balanced n x c s below.0 i))
