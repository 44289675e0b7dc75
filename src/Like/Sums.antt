-- ===== src/Like/Sums.antt =====
-- What the waiting deltas of a video add up to, and how many users like a video.
use go_shortvideo.Prelude.{
  ap, ◌∙◌, List, Bool-cases, inl, inr, ℕ, zero, suc, ◌+◌, ◌%◌, ◌≡◌, refl, Bool, ◌&&◌, [], ◌∷◌, ◌==◌,
  ltb, arith, if◌then◌else◌,
}
use go_shortvideo.Prelude.Int.{ℤ, pos, negsuc, ◌+ℤ◌, +ℤ_parts, eq_of_parts}
use go_shortvideo.Dict.{Dict, lookup, lookup_or, insert}
use go_shortvideo.Like.Redis.{Redis, Incr, added, flag}
use go_shortvideo.Like.Service.{add_delta, incr_by}
use go_shortvideo.Like.Aggregator.{commands, merge_back}

unfoldable pub sum_at : ℕ → Dict ℤ → ℤ
sum_at k [] = pos 0
sum_at k ((j, d) ∷ m) = if j == k then d +ℤ sum_at k m else sum_at k m

pub +ℤ-pos_0 : (a : ℤ) → a +ℤ pos 0 ≡ a
+ℤ-pos_0 a = eq_of_parts (a +ℤ pos 0) a (omega (arith, +ℤ_parts a (pos 0)))

pub pos_0-+ℤ : (a : ℤ) → pos 0 +ℤ a ≡ a
pos_0-+ℤ a = eq_of_parts (pos 0 +ℤ a) a (omega (arith, +ℤ_parts (pos 0) a))

pub +ℤ_comm : (a b : ℤ) → a +ℤ b ≡ b +ℤ a
+ℤ_comm a b = eq_of_parts (a +ℤ b) (b +ℤ a) (omega (arith, +ℤ_parts a b, +ℤ_parts b a))

pub +ℤ_assoc : (a b c : ℤ) → (a +ℤ b) +ℤ c ≡ a +ℤ (b +ℤ c)
+ℤ_assoc a b c =
    eq_of_parts ((a +ℤ b) +ℤ c) (a +ℤ (b +ℤ c))
      (omega (arith, +ℤ_parts a b, +ℤ_parts b c, +ℤ_parts (a +ℤ b) c, +ℤ_parts a (b +ℤ c)))

pub +ℤ_right_comm : (a b c : ℤ) → (a +ℤ b) +ℤ c ≡ (a +ℤ c) +ℤ b
+ℤ_right_comm a b c = cc (+ℤ_assoc a b c, +ℤ_assoc a c b, +ℤ_comm b c)

sum_at-insert :
    (k v : ℕ) (d : ℤ) (m : Dict ℤ)
    → sum_at k (insert v (lookup_or (pos 0) v m +ℤ d) m)
      ≡ (if v == k then sum_at k m +ℤ d else sum_at k m)
unfolding sum_at insert lookup
sum_at-insert k v d [] = ground (arith, +ℤ-pos_0 (pos 0 +ℤ d))
sum_at-insert k v d ((j, e) ∷ m) =
    ground (arith, sum_at-insert k v d m, +ℤ_right_comm e d (sum_at k m), +ℤ_assoc e (sum_at k m) d)

pub sum_at-add_delta :
    (k v : ℕ) (d : ℤ) (m : Dict ℤ)
    → sum_at k (add_delta v d m) ≡ (if v == k then sum_at k m +ℤ d else sum_at k m)
unfolding add_delta
sum_at-add_delta k v d m = sum_at-insert k v d m

pub sum_at-merge_back :
    (k : ℕ) (batch m : Dict ℤ) → sum_at k (merge_back batch m) ≡ sum_at k m +ℤ sum_at k batch
unfolding sum_at merge_back
sum_at-merge_back k [] m = ground (arith, +ℤ-pos_0 (sum_at k m))
sum_at-merge_back k ((v, d) ∷ batch) m = ground (
  arith,
  sum_at-merge_back k batch (add_delta v d m),
  sum_at-add_delta k v d m,
  +ℤ_assoc (sum_at k m) d (sum_at k batch),
)

pub added-commands :
    (k j : ℕ) (m : Dict ℤ) → added k j (commands m) ≡ (if j == k % 16 then sum_at k m else pos 0)
unfolding commands sum_at
added-commands k j [] = ground arith
added-commands k j ((v, pos n) ∷ m) = ground (arith, added-commands k j m, pos_0-+ℤ (sum_at k m))
added-commands k j ((v, negsuc n) ∷ m) = ground (arith, added-commands k j m)

module _ (redis : Redis) where
  -- The users below `n` whose set holds the video.
  unfoldable pub fans : (n video : ℕ) → redis.State → ℕ
  fans zero video r = 0
  fans (suc n) video r = flag (redis.member n video r) + fans n video r

  pub fans-same :
      (n k : ℕ) (r r' : redis.State)
      → ((a b : ℕ) → redis.member a b r' ≡ redis.member a b r)
      → fans n k r' ≡ fans n k r
  unfolding fans
  fans-same zero k r r' h = refl
  fans-same (suc n) k r r' h = cc (h n k, fans-same n k r r' h)

  -- One pair becomes `now`.
  pub fans-change :
      (n k u v : ℕ) (now : Bool) (r r' : redis.State)
      → ((a b : ℕ) → redis.member a b r' ≡ (if u == a && v == b then now else redis.member a b r))
      → fans n k r' + (if ltb u n && v == k then flag (redis.member u v r) else 0)
        ≡ fans n k r + (if ltb u n && v == k then flag now else 0)
  unfolding fans
  fans-change zero k u v now r r' h = ground arith
  fans-change (suc n) k u v now r r' h = ground (arith, h n k, fans-change n k u v now r r' h)

  -- A single command, which an error leaves undone.
  pub counter-incr_by :
      (v : ℕ) (d : ℤ) (a b : ℕ) (r : redis.State)
      → redis.counter a b (redis.exec (incr_by v d) r).1 ≡ (
          if (redis.exec (incr_by v d) r).0
          then redis.counter a b r +ℤ added a b (incr_by v d)
          else redis.counter a b r)
  unfolding incr_by
  counter-incr_by v d a b r =
      let cs = incr_by v d in
      let c = redis.counter a b r in
      let grown = λ (l : List Incr). c +ℤ added a b l in
      elim (Bool-cases (redis.exec cs r).0) [
        | inl went ↦ rw went (redis.counter-exec cs a b r ∙ ap grown (redis.ran_all cs r went))
        | inr failed ↦
            rw failed
              (redis.counter-exec cs a b r ∙ ap grown (redis.ran_one _ r failed) ∙ +ℤ-pos_0 c)
      ]
