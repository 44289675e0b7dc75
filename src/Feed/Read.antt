-- ===== src/Feed/Read.antt =====
-- internal/feed/read.go: the reads of the inbox of a user and of the outbox of an author. Redis is a
-- parameter. A member of a set is the id that the code writes, whose decimal text is left out; a
-- score is a time in milliseconds.
use go_shortvideo.Prelude.{
  ℕ, ◌≡◌, ◌<◌, ◌≤◌, Option, none, some, List, [], ◌∷◌, map, ltb, All, if◌then◌else◌, arith,
  Option-cases, inl, inr,
}
use go_shortvideo.Feed.Merge.{Entry}
use go_shortvideo.Feed.Timeline.{Key, inbox, outbox}

-- The field `Max` of a query: `+inf`, a score after a `(`, which is itself left out, and a score
-- without one, which is not.
pub data Bound : Type 0 where
  plus_inf : Bound
  below up_to : ℕ → Bound

unfoldable pub Within : Bound → ℕ → Type 0
Within plus_inf score = Unit
Within (below c) score = score < c
Within (up_to c) score = score ≤ c

-- `ZREVRANGEBYSCORE` with scores, from `-inf`: pairs of a score and a member. No answer has a score
-- beyond the bound that it was asked with.
pub record Timelines : Type 0 where
  pub zrev_range_by_score : Key → (max : Bound) → (limit : ℕ) → Option (List (ℕ × ℕ))
  pub zrev_range_by_score-Within :
      (key : Key) (max : Bound) (limit : ℕ) (zs : List (ℕ × ℕ))
      → zrev_range_by_score key max limit ≡ some zs
      → All (λ z. Within max z.0) zs

unfoldable pub max_of : (cursor : ℕ) → Bound
max_of cursor = if ltb 0 cursor then below cursor else plus_inf

-- The loop over the answer.
unfoldable pub entries : List (ℕ × ℕ) → List Entry
entries zs = map (λ z. record { video_id = z.1; score = z.0 }) zs

entries_below :
    (c : ℕ) (zs : List (ℕ × ℕ))
    → All (λ z. Within (below c) z.0) zs
    → All (λ e. e.score < c) (entries zs)
unfolding entries Within
entries_below c [] h = tt
entries_below c (z ∷ zs) h = (h.0, entries_below c zs h.1)

module _ (redis : Timelines) where
  unfoldable pub read_zset_by_score : Key → (cursor limit : ℕ) → Option (List Entry)
  unfolding max_of entries
  read_zset_by_score key cursor limit = elim (redis.zrev_range_by_score key (max_of cursor) limit) [
    | none ↦ none
    | some zs ↦ some (entries zs)
  ]

  unfoldable pub read_inbox : (user cursor limit : ℕ) → Option (List Entry)
  unfolding read_zset_by_score
  read_inbox user cursor limit = read_zset_by_score (inbox user) cursor limit

  unfoldable pub read_outbox : (author cursor limit : ℕ) → Option (List Entry)
  unfolding read_zset_by_score
  read_outbox author cursor limit = read_zset_by_score (outbox author) cursor limit

  -- A read with a positive cursor gives entries strictly below it.
  pub read_zset_by_score-below :
      (key : Key) (cursor limit : ℕ) (es : List Entry)
      → 0 < cursor
      → read_zset_by_score key cursor limit ≡ some es
      → All (λ e. e.score < cursor) es
  unfolding read_zset_by_score max_of
  read_zset_by_score-below key cursor limit es h e =
      let bound : max_of cursor ≡ below cursor = ground (arith, h) in
      elim (Option-cases (redis.zrev_range_by_score key (below cursor) limit)) [
        | inl failed ↦ absurd (ground (arith, bound, failed))
        | inr (zs, found) ↦
            let same : entries zs ≡ es = ground (arith, bound, found) in
            rw (← same) (
              entries_below cursor zs
                (redis.zrev_range_by_score-Within key (below cursor) limit zs found))
      ]
