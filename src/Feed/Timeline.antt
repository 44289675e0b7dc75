-- ===== src/Feed/Timeline.antt =====
-- internal/feed/store.go: the Redis commands behind the inboxes and outboxes. Redis is a parameter:
-- a state, and a call that runs a pipeline and says whether it failed.
use go_shortvideo.Prelude.{ℕ, ◌*◌, ◌≡◌, refl, Bool, true, List, [], ◌∷◌, ◌++◌}
use go_shortvideo.Prelude.Int.{ℤ, pos, negsuc}

-- `inboxKey` and `outboxKey`: two prefixes that differ, and the id in decimal.
pub data Key : Type 0 where
  inbox outbox : ℕ → Key

pub data Command : Type 0 where
  zadd : Key → (score member : ℕ) → Command
  zrem_range_by_rank : Key → (start stop : ℤ) → Command
  expire : Key → (seconds : ℕ) → Command

-- What the feed relies on: the commands of pipelines that succeed run in order, so that two such
-- pipelines do what one with the commands of both does; an empty one does nothing.
pub record Redis : Type 1 where
  pub State : Type 0
  pub exec : List Command → State → Bool × State
  pub exec-nil : (s : State) → exec [] s ≡ (true, s)
  pub exec-append :
      (xs ys : List Command) (s : State)
      → (exec xs s).0 ≡ true
      → exec (xs ++ ys) s ≡ exec ys (exec xs s).1

abbrev pub timeline_max_size : ℕ
timeline_max_size = 2000

abbrev pub inbox_ttl : ℕ
inbox_ttl = 30 * 24 * 3600

-- `-(timelineMaxSize + 1)`
abbrev pub last_dropped : ℤ
last_dropped = negsuc timeline_max_size

-- The transaction of `AppendToOutbox`; the score is the time in milliseconds.
unfoldable pub append_to_outbox : (author video ts : ℕ) → List Command
append_to_outbox author video ts =
    zadd (outbox author) ts video ∷ zrem_range_by_rank (outbox author) (pos 0) last_dropped ∷ []

-- The pipeline of `BatchPushToInbox`.
unfoldable pub batch_push_to_inbox : List ℕ → (video ts : ℕ) → List Command
batch_push_to_inbox [] video ts = []
batch_push_to_inbox (uid ∷ uids) video ts =
    zadd (inbox uid) ts video
    ∷ zrem_range_by_rank (inbox uid) (pos 0) last_dropped
    ∷ expire (inbox uid) inbox_ttl
    ∷ batch_push_to_inbox uids video ts

pub batch_push-append :
    (xs ys : List ℕ) (video ts : ℕ)
    → batch_push_to_inbox (xs ++ ys) video ts
      ≡ batch_push_to_inbox xs video ts ++ batch_push_to_inbox ys video ts
unfolding batch_push_to_inbox
batch_push-append [] ys video ts = refl
batch_push-append (x ∷ xs) ys video ts = cc (batch_push-append xs ys video ts)
