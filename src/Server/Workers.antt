-- ===== src/Server/Workers.antt =====
-- The handlers that cmd/server/main.go subscribes to the topics of its bus. `decode` is
-- `json.Unmarshal`, `none` for an error: such a payload is dropped without a retry.
use go_shortvideo.Prelude.{ℕ, Bool, true, false, Option, none, some, List, [], ◌∷◌}
use go_shortvideo.Like.Service.{LikeEvent}
use go_shortvideo.Like.Consumer.{Repo, handle_batch}
use go_shortvideo.Feed.Timeline.{Redis}
use go_shortvideo.Feed.Fanout.{FanoutTask, Listed, Outcome, handle}
use go_shortvideo.Transcode.Worker as Transcoder
use go_shortvideo.Transcode.Worker.{Task, StatusUpdater, Tools}
use go_shortvideo.Mq.Bus.{Handler}

-- "like-events"
unfoldable pub like_worker : (repo : Repo) → (decode : List ℕ → Option LikeEvent) → Handler repo.Db
like_worker repo decode payload db = elim (decode payload) [
  | none ↦ (true, db)
  | some e ↦ handle_batch repo (e ∷ []) db
]

abbrev went_well : Outcome → Bool
went_well Outcome.done = true
went_well Outcome.list_failed = false
went_well Outcome.push_failed = false
went_well Outcome.running = false

abbrev is_done : Transcoder.Outcome → Bool
is_done Transcoder.Outcome.done = true
is_done Transcoder.Outcome.refused = false
is_done Transcoder.Outcome.panicked = false

-- "fanout"; the histogram is left out.
unfoldable pub fanout_worker :
    (redis : Redis)
    → (list_followers : ℕ → ℕ → ℕ → Listed) → (fuel : ℕ) → (decode : List ℕ → Option FanoutTask)
    → Handler redis.State
fanout_worker redis list_followers fuel decode payload s = elim (decode payload) [
  | none ↦ (true, s)
  | some t ↦ let (outcome, s') = handle redis list_followers fuel t s in (went_well outcome, s')
]

-- "transcode"
unfoldable pub transcode_worker :
    {U : Type 0} → StatusUpdater U → Tools → (decode : List ℕ → Option Task) → Handler U
transcode_worker updater tools decode payload u = elim (decode payload) [
  | none ↦ (true, u)
  | some t ↦ let (outcome, u') = Transcoder.handle (some updater) tools t u in (is_done outcome, u')
]
