-- ===== src/Transcode/Status.antt =====
-- The status of a video through a transcoding task, with the store as the updater that cmd/server
-- injects.
use go_shortvideo.Prelude.{
  ℕ, ◌≡◌, Bool, true, false, String, Option, none, some, List, [], ◌∷◌, ◌==◌,
}
use go_shortvideo.TextDict
use go_shortvideo.Dict.{lookup}
use go_shortvideo.Model.{VideoStatus, ready, failed}
use go_shortvideo.Store.State.{Store}
use go_shortvideo.Store.Videos.{update_video_status, update_video_playback_urls}
use go_shortvideo.Transcode.Worker.{StatusUpdater, Tools, Outcome}

-- The address under which a video is played: that of 360p, or some other.
unfoldable pub main_url : List (String × String) → String
main_url urls = elim (TextDict.lookup "360p" urls) [
  | some url ↦ url
  | none ↦ elim urls [ [] ↦ "" | u ∷ us ↦ u.1 ]
]

-- `storeStatusUpdater`
abbrev pub store_updater : StatusUpdater Store
store_updater = record {
  update_status = λ video status s. (update_video_status video status s).1;
  update_play_urls =
      λ video cover urls s. (update_video_playback_urls video (main_url urls) cover urls s).1;
}

abbrev pub status_in : ℕ → Store → Option VideoStatus
status_in id s = elim (lookup id s.videos) [ none ↦ none | some v ↦ some v.status ]

-- The status that an end of the last part of a task leaves.
abbrev pub marked : Outcome → VideoStatus
marked Outcome.done = ready
marked Outcome.refused = failed
marked Outcome.panicked = failed

abbrev pub panics : Outcome → Bool
panics Outcome.done = false
panics Outcome.refused = false
panics Outcome.panicked = true

-- A step from `s`, where video `id` is stored, that ends with `status` and spares the other videos.
abbrev Moves : ℕ → Store → VideoStatus → Store → Type 0
Moves id s status s' =
    (status_in id s' ≡ some status)
    × ((j : ℕ) → (id == j) ≡ false → lookup j s'.videos ≡ lookup j s.videos)

module _ (tools : Tools) (id : ℕ) where
  -- The last part of a task, from a store where the video has some status.
  abbrev Ends : Store → Outcome × Store → Type 0
  Ends s r = (panics r.0 ≡ false) × Moves id s (marked r.0) r.1
