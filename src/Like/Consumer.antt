-- ===== src/Like/Consumer.antt =====
-- internal/like/consumer.go: a batch of like events is written to the database, which is a parameter.
use go_shortvideo.Prelude.{ℕ, Bool, true, false, Option, none, some, List, [], ◌∷◌}
use go_shortvideo.Prelude.Int.{ℤ, pos, negsuc}
use go_shortvideo.Dict.{Dict}
use go_shortvideo.Like.Service.{Action, liked, unliked, LikeEvent, add_delta}

-- `Repo`: a write is answered with `true`, or with `false` for an error.
pub record Repo : Type 1 where
  pub Db : Type 0
  pub upsert_like : (user video ts : ℕ) → Bool → Db → Bool × Db
  pub apply_count_deltas : Dict ℤ → Db → Bool × Db

abbrev pub is_liked : Action → Bool
is_liked liked = true
is_liked unliked = false

-- `deltas[e.VideoID]++` and `deltas[e.VideoID]--`
abbrev pub change : Action → ℤ
change liked = pos 1
change unliked = negsuc 0

module _ (repo : Repo) where
  -- The loop of `HandleBatch`, which an error leaves.
  unfoldable pub write_events : List LikeEvent → Dict ℤ → repo.Db → Option (Dict ℤ) × repo.Db
  write_events [] deltas db = (some deltas, db)
  write_events (e ∷ es) deltas db =
      let (written, db') =
        repo.upsert_like e.user_id e.video_id e.ts_milli (is_liked e.action) db in
      elim written [
        | false ↦ (none, db')
        | true ↦ write_events es (add_delta e.video_id (change e.action) deltas) db'
      ]

  unfoldable pub handle_batch : List LikeEvent → repo.Db → Bool × repo.Db
  handle_batch es db =
      let (deltas, db') = write_events es [] db in
      elim deltas [ none ↦ (false, db') | some m ↦ repo.apply_count_deltas m db' ]
