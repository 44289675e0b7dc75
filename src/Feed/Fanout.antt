-- ===== src/Feed/Fanout.antt =====
-- internal/feed/fanout.go: the worker that writes a published video into the followers' inboxes,
-- page by page. The lister is internal/relation's; the one of the in-memory store stands below.
pub mod Complete
use go_shortvideo.Prelude.{
  ℕ, zero, suc, Bool, true, false, Option, none, some, List, ltb, ◌==◌, length, if◌then◌else◌, not,
}
use go_shortvideo.Feed.Timeline.{Redis, batch_push_to_inbox}
use go_shortvideo.Store.State.{Store}
use go_shortvideo.Store.Follows.{list_followers}

abbrev pub fanout_batch_size : ℕ
fanout_batch_size = 500

pub record FanoutTask : Type 0 where
  pub author_id : ℕ
  pub video_id : ℕ
  pub ts_milli : ℕ

-- What a call of `ListFollowers` gives back.
pub data Listed : Type 0 where
  failed : Listed
  listed : (ids : List ℕ) (next : ℕ) → Listed

-- How `Handle` ends; `running` means that the fuel ran out.
pub data Outcome : Type 0 where
  done list_failed push_failed running : Outcome

-- `MemRepo.ListFollowers`. Only a limit of 0 makes the store panic.
abbrev pub to_listed : Option (List ℕ × ℕ) → Listed
to_listed none = failed
to_listed (some (ids, next)) = listed ids next

unfoldable pub mem_lister : Store → (author cursor limit : ℕ) → Listed
mem_lister s author cursor limit = to_listed (list_followers author cursor limit s)

-- An empty page is not pushed.
unfoldable pub push : (redis : Redis) → List ℕ → FanoutTask → redis.State → Bool × redis.State
push redis ids t st =
    if ltb 0 (length ids)
    then redis.exec (batch_push_to_inbox ids t.video_id t.ts_milli) st
    else (true, st)

module _ (redis : Redis) (lister : (author cursor limit : ℕ) → Listed) where
  -- The loop of `Handle`, for any size of a batch.
  unfoldable pub handle_from :
      (batch : ℕ) → FanoutTask → (fuel cursor : ℕ) → redis.State → Outcome × redis.State
  handle_from batch t zero cursor st = (running, st)
  handle_from batch t (suc fuel) cursor st = elim (lister t.author_id cursor batch) [
    | failed ↦ (list_failed, st)
    | listed ids next ↦
        let pushed = push redis ids t st in
        let rest = handle_from batch t fuel next pushed.1 in
        if pushed.0 then (if next == 0 then (done, pushed.1) else rest) else (push_failed, pushed.1)
  ]

  unfoldable pub handle : (fuel : ℕ) → FanoutTask → redis.State → Outcome × redis.State
  handle fuel t st = handle_from fanout_batch_size t fuel 0 st
