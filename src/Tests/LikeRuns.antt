-- ===== src/Tests/LikeRuns.antt =====
-- The like service's theorems over a Redis in memory that may refuse its first pipelines.
use mathlib.Core.Path.{subst}
use go_shortvideo.Prelude.{
  ◌-◌, sym, ◌↔◌, ℕ, zero, suc, ◌≡◌, refl, Bool, true, false, ◌&&◌, none, some, List, [], ◌∷◌, ◌==◌,
  arith, if◌then◌else◌, map,
}
use go_shortvideo.Prelude.Int.{ℤ, pos, ltb_ℤ, ◌+ℤ◌, ◌-ℤ◌}
use go_shortvideo.Dict.{Dict, lookup, lookup_or, insert}
use go_shortvideo.Like.Redis.{Redis, Incr, added, picked, value_or_0}
use go_shortvideo.Like.Service.{
  Service, LikeEvent, like_event, add_delta, count_delta, publish, incr_by, count, shard_keys,
  sum_values, like, unlike, like_new, unlike_old,
}
use go_shortvideo.Like.Aggregator.{commands, merge_back, take_batch, send_batch}
use go_shortvideo.Like.Calls.{Call, step, run}
use go_shortvideo.Like.Count.{start, expected, total-run, count-run}
use go_shortvideo.Like.Balance.{total}
use go_shortvideo.Like.Sums.{fans}
use go_shortvideo.Like.Reconcile.{sync_video, shard_sum, count-sync_video}
use go_shortvideo.Like.Consumer.{Repo, handle_batch}
use go_shortvideo.Like.Batch.{handle_batch-run}
use go_shortvideo.Like.Latest.{Among, all_events}
use go_shortvideo.Like.MemRepo.{new_mem_like_repo, record_of, deliver}
use go_shortvideo.Like.Arrival.{on_record, on_record-deliver}
use go_shortvideo.Tests.RepoRuns.{in_order, shuffled, events_agree}
use go_shortvideo.Like.Rollback.{like-undo, unlike-undo}

record Db : Type 0 where
  member : ℕ → ℕ → Bool
  counter : ℕ → ℕ → ℤ
  failures : ℕ

-- A pipeline that fails has run its first command, if it has more than one.
abbrev ran_db : List Incr → Db → List Bool
ran_db cs d = elim d.failures [
  | zero ↦ map (λ c. true) cs
  | suc n ↦ elim cs [ [] ↦ [] | c ∷ more ↦ elim more [ [] ↦ [] | b ∷ others ↦ true ∷ [] ] ]
]

abbrev exec_db : List Incr → Db → Bool × Db
exec_db cs d = (
  d.failures == 0,
  record d {
    counter = λ a b. d.counter a b +ℤ added a b (picked (ran_db cs d) cs);
    failures = d.failures - 1;
  },
)

picked_every : (cs : List Incr) → picked (map (λ c. true) cs) cs ≡ cs
picked_every [] = refl
picked_every (c ∷ cs) = cc (picked_every cs)

ran_db-all : (cs : List Incr) (d : Db) → (exec_db cs d).0 ≡ true → picked (ran_db cs d) cs ≡ cs
ran_db-all cs d e = ground (arith, picked_every cs)

ran_db-one :
    (c : Incr) (d : Db) → (exec_db (c ∷ []) d).0 ≡ false → picked (ran_db (c ∷ []) d) (c ∷ []) ≡ []
ran_db-one c d e = ground arith

abbrev set_db : ℕ → ℕ → Bool → Db → Db
set_db u v now d = record d { member = λ a b. if u == a && v == b then now else d.member a b }

map-counter :
    (d : Db) (keys : List (ℕ × ℕ))
    → map value_or_0 (map (λ k. some (d.counter k.0 k.1)) keys) ≡ map (λ k. d.counter k.0 k.1) keys
map-counter d [] = refl
map-counter d (k ∷ keys) = cc (map-counter d keys)

abbrev db : Redis
db = record {
  State = Db;
  member = λ u v d. d.member u v;
  counter = λ v j d. d.counter v j;
  sadd = λ u v d. (some (if d.member u v then 0 else 1), set_db u v true d);
  srem = λ u v d. (some (if d.member u v then 1 else 0), set_db u v false d);
  exec = exec_db;
  sis_members = λ u vs d. some (map (λ v. d.member u v) vs);
  mget = λ keys d. some (map (λ k. some (d.counter k.0 k.1)) keys);
  sadd-some = λ u v n s e. ground arith;
  member-sadd = λ u v n s e a b. refl;
  member-sadd_none = λ u v s e a b. ground arith;
  counter-sadd = λ u v a b s. refl;
  srem-some = λ u v n s e. ground arith;
  member-srem = λ u v n s e a b. refl;
  member-srem_none = λ u v s e a b. ground arith;
  counter-srem = λ u v a b s. refl;
  member-exec = λ cs a b s. refl;
  ran = ran_db;
  counter-exec = λ cs a b s. refl;
  ran_all = ran_db-all;
  ran_one = ran_db-one;
  mget-some = λ keys vals s e. ground (arith, map-counter s keys);
  sis_members-some = λ u vs flags s e. ground arith;
}

-- A database that refuses `n` pipelines.
abbrev refusing : ℕ → Db
refusing n = record { member = λ u v. false; counter = λ v j. pos 0; failures = n }

-- Two users like a video each, one of them takes it back; the first flush fails when it has counted
-- video 7, which it counts again later.
abbrev history : List Call
history =
    Call.like 100 1 7
    ∷ Call.like 101 2 8
    ∷ Call.take_batch
    ∷ Call.unlike 102 1 7
    ∷ Call.send_batch
    ∷ Call.take_batch
    ∷ Call.send_batch
    ∷ []

total-run_example :
    total db 7 (run db history (start db (refusing 1))) ≡ expected db (refusing 1) 3 7 history
total-run_example =
    total-run db (refusing 1) 3 history (λ a b. refl, λ a b. refl)
      (omega arith, (omega arith, (tt, (omega arith, (tt, (tt, (tt, tt))))))) 7

abbrev after : Service db
after = run db history (start db (refusing 1))

after-deltas : after.deltas ≡ some []
unfolding run step like like_new unlike unlike_old count_delta publish add_delta take_batch
    send_batch commands merge_back lookup insert ◌+ℤ◌
after-deltas = refl

after-batch : after.batch ≡ none
unfolding run step like like_new unlike unlike_old count_delta publish add_delta take_batch
    send_batch commands merge_back lookup insert ◌+ℤ◌
after-batch = refl

after-count : count db 7 after ≡ some (pos 1)
unfolding run step like like_new unlike unlike_old count_delta publish add_delta take_batch
    send_batch commands merge_back lookup insert ◌+ℤ◌ count shard_keys sum_values
after-count = refl

count-run_example : pos 1 ≡ (
    if ltb_ℤ (expected db (refusing 1) 3 7 history) (pos 0)
    then pos 0
    else expected db (refusing 1) 3 7 history)
count-run_example =
    count-run db (refusing 1) 3 history (λ a b. refl, λ a b. refl)
      (omega arith, (omega arith, (tt, (omega arith, (tt, (tt, (tt, tt))))))) after-deltas
      after-batch 7 (pos 1) after-count

-- No aggregator, and the counter refuses the first write.
abbrev direct : Service db
direct = record { rdb = refusing 1; deltas = none; batch = none; published = [] }

like-undo_example :
    let s' = (like db 100 1 7 direct).1 in
    ((like db 100 1 7 direct).0 ≡ none)
    × ((a b : ℕ) → s'.rdb.member a b ≡ false)
    × ((a b : ℕ) → s'.rdb.counter a b ≡ pos 0)
    × (s'.published ≡ [])
unfolding incr_by
like-undo_example = like-undo db 100 1 7 direct 0 1 refl refl refl refl

-- The same where user 1 likes the video.
abbrev fond : Service db
fond = record direct { rdb = set_db 1 7 true (refusing 1) }

unlike-undo_example :
    let s' = (unlike db 100 1 7 fond).1 in
    ((unlike db 100 1 7 fond).0 ≡ none)
    × ((a b : ℕ) → s'.rdb.member a b ≡ fond.rdb.member a b)
    × ((a b : ℕ) → s'.rdb.counter a b ≡ pos 0)
    × (s'.published ≡ [])
unfolding incr_by
unlike-undo_example = unlike-undo db 100 1 7 fond 0 1 refl refl refl refl

-- Redis counts nothing, the database five likes.
abbrev stale : Service db
stale = record direct { rdb = refusing 0 }

stale-synced : count db 7 (sync_video db 7 (pos 5) stale).1 ≡ some (pos 5)
unfolding count sync_video incr_by shard_keys sum_values ◌+ℤ◌ ◌-ℤ◌
stale-synced = refl

stale-went : (sync_video db 7 (pos 5) stale).0 ≡ true
unfolding count sync_video incr_by shard_keys sum_values ◌+ℤ◌ ◌-ℤ◌
stale-went = refl

stale_sum : shard_sum db 7 stale.rdb ≡ pos 0
unfolding shard_keys ◌+ℤ◌
stale_sum = refl

count-sync_video_example : pos 5 ≡ pos 5
count-sync_video_example = count-sync_video db 7 5 0 stale (pos 5) stale_sum stale-went stale-synced

-- A database that keeps what it is told to add.
abbrev ledger : Repo
ledger = record {
  Db = List (Dict ℤ);
  upsert_like = λ u v ts on d. (true, d);
  apply_count_deltas = λ m d. (true, m ∷ d);
}

handle_batch-run_example :
    (m : Dict ℤ) × ((d : List (Dict ℤ)) × ((handle_batch ledger after.published [] ≡ (true, m ∷ d))
        × (lookup_or (pos 0) 7 m ≡ pos (fans db 3 7 after.rdb))))
handle_batch-run_example =
    handle_batch-run db ledger 3 7 history (refusing 1) [] (λ a b. refl, λ a b. refl)
      (omega arith, (omega arith, (tt, (omega arith, (tt, (tt, (tt, tt))))))) (λ u v ts on d. refl)

-- The user's calls, in the order of the events.
abbrev calls : List Call
calls = Call.like 5 1 7 ∷ Call.take_batch ∷ Call.unlike 9 1 7 ∷ Call.send_batch ∷ []

calls-published : (run db calls (start db (refusing 1))).published ≡ all_events in_order
unfolding run step like like_new unlike unlike_old count_delta publish like_event take_batch
    send_batch add_delta insert
calls-published = refl

on_record-deliver_example :
    on_record (record_of 1 7 (deliver shuffled new_mem_like_repo).records)
    ≡ db.member 1 7 (run db calls (start db (refusing 1))).rdb
on_record-deliver_example =
    on_record-deliver db 1 7 calls (refusing 1) shuffled refl (omega arith, (omega arith, tt))
      (λ e.
        subst (λ (es : List LikeEvent). Among e es ↔ Among e (all_events shuffled))
          (sym calls-published) (events_agree e))
