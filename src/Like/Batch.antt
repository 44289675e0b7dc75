-- ===== src/Like/Batch.antt =====
-- The events of the like service, handled by the consumer of internal/like/consumer.go.

use go_shortvideo.Prelude.{
  ℕ, ◌≡◌, refl, ap, sym, ◌∙◌, Bool, true, false, Option, none, some, List, [], ◌∷◌, ◌==◌, arith,
  if◌then◌else◌, All,
}
use go_shortvideo.Prelude.Int.{ℤ, pos, ◌+ℤ◌}
use go_shortvideo.Dict.{Dict, lookup_or, lookup, lookup-insert}
use go_shortvideo.Like.Redis.{Redis}
use go_shortvideo.Like.Service.{LikeEvent, add_delta}
use go_shortvideo.Like.Calls.{Call, Below, run}
use go_shortvideo.Like.Sums.{fans, pos_0-+ℤ, +ℤ-pos_0, +ℤ_assoc}
use go_shortvideo.Like.Count.{start, Empty, fans-Empty}
use go_shortvideo.Like.Consumer.{Repo, is_liked, change, write_events, handle_batch}
use go_shortvideo.Like.Told.{net, Told-run}

module _ (repo : Repo) where
  lookup_or-add_delta :
      (v k : ℕ) (d : ℤ) (m : Dict ℤ)
      → lookup_or (pos 0) k (add_delta v d m)
        ≡ (if v == k then lookup_or (pos 0) k m +ℤ d else lookup_or (pos 0) k m)
  unfolding add_delta
  lookup_or-add_delta v k d m = ground (arith, lookup-insert v k (lookup_or (pos 0) v m +ℤ d) m)

  -- The deltas that a batch leads to, where the database takes every row.
  tallied :
      (up : (u v ts : ℕ) (on : Bool) (db : repo.Db) → (repo.upsert_like u v ts on db).0 ≡ true)
      (es : List LikeEvent) (m : Dict ℤ) (db : repo.Db)
      → (m' : Dict ℤ) × ((db' : repo.Db) × ((write_events repo es m db ≡ (some m', db'))
            × ((k : ℕ) → lookup_or (pos 0) k m' ≡ lookup_or (pos 0) k m +ℤ net k es)))
  unfolding write_events
  tallied up [] m db = (m, (db, (refl, λ k. sym (+ℤ-pos_0 (lookup_or (pos 0) k m)))))
  tallied up (e ∷ es) m db =
      let d = change e.action in
      let m1 = add_delta e.video_id d m in
      let db1 = (repo.upsert_like e.user_id e.video_id e.ts_milli (is_liked e.action) db).1 in
      let (m', (db', (writes, sums))) = tallied up es m1 db1 in
      (
        m',
        (
          db',
          (
            rw (up e.user_id e.video_id e.ts_milli (is_liked e.action) db, write_events) writes,
            λ k.
                sums k
                ∙ ground (
                  arith,
                  lookup_or-add_delta e.video_id k d m,
                  +ℤ_assoc (lookup_or (pos 0) k m) d (net k es),
                ),
          ),
        ),
      )

abbrev finish : (repo : Repo) → Option (Dict ℤ) × repo.Db → Bool × repo.Db
finish repo r = elim r.0 [ none ↦ (false, r.1) | some m ↦ repo.apply_count_deltas m r.1 ]

-- From an empty Redis, after any history of likes and unlikes of the users below `n` and of flushes,
-- whatever commands fail on the way: when all the events that were published are handled as one batch,
-- and the database takes every row, the batch ends with one call of ApplyCountDeltas, and its delta
-- for a video is the number of users whose set in Redis holds the video.
pub handle_batch-run :
    (redis : Redis) (repo : Repo) (n k : ℕ) (cs : List Call) (r : redis.State) (db : repo.Db)
    → Empty redis r
    → All (Below n) cs
    → ((u v ts : ℕ) (on : Bool) (d : repo.Db) → (repo.upsert_like u v ts on d).0 ≡ true)
    → let s = run redis cs (start redis r) in
      (m : Dict ℤ) × ((db' : repo.Db) × ((handle_batch repo s.published db
            ≡ repo.apply_count_deltas m db')
          × (lookup_or (pos 0) k m ≡ pos (fans redis n k s.rdb))))
unfolding handle_batch lookup
handle_batch-run redis repo n k cs r db empty below up =
    let s = run redis cs (start redis r) in
    let told =
      Told-run redis n cs (start redis r) below ([], refl)
        (λ j. ap pos (sym (fans-Empty redis r empty n j))) in
    let (m, (db', (writes, sums))) = tallied repo up s.published [] db in
    (m, (db', (ap (finish repo) writes, sums k ∙ pos_0-+ℤ (net k s.published) ∙ told k)))
