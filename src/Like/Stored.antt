-- ===== src/Like/Stored.antt =====
-- The like records and counts in MySQL against those of cmd/server/main.go's `memLikeRepo`.
use mathlib.Core.Path.{ap₂}
use go_shortvideo.Prelude.{
  ℕ, ◌≡◌, ◌∙◌, Bool, true, false, ◌&&◌, Option, none, some, List, [], ◌∷◌, ltb, ◌==◌, if◌then◌else◌,
  arith, inl, inr, Bool-cases, Option-cases,
}
use go_shortvideo.Prelude.Int.{ℤ, pos, ◌+ℤ◌}
use go_shortvideo.Dict.{Dict, lookup, lookup_or, insert, lookup-insert}
use go_shortvideo.Like.Service.{LikeEvent, add_delta}
use go_shortvideo.Like.Sums.{pos_0-+ℤ}
use go_shortvideo.Like.Consumer.{is_liked, change, write_events, handle_batch}
use go_shortvideo.Like.MemRepo
use go_shortvideo.Like.MemRepo.{
  LikeRecord, MemLikeRepo, mem_like_repo, record_of, set_record, at_least_zero, add_deltas, deliver,
}
use go_shortvideo.Like.Latest.{record_of-set_record, upsert_like-true}
use go_shortvideo.Like.MysqlRepo.{
  LikeTables, LikeRow, StatsRow, upsert_like, apply_count_deltas, mysql_like_repo,
}

abbrev pub row_of : Option LikeRecord → Option LikeRow
row_of none = none
row_of (some r) = some (record { status = if r.liked then 1 else 0; updated_at = r.updated_at })

abbrev pub count_of : Option StatsRow → Option ℤ
count_of none = none
count_of (some r) = some r.like_count

module _ (tables : LikeTables) where
  -- The tables hold the records and the counts in memory.
  pub record Holds (s : tables.State) (m : MemLikeRepo) : Type 0 where
    pub records : (u v : ℕ) → tables.record_row u v s ≡ row_of (record_of u v m.records)
    pub stats : (v : ℕ) → count_of (tables.stats_row v s) ≡ lookup v m.stats

  record_of-key :
      (u v a b : ℕ) (m : MemRepo.Records)
      → (u == a && v == b) ≡ true
      → record_of u v m ≡ record_of a b m
  record_of-key u v a b m h =
      let us : u ≡ a = ground arith in
      let vs : v ≡ b = ground arith in ap₂ (λ (x y : ℕ). record_of x y m) us vs

  upsert_like-row :
      (u v ts : ℕ) (liked : Bool) (a b : ℕ) (s : tables.State) (m : MemLikeRepo)
      → Holds s m
      → (upsert_like tables u v ts liked s).0 ≡ true
      → tables.record_row a b (upsert_like tables u v ts liked s).1
        ≡ row_of (record_of a b (MemRepo.upsert_like u v ts liked m).1.records)
  unfolding upsert_like MemRepo.upsert_like
  upsert_like-row u v ts liked a b s m i went =
      let status : ℕ = if liked then 1 else 0 in
      let new : LikeRecord = record { liked = liked; updated_at = ts } in
      let row = tables.record_row-exec_record u v status ts s went a b in
      let set = record_of-set_record u v a b new m.records in
      elim (Bool-cases (u == a && v == b)) [
        | inr other ↦ ground (arith, row, set, other, i.records a b)
        | inl same ↦
            let key = record_of-key u v a b m.records same in
            elim (Option-cases (record_of u v m.records)) [
              | inl none_yet ↦ ground (arith, row, set, same, i.records u v, key)
              | inr (r, found) ↦ elim (Bool-cases (ltb r.updated_at ts)) [
                | inl newer ↦ ground (arith, row, set, same, i.records u v, key)
                | inr older ↦ ground (arith, row, set, same, i.records u v, key)
              ]
            ]
      ]

  Holds-upsert_like :
      (u v ts : ℕ) (liked : Bool) (s : tables.State) (m : MemLikeRepo)
      → Holds s m
      → (upsert_like tables u v ts liked s).0 ≡ true
      → Holds (upsert_like tables u v ts liked s).1 (MemRepo.upsert_like u v ts liked m).1
  unfolding upsert_like MemRepo.upsert_like
  Holds-upsert_like u v ts liked s m i went = record {
    records = λ a b. upsert_like-row u v ts liked a b s m i went;
    stats = λ k. ground (arith, tables.stats_row-exec_record u v _ ts k s went, i.stats k);
  }

  exec_stats-row :
      (v k : ℕ) (d : ℤ) (s : tables.State) (m : MemLikeRepo)
      → Holds s m
      → (tables.exec_stats v d d s).0 ≡ true
      → count_of (tables.stats_row k (tables.exec_stats v d d s).1)
        ≡ lookup k (insert v (at_least_zero (lookup_or (pos 0) v m.stats +ℤ d)) m.stats)
  exec_stats-row v k d s m i went =
      let row = tables.stats_row-exec_stats v d d s went k in
      let set = lookup-insert v k (at_least_zero (lookup_or (pos 0) v m.stats +ℤ d)) m.stats in
      elim (Bool-cases (v == k)) [
        | inr other ↦ ground (arith, row, set, other, i.stats k)
        | inl same ↦ elim (Option-cases (tables.stats_row v s)) [
          | inl none_yet ↦ ground (arith, row, set, same, i.stats v, none_yet, pos_0-+ℤ d)
          | inr (r, found) ↦ ground (arith, row, set, same, i.stats v, found)
        ]
      ]

  Holds-add_deltas :
      (deltas : Dict ℤ) (s : tables.State) (m : MemLikeRepo)
      → Holds s m
      → (apply_count_deltas tables deltas s).0 ≡ true
      → Holds (apply_count_deltas tables deltas s).1 (MemRepo.apply_count_deltas deltas m).1
  unfolding apply_count_deltas MemRepo.apply_count_deltas add_deltas
  Holds-add_deltas [] s m i went = i
  Holds-add_deltas ((v, d) ∷ deltas) s m i went =
      let one = tables.exec_stats v d d s in
      elim (Bool-cases one.0) [
        | inr failed ↦ absurd (ground arith)
        | inl first ↦
            let next : Holds one.1 (record m {
              stats = insert v (at_least_zero (lookup_or (pos 0) v m.stats +ℤ d)) m.stats;
            }) =
              record {
                records = λ a b. tables.record_row-exec_stats v a b d d s first ∙ i.records a b;
                stats = λ k. exec_stats-row v k d s m i first;
              } in
            rw (first, apply_count_deltas) (Holds-add_deltas deltas one.1 _ next (ground arith))
      ]

  Holds-write_events :
      (es : List LikeEvent) (deltas answer : Dict ℤ) (s : tables.State) (m : MemLikeRepo)
      → Holds s m
      → (write_events (mysql_like_repo tables) es deltas s).0 ≡ some answer
      → Holds
          (write_events (mysql_like_repo tables) es deltas s).1
          (write_events mem_like_repo es deltas m).1
        × ((write_events mem_like_repo es deltas m).0 ≡ some answer)
  unfolding write_events
  Holds-write_events [] deltas answer s m i h = (i, h)
  Holds-write_events (e ∷ es) deltas answer s m i h =
      let liked = is_liked e.action in
      let one = upsert_like tables e.user_id e.video_id e.ts_milli liked s in
      elim (Bool-cases one.0) [
        | inr failed ↦ absurd (ground arith)
        | inl went ↦
            let next = Holds-upsert_like e.user_id e.video_id e.ts_milli liked s m i went in
            let deltas' = add_delta e.video_id (change e.action) deltas in
            let told = upsert_like-true e m in
            rw (went, told, write_events)
              (Holds-write_events es deltas' answer one.1 _ next (ground arith))
      ]

  Holds-handle_batch :
      (es : List LikeEvent) (s : tables.State) (m : MemLikeRepo)
      → Holds s m
      → (handle_batch (mysql_like_repo tables) es s).0 ≡ true
      → Holds (handle_batch (mysql_like_repo tables) es s).1 (handle_batch mem_like_repo es m).1
  unfolding handle_batch
  Holds-handle_batch es s m i h =
      elim (Option-cases (write_events (mysql_like_repo tables) es [] s).0) [
        | inl failed ↦ absurd (ground arith)
        | inr (deltas, written) ↦
            let (next, same) = Holds-write_events es [] deltas s m i written in
            rw (written, same, handle_batch) (Holds-add_deltas deltas _ _ next (ground arith))
      ]

  -- The batches of a topic in turn, up to the first that is answered with an error.
  unfoldable pub deliver_all : List (List LikeEvent) → tables.State → Bool × tables.State
  deliver_all [] s = (true, s)
  deliver_all (b ∷ bs) s =
      let (went, s') = handle_batch (mysql_like_repo tables) b s in
      let rest = deliver_all bs s' in if went then rest else (false, s')

  -- Batches of events that the repository in MySQL answers without an error leave in its tables the
  -- records and the counts that the repository in memory would hold after the same batches.
  pub Holds-deliver_all :
      (bs : List (List LikeEvent)) (s : tables.State) (m : MemLikeRepo)
      → Holds s m
      → (deliver_all bs s).0 ≡ true
      → Holds (deliver_all bs s).1 (deliver bs m)
  unfolding deliver_all deliver
  Holds-deliver_all [] s m i h = i
  Holds-deliver_all (b ∷ bs) s m i h =
      elim (Bool-cases (handle_batch (mysql_like_repo tables) b s).0) [
        | inr failed ↦ absurd (ground arith)
        | inl went ↦
            rw (went, deliver_all)
              (Holds-deliver_all bs _ _ (Holds-handle_batch b s m i went) (ground arith))
      ]
