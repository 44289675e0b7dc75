-- ===== src/Tests/StoredRuns.antt =====
-- The repository for likes over two tables in memory.
use go_shortvideo.Prelude.{ℕ, ◌≡◌, refl, true, ◌&&◌, Option, none, some, ◌==◌, if◌then◌else◌}
use go_shortvideo.Prelude.Int.{ℤ, ◌+ℤ◌}
use go_shortvideo.Dict.{lookup, insert}
use go_shortvideo.Like.Service.{add_delta}
use go_shortvideo.Like.Consumer.{handle_batch, write_events}
use go_shortvideo.Like.MemRepo.{new_mem_like_repo, record_of, deliver}
use go_shortvideo.Like.MysqlRepo.{
  LikeTables, LikeRow, StatsRow, upserted, counted, upsert_like, apply_count_deltas,
}
use go_shortvideo.Like.Stored.{Holds, deliver_all, Holds-deliver_all}
use go_shortvideo.Tests.RepoRuns.{shuffled}

record Rows : Type 0 where
  likes : ℕ → ℕ → Option LikeRow
  stats : ℕ → Option StatsRow

abbrev put_like : (u v status ts : ℕ) → Rows → Rows
put_like u v status ts s = record s {
  likes = λ a b.
      if u == a && v == b
      then some (upserted (record { status = status; updated_at = ts }) (s.likes u v))
      else s.likes a b;
}

abbrev put_stats : ℕ → ℤ → ℤ → Rows → Rows
put_stats v d t s = record s {
  stats = λ k. if v == k then some (counted d t (s.stats v)) else s.stats k;
}

abbrev tables : LikeTables
tables = record {
  State = Rows;
  record_row = λ u v s. s.likes u v;
  stats_row = λ v s. s.stats v;
  exec_record = λ u v status ts s. (true, put_like u v status ts s);
  exec_stats = λ v d t s. (true, put_stats v d t s);
  query_count = λ v s. some (elim (s.stats v) [ none ↦ none | some r ↦ some r.like_count ]);
  query_users = λ v s. none;
  record_row-exec_record = λ u v status ts s e a b. refl;
  stats_row-exec_record = λ u v status ts k s e. refl;
  stats_row-exec_stats = λ v d t s e k. refl;
  record_row-exec_stats = λ v a b d t s e. refl;
}

abbrev empty : Rows
empty = record { likes = λ u v. none; stats = λ v. none }

empty-Holds : Holds tables empty new_mem_like_repo
unfolding record_of lookup
empty-Holds = record { records = λ u v. refl; stats = λ v. refl }

-- The unlike comes first, and the like twice.
shuffled-done : (deliver_all tables shuffled empty).0 ≡ true
unfolding deliver_all handle_batch write_events upsert_like apply_count_deltas add_delta lookup
    insert ◌+ℤ◌
shuffled-done = refl

Holds-deliver_all_example :
    Holds tables (deliver_all tables shuffled empty).1 (deliver shuffled new_mem_like_repo)
Holds-deliver_all_example =
    Holds-deliver_all tables shuffled empty new_mem_like_repo empty-Holds shuffled-done

unlike_stays :
    (deliver_all tables shuffled empty).1.likes 1 7 ≡ some (record { status = 0; updated_at = 9 })
unfolding deliver_all handle_batch write_events upsert_like apply_count_deltas add_delta lookup
    insert ◌+ℤ◌
unlike_stays = refl
