-- ===== src/Like/MysqlRepo.antt =====
-- internal/like/mysql_repo.go: the records and counts of likes in MySQL, which is a parameter.
use go_shortvideo.Prelude.{
  ℕ, ◌≡◌, Bool, true, false, ◌&&◌, Option, none, some, List, [], ◌∷◌, ltb, ◌==◌, if◌then◌else◌,
}
use go_shortvideo.Prelude.Int.{ℤ, pos, ◌+ℤ◌}
use go_shortvideo.Dict.{Dict}
use go_shortvideo.Like.Consumer.{Repo}
use go_shortvideo.Like.MemRepo.{at_least_zero}

-- A row of `like_record`, without its key, and one of `video_stats`.
pub record LikeRow : Type 0 where
  pub status : ℕ
  pub updated_at : ℕ

pub record StatsRow : Type 0 where
  pub like_count : ℤ
  pub updated_at : ℤ

-- `ON DUPLICATE KEY UPDATE` of the two statements: the assignments are made from left to right.
abbrev pub upserted : LikeRow → Option LikeRow → LikeRow
upserted new none = new
upserted new (some old) = record {
  status = if ltb old.updated_at new.updated_at then new.status else old.status;
  updated_at = if ltb old.updated_at new.updated_at then new.updated_at else old.updated_at;
}

abbrev pub counted : (delta updated_at : ℤ) → Option StatsRow → StatsRow
counted delta updated_at none = record { like_count = at_least_zero delta; updated_at = updated_at }
counted delta updated_at (some old) = record {
  like_count = at_least_zero (old.like_count +ℤ delta);
  updated_at = updated_at;
}

-- The two tables, and the statements of the repository. A statement that is answered with `true` is
-- done; a query that fails is `none`.
pub record LikeTables : Type 1 where
  pub State : Type 0
  pub record_row : (user video : ℕ) → State → Option LikeRow
  pub stats_row : (video : ℕ) → State → Option StatsRow
  pub exec_record : (user video status ts : ℕ) → State → Bool × State
  pub exec_stats : (video : ℕ) → (delta updated_at : ℤ) → State → Bool × State
  pub query_count : (video : ℕ) → State → Option (Option ℤ)
  pub query_users : (video : ℕ) → State → Option (List ℕ)
  pub record_row-exec_record :
      (u v status ts : ℕ) (s : State)
      → (exec_record u v status ts s).0 ≡ true
      → (a b : ℕ)
      → record_row a b (exec_record u v status ts s).1 ≡ (
          if u == a && v == b
          then some (upserted (record { status = status; updated_at = ts }) (record_row u v s))
          else record_row a b s)
  pub stats_row-exec_record :
      (u v status ts k : ℕ) (s : State)
      → (exec_record u v status ts s).0 ≡ true
      → stats_row k (exec_record u v status ts s).1 ≡ stats_row k s
  pub stats_row-exec_stats :
      (v : ℕ) (d t : ℤ) (s : State)
      → (exec_stats v d t s).0 ≡ true
      → (k : ℕ)
      → stats_row k (exec_stats v d t s).1
        ≡ (if v == k then some (counted d t (stats_row v s)) else stats_row k s)
  pub record_row-exec_stats :
      (v a b : ℕ) (d t : ℤ) (s : State)
      → (exec_stats v d t s).0 ≡ true
      → record_row a b (exec_stats v d t s).1 ≡ record_row a b s

module _ (tables : LikeTables) where
  unfoldable pub upsert_like : (user video ts : ℕ) → Bool → tables.State → Bool × tables.State
  upsert_like user video ts liked s = tables.exec_record user video (if liked then 1 else 0) ts s

  -- The delta stands for every placeholder, the one of `updated_at` included.
  unfoldable pub apply_count_deltas : Dict ℤ → tables.State → Bool × tables.State
  apply_count_deltas [] s = (true, s)
  apply_count_deltas ((video, delta) ∷ deltas) s =
      let (went, s') = tables.exec_stats video delta delta s in
      let rest = apply_count_deltas deltas s' in if went then rest else (false, s')

  unfoldable pub get_like_count : (video : ℕ) → tables.State → Option ℤ
  get_like_count video s = elim (tables.query_count video s) [
    | none ↦ none
    | some none ↦ some (pos 0)
    | some (some cnt) ↦ some cnt
  ]

  unfoldable pub get_like_records_by_video : (video : ℕ) → tables.State → Option (List ℕ)
  get_like_records_by_video video s = tables.query_users video s

  abbrev pub mysql_like_repo : Repo
  mysql_like_repo = record {
    Db = tables.State;
    upsert_like = upsert_like;
    apply_count_deltas = apply_count_deltas;
  }
