-- ===== src/Relation/MysqlRepo.antt =====
-- internal/relation/mysql_repo.go: the follow relation in MySQL, where every statement is a transaction
-- of its own.
use go_shortvideo.Prelude.{
  ℕ, ◌+◌, ◌≡◌, ◌⊎◌, Bool, true, false, Option, none, some, List, ltb, if◌then◌else◌,
}
use go_shortvideo.Store.Mysql.{
  Database, Table, following, follower, Statement, insert_ignore, delete_from, effect,
}
use go_shortvideo.Store.Mysql.Lists.{Queries, page_of_ids}

-- `ExecContext` of the database itself: a statement that fails was done or not.
pub record Autocommit (db : Database) : Type 0 where
  pub exec : Statement → db.State → Bool × db.State
  pub row-exec :
      (c : Statement) (s : db.State)
      → (exec c s).0 ≡ true
      → (t : Table) (a b : ℕ) → db.row t a b (exec c s).1 ≡ effect c t a b (db.row t a b s)
  pub row-exec_false :
      (c : Statement) (s : db.State)
      → (exec c s).0 ≡ false
      → ((t : Table) (a b : ℕ) → db.row t a b (exec c s).1 ≡ db.row t a b s)
        ⊎ ((t : Table) (a b : ℕ) → db.row t a b (exec c s).1 ≡ effect c t a b (db.row t a b s))

-- `none` and `false` are errors.
module _ (db : Database) (queries : Queries db) where
  unfoldable pub follower_count : (user : ℕ) → db.State → Option ℕ
  follower_count user s = queries.count_rows follower user s

  unfoldable pub list_followers :
      (author cursor limit : ℕ) → db.State → Option (Option (List ℕ × ℕ))
  list_followers author cursor limit s =
      elim (if ltb 0 cursor
        then queries.select_page follower author (some cursor) (limit + 1) s
        else queries.select_page follower author none (limit + 1) s) [
          | none ↦ none
          | some ids ↦ some (page_of_ids limit ids)
        ]

  unfoldable pub list_followees : (user : ℕ) → db.State → Option (List ℕ)
  list_followees user s = queries.select following user s

module _ (db : Database) (auto : Autocommit db) where
  -- The second statement is left out where the first fails.
  unfoldable pub in_turn : Statement → Statement → db.State → Bool × db.State
  in_turn first second s =
      let (went, s') = auto.exec first s in
      let last = auto.exec second s' in if went then last else (false, s')

  unfoldable pub follow : (follower followee : ℕ) → db.State → Bool × db.State
  unfolding in_turn
  follow a b s = in_turn (insert_ignore following a b) (insert_ignore follower b a) s

  unfoldable pub unfollow : (follower followee : ℕ) → db.State → Bool × db.State
  unfolding in_turn
  unfollow a b s = in_turn (delete_from following a b) (delete_from follower b a) s
