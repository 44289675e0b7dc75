-- ===== src/Store/Mysql.antt =====
-- The branches of internal/store/store.go for a store with a database: accounts and follow relations.
pub mod Agreement
pub mod Outcomes
pub mod History
pub mod Accounts
pub mod Lists
pub mod Pages
use go_shortvideo.Prelude.{
  ℕ, ◌≡◌, ◌⊎◌, Bool, true, false, ◌&&◌, Option, none, some, ◌==◌, if◌then◌else◌,
}
use go_shortvideo.Model.{User}
use go_shortvideo.Store.State.{not_found, invalid, Result, ok, err}

-- The two tables of pairs, with the columns in the order of their primary keys.
pub data Table : Type 0 where
  following follower : Table

-- `INSERT IGNORE INTO` with the key, or `DELETE FROM` with a condition for every column of the key.
pub data Statement : Type 0 where
  insert_ignore delete_from : Table → (a b : ℕ) → Statement

abbrev pub same_table : Table → Table → Bool
same_table following following = true
same_table follower follower = true
same_table following follower = false
same_table follower following = false

-- Whether a row is there after a statement.
abbrev pub effect : Statement → Table → (a b : ℕ) → Bool → Bool
effect (insert_ignore u c d) t a b now = if same_table u t && c == a && d == b then true else now
effect (delete_from u c d) t a b now = if same_table u t && c == a && d == b then false else now

-- MySQL behind `database/sql`, for one client at a time: its committed rows, and those that a
-- transaction sees. Any call may fail, which is `none` or `false`. A transaction that is not committed
-- changes nothing; where the commit fails, it was done or not.
pub record Database : Type 1 where
  pub State : Type 0
  pub Tx : Type 0
  pub row : Table → (a b : ℕ) → State → Bool
  pub row_tx : Table → (a b : ℕ) → Tx → Bool
  pub account : (id : ℕ) → State → Option User
  pub query_user : (id : ℕ) → State → Option (Option User) × State
  pub begin_tx : State → Option Tx × State
  pub exec : Statement → Tx → Bool × Tx
  pub commit : Tx → State → Bool × State
  pub query_user-some :
      (id : ℕ) (o : Option User) (s : State) → (query_user id s).0 ≡ some o → o ≡ account id s
  pub row-query_user :
      (id : ℕ) (t : Table) (a b : ℕ) (s : State) → row t a b (query_user id s).1 ≡ row t a b s
  pub account-query_user : (id j : ℕ) (s : State) → account j (query_user id s).1 ≡ account j s
  pub row-begin_tx : (t : Table) (a b : ℕ) (s : State) → row t a b (begin_tx s).1 ≡ row t a b s
  pub account-begin_tx : (j : ℕ) (s : State) → account j (begin_tx s).1 ≡ account j s
  pub row_tx-begin_tx :
      (tx : Tx) (t : Table) (a b : ℕ) (s : State)
      → (begin_tx s).0 ≡ some tx
      → row_tx t a b tx ≡ row t a b s
  pub row_tx-exec :
      (c : Statement) (t : Table) (a b : ℕ) (tx : Tx)
      → (exec c tx).0 ≡ true
      → row_tx t a b (exec c tx).1 ≡ effect c t a b (row_tx t a b tx)
  pub row-commit :
      (tx : Tx) (s : State)
      → (commit tx s).0 ≡ true
      → (t : Table) (a b : ℕ) → row t a b (commit tx s).1 ≡ row_tx t a b tx
  pub row-commit_false :
      (tx : Tx) (s : State)
      → (commit tx s).0 ≡ false
      → ((t : Table) (a b : ℕ) → row t a b (commit tx s).1 ≡ row t a b s)
        ⊎ ((t : Table) (a b : ℕ) → row t a b (commit tx s).1 ≡ row_tx t a b tx)
  pub account-commit : (j : ℕ) (tx : Tx) (s : State) → account j (commit tx s).1 ≡ account j s

-- An answer is `none` where the error is not one of the store.
module _ (db : Database) where
  unfoldable pub get_user : (id : ℕ) → db.State → Option (Result User) × db.State
  get_user id s =
      let (found, s') = db.query_user id s in
      elim found [
        | none ↦ (none, s')
        | some none ↦ (some (err not_found), s')
        | some (some u) ↦ (some (ok u), s')
      ]

  -- The deferred `Rollback` of a transaction that is not committed leaves the state as it is.
  unfoldable pub in_transaction :
      Statement → Statement → db.State → Option (Result (Unit {0})) × db.State
  in_transaction first second s =
      let (begun, s') = db.begin_tx s in
      elim begun [
        | none ↦ (none, s')
        | some tx ↦
            let (done_first, tx1) = db.exec first tx in
            let (done_second, tx2) = db.exec second tx1 in
            let (committed, s'') = db.commit tx2 s' in
            if done_first
            then (if done_second
                then (if committed then (some (ok tt), s'') else (none, s''))
                else (none, s'))
            else (none, s')
      ]

  -- Behind the look-up of the follower.
  unfoldable pub follow_as :
      (follower followee : ℕ) → db.State → Option (Result (Unit {0})) × db.State
  unfolding get_user in_transaction
  follow_as a b s =
      let (found, s') = get_user b s in
      elim found [
        | none ↦ (none, s')
        | some (err e) ↦ (some (err e), s')
        | some (ok u) ↦ in_transaction (insert_ignore following a b) (insert_ignore follower b a) s'
      ]

  unfoldable pub follow : (follower followee : ℕ) → db.State → Option (Result (Unit {0})) × db.State
  unfolding get_user follow_as
  follow a b s =
      let (found, s') = get_user a s in
      if a == b then (some (err invalid), s) else elim found [
        | none ↦ (none, s')
        | some (err e) ↦ (some (err e), s')
        | some (ok u) ↦ follow_as a b s'
      ]

  unfoldable pub unfollow :
      (follower followee : ℕ) → db.State → Option (Result (Unit {0})) × db.State
  unfolding in_transaction
  unfollow a b s = in_transaction (delete_from following a b) (delete_from follower b a) s
