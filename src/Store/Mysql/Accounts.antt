-- ===== src/Store/Mysql/Accounts.antt =====
-- The branches of CreateUser and GetUserByUsername for a store with a database, and AuthenticateUser on
-- top of them.
use text.Mathlib.Text.{◌==◌ as str_eq}
use Prim.Native.String.{len}
use go_shortvideo.Prelude.{
  ℕ, ◌≡◌, ◌⊎◌, String, Bool, true, false, ◌||◌, Option, none, some, List, [], ◌∷◌, ltb,
  if◌then◌else◌,
}
use go_shortvideo.Model.{User}
use go_shortvideo.Store.State.{
  not_found, wrong_password, short_password, hash_failed, invalid, Result, ok, err,
}
use go_shortvideo.Store.Users.{Bcrypt}
use go_shortvideo.Store.Mysql.{Database}

-- The table `user_account`, with its key `uk_username`: `named` is the row of a name, where names are
-- compared as the collation of the table does. A call may fail, which is `none`; a row that is
-- inserted gets a new id, and its name was free; where the call fails, the row may have been inserted
-- nevertheless.
pub record Accounts (db : Database) : Type 0 where
  pub same_name : String → String → Bool
  pub named : String → db.State → Option User
  pub query_username : String → db.State → Option (Option User) × db.State
  pub insert_user : (username hash : String) → (ts : ℕ) → db.State → Option ℕ × db.State
  pub same_name-refl : (n : String) → same_name n n ≡ true
  pub query_username-some :
      (n : String) (o : Option User) (s : db.State)
      → (query_username n s).0 ≡ some o
      → o ≡ named n s
  pub named-query_username :
      (n k : String) (s : db.State) → named k (query_username n s).1 ≡ named k s
  pub insert_user-some :
      (n h : String) (ts id : ℕ) (s : db.State)
      → (insert_user n h ts s).0 ≡ some id
      → (named n s ≡ none)
        × ((k : String)
            → named k (insert_user n h ts s).1 ≡ (
                if same_name n k
                then some (record { id = id; username = n; password_hash = h; created_at = ts })
                else named k s))
  pub insert_user-none :
      (n h : String) (ts : ℕ) (s : db.State)
      → (insert_user n h ts s).0 ≡ none
      → ((k : String) → named k (insert_user n h ts s).1 ≡ named k s)
        ⊎ ((named n s ≡ none)
            × ((k : String) → same_name n k ≡ false → named k (insert_user n h ts s).1 ≡ named k s))
  pub named-same : (n k : String) (s : db.State) → same_name n k ≡ true → named n s ≡ named k s

-- The calls that come later: `CreateUser`, and `AuthenticateUser`.
pub data Later : Type 0 where
  register : (salt now : ℕ) → (username password : String) → Later
  login : (username password : String) → Later

module _ (db : Database) (accounts : Accounts db) where
  unfoldable pub get_user_by_username : String → db.State → Option (Result User) × db.State
  get_user_by_username username s =
      let (found, s') = accounts.query_username username s in
      elim found [
        | none ↦ (none, s')
        | some none ↦ (some (err not_found), s')
        | some (some u) ↦ (some (ok u), s')
      ]

  module _ (bcrypt : Bcrypt) where
    -- The insertion of `CreateUser`.
    unfoldable pub store_user :
        (now : ℕ) → String → String → db.State → Option (Result User) × db.State
    store_user now username hash s =
        let (inserted, s') = accounts.insert_user username hash now s in
        elim inserted [
          | none ↦ (none, s')
          | some id ↦ (
            some (
                ok (record {
                  id = id;
                  username = username;
                  password_hash = hash;
                  created_at = now;
                })),
            s',
          )
        ]

    unfoldable pub create_user :
        (salt now : ℕ) → String → String → db.State → Option (Result User) × db.State
    unfolding store_user
    create_user salt now username password s =
        if str_eq username "" || str_eq password ""
        then (some (err invalid), s)
        else if ltb (len password) 6
        then (some (err short_password), s)
        else elim (bcrypt.generate salt password) [
          | none ↦ (some (err hash_failed), s)
          | some hash ↦ store_user now username hash s
        ]

    -- Any error of the look-up is answered as an account that is not there.
    unfoldable pub authenticate_user : String → String → db.State → Result User × db.State
    unfolding get_user_by_username
    authenticate_user username password s =
        let (found, s') = get_user_by_username username s in
        elim found [
          | none ↦ (err not_found, s')
          | some (err e) ↦ (err not_found, s')
          | some (ok u) ↦
              if bcrypt.accepts u.password_hash password
              then (ok (record u { password_hash = "" }), s')
              else (err wrong_password, s')
        ]

    unfoldable pub run_later : List Later → db.State → db.State
    run_later [] s = s
    run_later (register salt now name password ∷ cs) s =
        run_later cs (create_user salt now name password s).1
    run_later (login name password ∷ cs) s = run_later cs (authenticate_user name password s).1
