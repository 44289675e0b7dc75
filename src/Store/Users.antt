-- ===== src/Store/Users.antt =====
-- Accounts: `CreateUser`, `GetUser`, `GetUserByUsername`, `AuthenticateUser` of the in-memory store.
pub mod Laws
use text.Mathlib.Text.{◌==◌ as str_eq}
use Prim.Native.String.{len}
use go_shortvideo.Prelude.{
  ℕ, ◌+◌, ◌≡◌, String, Bool, true, ◌||◌, Option, none, some, ltb, if◌then◌else◌,
}
use go_shortvideo.Dict
use go_shortvideo.TextDict
use go_shortvideo.Model.{User}
use go_shortvideo.Store.State.{
  Store, not_found, wrong_password, short_password, hash_failed, invalid, Result, ok, err,
}

-- golang.org/x/crypto/bcrypt: a password is hashed with a random salt, or refused; a hash that was
-- made from a password accepts it.
pub record Bcrypt : Type 0 where
  pub generate : ℕ → String → Option String
  pub accepts : String → String → Bool
  pub accepts-generate : (salt : ℕ) (p h : String) → generate salt p ≡ some h → accepts h p ≡ true

-- The writes of `CreateUser` under the lock.
unfoldable pub store_user : ℕ → String → String → Store → User × Store
store_user now username hash s =
    let id = s.user_seq + 1 in
    let u : User = record {
      id = id;
      username = username;
      password_hash = hash;
      created_at = now;
    } in
    (
      u,
      record s {
        user_seq = id;
        users = Dict.insert id u s.users;
        user_by_name = TextDict.insert username u s.user_by_name;
      },
    )

unfoldable pub get_user_by_username : String → Store → Result User
get_user_by_username username s = elim (TextDict.lookup username s.user_by_name) [
  | none ↦ err not_found
  | some u ↦ ok u
]

unfoldable pub get_user : ℕ → Store → Result User
get_user id s = elim (Dict.lookup id s.users) [ none ↦ err not_found | some u ↦ ok u ]

module _ (bcrypt : Bcrypt) where
  unfoldable pub create_user : (salt now : ℕ) → String → String → Store → Result User × Store
  create_user salt now username password s =
      if str_eq username "" || str_eq password ""
      then (err invalid, s)
      else if ltb (len password) 6
      then (err short_password, s)
      else elim (bcrypt.generate salt password) [
        | none ↦ (err hash_failed, s)
        | some hash ↦ let (u, s') = store_user now username hash s in (ok u, s')
      ]

  -- The hash is wiped from the record that is returned.
  unfoldable pub authenticate_user : String → String → Store → Result User
  authenticate_user username password s = elim (get_user_by_username username s) [
    | err _ ↦ err not_found
    | ok u ↦
        if bcrypt.accepts u.password_hash password
        then ok (record u { password_hash = "" })
        else err wrong_password
  ]
