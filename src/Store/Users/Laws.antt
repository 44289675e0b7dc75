-- ===== src/Store/Users/Laws.antt =====
-- Registration and login.
use text.Mathlib.Text.{◌==◌ as str_eq}
use text.Mathlib.TextPositions.{eq_refl}
use go_shortvideo.Prelude.{
  ℕ, ◌+◌, ◌≡◌, String, false, some, arith, if◌then◌else◌, Option-cases, inl, inr,
}
use go_shortvideo.Dict
use go_shortvideo.TextDict
use go_shortvideo.TextDict.{lookup-insert}
use go_shortvideo.Model.{User}
use go_shortvideo.Store.State.{Store, wrong_password, ok, err}
use go_shortvideo.Store.Users.{
  Bcrypt, create_user, store_user, authenticate_user, get_user_by_username, get_user,
}

module _ (bcrypt : Bcrypt) (salt now : ℕ) (name password : String) (s : Store) where
  -- What a registration that succeeds has done.
  created :
      (u : User) (s' : Store)
      → create_user bcrypt salt now name password s ≡ (ok u, s')
      → (bcrypt.generate salt password ≡ some u.password_hash)
        × (s'.user_by_name ≡ TextDict.insert name u s.user_by_name)
        × (s'.users ≡ Dict.insert u.id u s.users)
        × (u.id ≡ s.user_seq + 1)
  unfolding create_user store_user
  created u s' h = elim (Option-cases (bcrypt.generate salt password)) [
    | inl refused ↦ ground arith
    | inr (hash, e) ↦ ground arith
  ]

  -- When `CreateUser` succeeds, be the name taken before or not, the name belongs to the new
  -- account from then on: its password logs in, any other password is judged by the new hash alone, and the
  -- account is found under its id; every other name logs in as it did before.
  pub authenticate_user-create_user :
      (u : User) (s' : Store)
      → create_user bcrypt salt now name password s ≡ (ok u, s')
      → (authenticate_user bcrypt name password s' ≡ ok (record u { password_hash = "" }))
        × ((tried : String)
            → authenticate_user bcrypt name tried s' ≡ (
                if bcrypt.accepts u.password_hash tried
                then ok (record u { password_hash = "" })
                else err wrong_password))
        × (get_user u.id s' ≡ ok u)
        × ((other tried : String)
            → str_eq name other ≡ false
            → authenticate_user bcrypt other tried s' ≡ authenticate_user bcrypt other tried s)
  unfolding authenticate_user get_user_by_username get_user
  authenticate_user-create_user u s' h =
      let (hashed, names, table, next) = created u s' h in
      let own = lookup-insert name name u s.user_by_name in
      let same = eq_refl name in
      let accepted = bcrypt.accepts-generate salt password u.password_hash hashed in
      (
        ground (arith, own, same, accepted),
        λ tried. ground (arith, own, same),
        ground (arith, Dict.lookup-insert u.id u.id u s.users),
        λ other tried ne. ground (arith, lookup-insert name other u s.user_by_name),
      )
