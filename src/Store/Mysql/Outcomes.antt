-- ===== src/Store/Mysql/Outcomes.antt =====
-- What one call does on a database, against the store in memory.
use go_shortvideo.Prelude.{
  ℕ, ◌≡◌, refl, sym, ap, ◌∙◌, ◌⊎◌, inl, inr, true, false, not, ◌&&◌, Option, none, some, ◌==◌,
  arith, Bool-cases, Option-cases,
}
use go_shortvideo.Dict.{lookup, has_key}
use go_shortvideo.Store.Users
use go_shortvideo.Store.State.{Store, not_found, Result, ok, err}
use go_shortvideo.Store.Follows as Memory
use go_shortvideo.Store.Invariant.Mirror.{follows-follow, follows-unfollow}
use go_shortvideo.Store.Mysql.Agreement.{
  Agrees, Agrees-same, Agrees-follow, Agrees-unfollow, in_transaction-SameAccounts,
  in_transaction-AllOrNothing,
}
use go_shortvideo.Store.Mysql.{
  Database, following, follower, insert_ignore, delete_from, get_user, in_transaction, follow_as,
  follow, unfollow,
}

module _ (db : Database) where
  -- A call is answered as in memory, with the same effect; or it fails with another error, and then
  -- it had this effect or none.
  abbrev pub Outcome :
      Store → Result (Unit {0}) × Store → Option (Result (Unit {0})) × db.State → Type 0
  Outcome m told r =
      ((r.0 ≡ some told.0) × Agrees db r.1 told.1)
      ⊎ ((r.0 ≡ none) × (Agrees db r.1 m ⊎ Agrees db r.1 told.1))

  get_user-Agrees :
      (id : ℕ) (s : db.State) (m : Store)
      → Agrees db s m
      → Agrees db (get_user db id s).1 m
        × (((get_user db id s).0 ≡ none) ⊎ ((get_user db id s).0 ≡ some (Users.get_user id m)))
  unfolding get_user Users.get_user
  get_user-Agrees id s m i = (
    Agrees-same db s (get_user db id s).1 m (λ j. ground (arith, db.account-query_user id j s))
        (λ t a b. ground (arith, db.row-query_user id t a b s)) i,
    elim (Option-cases (db.query_user id s).0) [
      | inl e ↦ inl (rw (e, get_user) refl)
      | inr (o, e) ↦ inr (ground (arith, db.query_user-some id o s e, i.accounts id))
    ],
  )

  pub Outcome-unfollow :
      (a b : ℕ) (s : db.State) (m : Store)
      → Agrees db s m
      → Outcome m (Memory.unfollow a b m) (unfollow db a b s)
  unfolding unfollow
  Outcome-unfollow a b s m i =
      let c = delete_from following a b in
      let d = delete_from follower b a in
      let s' = (in_transaction db c d s).1 in
      let users = in_transaction-SameAccounts db c d s in
      elim (in_transaction-AllOrNothing db c d s) [
        | inl (went, rows) ↦ inl (
          went ∙ ap some (sym (follows-unfollow a b a b m).0),
          Agrees-unfollow db a b s s' m users rows i,
        )
        | inr (failed, inl nothing) ↦ inr (failed, inl (Agrees-same db s s' m users nothing i))
        | inr (failed, inr all) ↦ inr (failed, inr (Agrees-unfollow db a b s s' m users all i))
      ]

  Outcome-insert :
      (a b : ℕ) (s : db.State) (m : Store)
      → (not (a == b) && has_key a m.users && has_key b m.users) ≡ true
      → Agrees db s m
      → Outcome m
          (Memory.follow a b m)
          (in_transaction db (insert_ignore following a b) (insert_ignore follower b a) s)
  Outcome-insert a b s m may i =
      let c = insert_ignore following a b in
      let d = insert_ignore follower b a in
      let s' = (in_transaction db c d s).1 in
      let users = in_transaction-SameAccounts db c d s in
      let told : (Memory.follow a b m).0 ≡ ok tt = ground (arith, (follows-follow a b a b m).0) in
      elim (in_transaction-AllOrNothing db c d s) [
        | inl (went, rows) ↦
            inl (went ∙ ap some (sym told), Agrees-follow db a b s s' m may users rows i)
        | inr (failed, inl nothing) ↦ inr (failed, inl (Agrees-same db s s' m users nothing i))
        | inr (failed, inr all) ↦ inr (failed, inr (Agrees-follow db a b s s' m may users all i))
      ]

  Outcome-refused :
      (m : Store) (told : Result (Unit {0}) × Store) (r : Option (Result (Unit {0})) × db.State)
      → told.1 ≡ m
      → r.0 ≡ some told.0
      → Agrees db r.1 m
      → Outcome m told r
  Outcome-refused m told r same answer i = inl (answer, rw same i)

  follow-refused :
      (a b : ℕ) (m : Store)
      → (not (a == b) && has_key a m.users && has_key b m.users) ≡ false
      → (Memory.follow a b m).1 ≡ m
  unfolding Memory.follow
  follow-refused a b m refused = ground arith

  Outcome-follow_as :
      (a b : ℕ) (s : db.State) (m : Store)
      → (not (a == b) && has_key a m.users) ≡ true
      → Agrees db s m
      → Outcome m (Memory.follow a b m) (follow_as db a b s)
  unfolding follow_as Users.get_user
  Outcome-follow_as a b s m may i =
      let (i', found) = get_user-Agrees b s m i in
      let told = (follows-follow a b a b m).0 in
      elim found [
        | inl failed ↦ rw (failed, follow_as) (inr (refl, inl i'))
        | inr answer ↦ elim (Option-cases (lookup b m.users)) [
          | inl unknown ↦
              let missing : (get_user db b s).0 ≡ some (err not_found) = ground (arith, answer) in
              Outcome-refused m _ (follow_as db a b s) (follow-refused a b m (ground arith))
                (rw (missing, follow_as) (ground (arith, told))) (rw (missing, follow_as) i')
          | inr (u, known) ↦
              let there : (get_user db b s).0 ≡ some (ok u) = ground (arith, answer) in
              rw (there, follow_as) (Outcome-insert a b (get_user db b s).1 m (ground arith) i')
        ]
      ]

  pub Outcome-follow :
      (a b : ℕ) (s : db.State) (m : Store)
      → Agrees db s m
      → Outcome m (Memory.follow a b m) (follow db a b s)
  unfolding follow Users.get_user
  Outcome-follow a b s m i =
      let (i', found) = get_user-Agrees a s m i in
      let told = (follows-follow a b a b m).0 in
      elim (Bool-cases (a == b)) [
        | inl same ↦
            Outcome-refused m _ (follow db a b s) (follow-refused a b m (ground arith))
              (rw (same, follow) (ground (arith, told))) (rw (same, follow) i)
        | inr other ↦ elim found [
          | inl failed ↦ rw (other, failed, follow) (inr (refl, inl i'))
          | inr answer ↦ elim (Option-cases (lookup a m.users)) [
            | inl unknown ↦
                let missing : (get_user db a s).0 ≡ some (err not_found) = ground (arith, answer) in
                Outcome-refused m _ (follow db a b s) (follow-refused a b m (ground arith))
                  (rw (other, missing, follow) (ground (arith, told)))
                  (rw (other, missing, follow) i')
            | inr (u, known) ↦
                let there : (get_user db a s).0 ≡ some (ok u) = ground (arith, answer) in
                rw (other, there, follow)
                  (Outcome-follow_as a b (get_user db a s).1 m (ground arith) i')
          ]
        ]
      ]
