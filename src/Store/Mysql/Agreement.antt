-- ===== src/Store/Mysql/Agreement.antt =====
-- The store with a database against the store in memory, for accounts and follow relations.
use go_shortvideo.Prelude.{
  ℕ, ◌≡◌, refl, ap, ◌∙◌, ◌⊎◌, inl, inr, true, not, ◌&&◌, Option, none, some, ◌==◌, arith,
  Bool-cases, Option-cases,
}
use go_shortvideo.Dict.{lookup, has_key}
use go_shortvideo.Store.State.{Store, Result, ok}
use go_shortvideo.Store.Follows as Memory
use go_shortvideo.Store.Invariant.Mirror.{follows, followed_by, follows-follow, follows-unfollow}
use go_shortvideo.Store.Mysql.{
  Database, Table, following, follower, Statement, insert_ignore, delete_from, effect,
  in_transaction,
}

module _ (db : Database) where
  -- The tables hold the accounts and the pairs that the maps in memory hold.
  pub record Agrees (s : db.State) (m : Store) : Type 0 where
    pub accounts : (id : ℕ) → db.account id s ≡ lookup id m.users
    pub following : (a b : ℕ) → db.row following a b s ≡ follows a b m
    pub followers : (a b : ℕ) → db.row follower b a s ≡ followed_by b a m

  abbrev pub SameAccounts : db.State → db.State → Type 0
  SameAccounts s s' = (id : ℕ) → db.account id s' ≡ db.account id s

  abbrev pub SameRows : db.State → db.State → Type 0
  SameRows s s' = (t : Table) (a b : ℕ) → db.row t a b s' ≡ db.row t a b s

  abbrev pub Written : Statement → Statement → db.State → db.State → Type 0
  Written c d s s' =
      (t : Table) (a b : ℕ) → db.row t a b s' ≡ effect d t a b (effect c t a b (db.row t a b s))

  -- Done as a whole or not at all, and done where it is answered so.
  abbrev pub AllOrNothing :
      Statement → Statement → db.State → Option (Result (Unit {0})) × db.State → Type 0
  AllOrNothing c d s r =
      ((r.0 ≡ some (ok tt)) × Written c d s r.1)
      ⊎ ((r.0 ≡ none) × (SameRows s r.1 ⊎ Written c d s r.1))

  pub in_transaction-SameAccounts :
      (c d : Statement) (s : db.State) → SameAccounts s (in_transaction db c d s).1
  unfolding in_transaction
  in_transaction-SameAccounts c d s id = grind (arith, db.account-begin_tx, db.account-commit)

  -- What a transaction has seen when both statements are done.
  row_tx-exec_both :
      (c d : Statement) (tx : db.Tx) (s : db.State)
      → (db.begin_tx s).0 ≡ some tx
      → (db.exec c tx).0 ≡ true
      → (db.exec d (db.exec c tx).1).0 ≡ true
      → (t : Table) (a b : ℕ)
      → db.row_tx t a b (db.exec d (db.exec c tx).1).1
        ≡ effect d t a b (effect c t a b (db.row t a b s))
  row_tx-exec_both c d tx s begun first second t a b =
      db.row_tx-exec d t a b (db.exec c tx).1 second
      ∙ ap (effect d t a b) (
          db.row_tx-exec c t a b tx first
          ∙ ap (effect c t a b) (db.row_tx-begin_tx tx t a b s begun))

  pub in_transaction-AllOrNothing :
      (c d : Statement) (s : db.State) → AllOrNothing c d s (in_transaction db c d s)
  unfolding in_transaction
  in_transaction-AllOrNothing c d s =
      let s' = (db.begin_tx s).1 in
      elim (Option-cases (db.begin_tx s).0) [
        | inl e ↦ rw (e, in_transaction) (inr (refl, inl (λ t a b. db.row-begin_tx t a b s)))
        | inr (tx, e) ↦
            let tx2 = (db.exec d (db.exec c tx).1).1 in
            elim (Bool-cases (db.exec c tx).0) [
              | inr f ↦
                  rw (e, f, in_transaction) (inr (refl, inl (λ t a b. db.row-begin_tx t a b s)))
              | inl first ↦ elim (Bool-cases (db.exec d (db.exec c tx).1).0) [
                | inr f ↦
                    rw (e, first, f, in_transaction)
                      (inr (refl, inl (λ t a b. db.row-begin_tx t a b s)))
                | inl second ↦
                    let seen = row_tx-exec_both c d tx s e first second in
                    elim (Bool-cases (db.commit tx2 s').0) [
                      | inl went ↦
                          rw (e, first, second, went, in_transaction)
                            (inl (refl, λ t a b. db.row-commit tx2 s' went t a b ∙ seen t a b))
                      | inr failed ↦
                          rw (e, first, second, failed, in_transaction)
                            (inr (
                              refl,
                              elim (db.row-commit_false tx2 s' failed) [
                                | inl nothing ↦
                                    inl (λ t a b. nothing t a b ∙ db.row-begin_tx t a b s)
                                | inr all ↦ inr (λ t a b. all t a b ∙ seen t a b)
                              ],
                            ))
                    ]
              ]
            ]
      ]

  pub Agrees-same :
      (s s' : db.State) (m : Store) → SameAccounts s s' → SameRows s s' → Agrees s m → Agrees s' m
  Agrees-same s s' m users rows i = record {
    accounts = λ id. users id ∙ i.accounts id;
    following = λ a b. rows following a b ∙ i.following a b;
    followers = λ a b. rows follower b a ∙ i.followers a b;
  }

  pub Agrees-follow :
      (a b : ℕ) (s s' : db.State) (m : Store)
      → (not (a == b) && has_key a m.users && has_key b m.users) ≡ true
      → SameAccounts s s'
      → Written (insert_ignore following a b) (insert_ignore follower b a) s s'
      → Agrees s m
      → Agrees s' (Memory.follow a b m).1
  unfolding Memory.follow
  Agrees-follow a b s s' m may users rows i = record {
    accounts = λ id. ground (arith, users id, i.accounts id);
    following =
        λ c d. ground (arith, rows following c d, i.following c d, (follows-follow a b c d m).1);
    followers =
        λ c d. ground (arith, rows follower d c, i.followers c d, (follows-follow a b c d m).2);
  }

  pub Agrees-unfollow :
      (a b : ℕ) (s s' : db.State) (m : Store)
      → SameAccounts s s'
      → Written (delete_from following a b) (delete_from follower b a) s s'
      → Agrees s m
      → Agrees s' (Memory.unfollow a b m).1
  unfolding Memory.unfollow
  Agrees-unfollow a b s s' m users rows i = record {
    accounts = λ id. ground (arith, users id, i.accounts id);
    following =
        λ c d. ground (arith, rows following c d, i.following c d, (follows-unfollow a b c d m).1);
    followers =
        λ c d. ground (arith, rows follower d c, i.followers c d, (follows-unfollow a b c d m).2);
  }
