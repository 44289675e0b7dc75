-- ===== src/Tests/AccountRuns.antt =====
-- The accounts of a store with a database, over a table of names in memory.
use text.Mathlib.Text.{◌==◌ as str_eq}
use text.Mathlib.TextEquality.{eq_iff}
use text.Mathlib.TextPositions.{eq_refl}
use go_shortvideo.Prelude.{
  ℕ, suc, ◌≡◌, refl, ap, String, false, Option, none, some, List, [], ◌∷◌, arith, if◌then◌else◌,
  length, inl, inr, Option-cases,
}
use go_shortvideo.Model.{User}
use go_shortvideo.TextDict.{lookup, insert, lookup-insert}
use go_shortvideo.Store.Mysql.{Database}
use go_shortvideo.Store.Mysql.Accounts.{Accounts, Later, register, login}

-- No table of pairs: no transaction begins.
abbrev names_only : Database
names_only = record {
  State = List (String × User);
  Tx = Unit;
  row = λ t a b s. false;
  row_tx = λ t a b tx. false;
  account = λ id s. none;
  query_user = λ id s. (none, s);
  begin_tx = λ s. (none, s);
  exec = λ c tx. (false, tx);
  commit = λ tx s. (false, s);
  query_user-some = λ id o s e. absurd (ground arith);
  row-query_user = λ id t a b s. refl;
  account-query_user = λ id j s. refl;
  row-begin_tx = λ t a b s. refl;
  account-begin_tx = λ j s. refl;
  row_tx-begin_tx = λ tx t a b s e. refl;
  row_tx-exec = λ c t a b tx e. absurd (ground arith);
  row-commit = λ tx s e t a b. refl;
  row-commit_false = λ tx s e. inl (λ t a b. refl);
  account-commit = λ j tx s. refl;
}

abbrev row_of : ℕ → String → String → ℕ → User
row_of id n h ts = record { id = id; username = n; password_hash = h; created_at = ts }

abbrev insert_row : String → String → ℕ → List (String × User) → Option ℕ × List (String × User)
insert_row n h ts s = elim (lookup n s) [
  | some u ↦ (none, s)
  | none ↦ (some (suc (length s)), insert n (row_of (suc (length s)) n h ts) s)
]

insert_row-some :
    (n h : String) (ts id : ℕ) (s : List (String × User))
    → (insert_row n h ts s).0 ≡ some id
    → (lookup n s ≡ none)
      × ((k : String)
          → lookup k (insert_row n h ts s).1
            ≡ (if str_eq n k then some (row_of id n h ts) else lookup k s))
insert_row-some n h ts id s e = elim (Option-cases (lookup n s)) [
  | inr (u, taken) ↦ absurd (ground arith)
  | inl free ↦ (free, λ k. ground (arith, lookup-insert n k (row_of (suc (length s)) n h ts) s))
]

insert_row-none :
    (n h : String) (ts : ℕ) (s : List (String × User))
    → (insert_row n h ts s).0 ≡ none
    → (k : String) → lookup k (insert_row n h ts s).1 ≡ lookup k s
insert_row-none n h ts s e k = elim (Option-cases (lookup n s)) [
  | inr (u, taken) ↦ ground (arith, taken)
  | inl free ↦ absurd (ground arith)
]

abbrev accounts : Accounts names_only
accounts = record {
  same_name = λ n k. str_eq n k;
  named = λ n s. lookup n s;
  query_username = λ n s. (some (lookup n s), s);
  insert_user = insert_row;
  same_name-refl = λ n. eq_refl n;
  query_username-some = λ n o s e. ground arith;
  named-query_username = λ n k s. refl;
  insert_user-some = insert_row-some;
  insert_user-none = λ n h ts s e. inl (insert_row-none n h ts s e);
  named-same = λ n k s e. ap (λ m. lookup m s) ((eq_iff n k).0 e);
}

-- Others register and log in, and the name is tried again.
abbrev later : List Later
later = register 1 101 "ben" "secret8" ∷ login "anna" "wrong" ∷ register 2 102 "anna" "another" ∷ []

abbrev anna : User
anna = row_of 1 "anna" "secret7" 100
