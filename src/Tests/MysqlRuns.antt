-- ===== src/Tests/MysqlRuns.antt =====
-- The store with a database over tables in memory whose first commits fail.
use mathlib.Core.List.Permᴰ
use mathlib.Core.Option.{some-injective}
use go_shortvideo.Prelude.{
  ℕ, zero, suc, ◌≡◌, refl, Bool, true, false, ◌&&◌, Option, none, some, List, [], ◌∷◌, ◌==◌, ltb,
  arith, if◌then◌else◌, take, keep, length, inl,
}
use go_shortvideo.Dict.{Dict, lookup}
use go_shortvideo.IdSet.{
  contains, add, remove, Distinct, contains-add, contains-remove, add-Distinct, remove-Distinct,
}
use go_shortvideo.Sort.{sort_slice, sort_slice-perm, perm_contains, place}
use go_shortvideo.Model.{User}
use go_shortvideo.Store.State.{Store, new, ok, err, not_found}
use go_shortvideo.Store.Follows as Memory
use go_shortvideo.Store.Follows.Pages.{lt, sort_slice-Increasing}
use go_shortvideo.Store.Invariant.Mirror.{Mirrored, follows, followed_by}
use go_shortvideo.Store.Mysql.{
  Database, Table, following, follower, Statement, insert_ignore, delete_from, same_table, effect,
  follow, follow_as, unfollow, get_user, in_transaction,
}
use go_shortvideo.Store.Mysql.Agreement.{Agrees}
use go_shortvideo.Store.Mysql.History.{Call, Explains, run, run-Explains, row-run}
use go_shortvideo.Store.Mysql.Lists.{Queries, list_followers, page_of_ids}
use go_shortvideo.Relation.MysqlRepo as RelationRepo
use go_shortvideo.Relation.MysqlRepo.{Autocommit}
use go_shortvideo.Store.Mysql.Pages.{list_followers-run}

record Tables : Type 0 where
  rows : Table → ℕ → List ℕ
  distinct : (t : Table) (a : ℕ) → Distinct (rows t a)
  failures : ℕ

abbrev person : ℕ → User
person id = record { id = id; username = ""; password_hash = ""; created_at = 0 }

abbrev people : Dict User
people = (1, person 1) ∷ (2, person 2) ∷ (3, person 3) ∷ []

abbrev rows_after : Statement → (Table → ℕ → List ℕ) → Table → ℕ → List ℕ
rows_after (insert_ignore u c d) rows t a =
    if same_table u t && c == a then add d (rows t a) else rows t a
rows_after (delete_from u c d) rows t a =
    if same_table u t && c == a then remove d (rows t a) else rows t a

rows_after-Distinct :
    (c : Statement) (rows : Table → ℕ → List ℕ)
    → ((t : Table) (a : ℕ) → Distinct (rows t a))
    → (t : Table) (a : ℕ) → Distinct (rows_after c rows t a)
rows_after-Distinct (insert_ignore u c d) rows h t a =
    ground (arith, h t a, add-Distinct d (rows t a) (h t a))
rows_after-Distinct (delete_from u c d) rows h t a =
    ground (arith, h t a, remove-Distinct d (rows t a) (h t a))

abbrev write : Statement → Tables → Tables
write c s = record s {
  rows = rows_after c s.rows;
  distinct = rows_after-Distinct c s.rows s.distinct;
}

-- A commit fails while there are failures left, and is then not done.
abbrev commit_tables : Tables → Tables → Bool × Tables
commit_tables tx s = elim s.failures [
  | zero ↦ (true, tx)
  | suc n ↦ (false, record s { failures = n })
]

row-write :
    (c : Statement) (t : Table) (a b : ℕ) (s : Tables)
    → contains b ((write c s).rows t a) ≡ effect c t a b (contains b (s.rows t a))
row-write (insert_ignore u c d) t a b s = ground (arith, contains-add d b (s.rows t a))
row-write (delete_from u c d) t a b s = ground (arith, contains-remove d b (s.rows t a))

abbrev mysql : Database
mysql = record {
  State = Tables;
  Tx = Tables;
  row = λ t a b s. contains b (s.rows t a);
  row_tx = λ t a b s. contains b (s.rows t a);
  account = λ id s. lookup id people;
  query_user = λ id s. (some (lookup id people), s);
  begin_tx = λ s. (some s, s);
  exec = λ c s. (true, write c s);
  commit = commit_tables;
  query_user-some = λ id o s e. ground arith;
  row-query_user = λ id t a b s. refl;
  account-query_user = λ id j s. refl;
  row-begin_tx = λ t a b s. refl;
  account-begin_tx = λ j s. refl;
  row_tx-begin_tx = λ tx t a b s e. ground arith;
  row_tx-exec = λ c t a b tx e. row-write c t a b tx;
  row-commit = λ tx s e t a b. ground arith;
  row-commit_false = λ tx s e. inl (λ t a b. ground arith);
  account-commit = λ j tx s. refl;
}

sorted_rows :
    (t : Table) (a b : ℕ) (s : Tables)
    → contains b (sort_slice lt (s.rows t a)) ≡ contains b (s.rows t a)
sorted_rows t a b s = perm_contains b (sort_slice-perm lt (s.rows t a))

abbrev queries : Queries mysql
queries = record {
  rows_of = λ t a s. sort_slice lt (s.rows t a);
  count_rows = λ t a s. some (length (sort_slice lt (s.rows t a)));
  select = λ t a s. some (sort_slice lt (s.rows t a));
  select_page = λ t a above limit s. some (
      take limit (elim above [
        | none ↦ sort_slice lt (s.rows t a)
        | some c ↦ keep (λ b. ltb c b) (sort_slice lt (s.rows t a))
      ]));
  rows_of-Increasing = λ t a s. sort_slice-Increasing (s.rows t a) (s.distinct t a);
  contains-rows_of = λ t a b s. sorted_rows t a b s;
  count_rows-some = λ t a n s e. ground arith;
  select-some = λ t a ids s e. rw (some-injective _ _ e) (Permᴰ.refl ids);
  select_page-none = λ t a limit ids s e. ground arith;
  select_page-some = λ t a c limit ids s e. ground arith;
}

-- Tables without rows, of which `n` commits fail.
abbrev failing : ℕ → Tables
failing n = record { rows = λ t a. []; distinct = λ t a. tt; failures = n }

abbrev memory : Store
memory = record new { users = people }

memory-Mirrored : Mirrored memory
unfolding new lookup contains
memory-Mirrored = record {
  same = λ a b. refl;
  following_distinct = λ a. tt;
  followers_distinct = λ a. tt;
  irreflexive = λ a. refl;
  no_zero = refl;
  positive = λ a. refl;
}

failing-Agrees : (n : ℕ) → Agrees mysql (failing n) memory
unfolding new lookup contains follows followed_by
failing-Agrees n = record {
  accounts = λ id. refl;
  following = λ a b. refl;
  followers = λ a b. refl;
}

-- The first call fails; an account that is missing cannot be followed.
abbrev calls : List Call
calls =
    Call.follow 1 2
    ∷ Call.follow 3 2
    ∷ Call.follow 1 2
    ∷ Call.follow 1 9
    ∷ Call.unfollow 3 2
    ∷ Call.follow 3 2
    ∷ []

run-Explains_example :
    (m' : Store) × (Explains calls (run mysql calls (failing 1)).0 memory m'
      × Agrees mysql (run mysql calls (failing 1)).1 m')
run-Explains_example = run-Explains mysql calls (failing 1) memory (failing-Agrees 1)

row-run_example :
    mysql.row following 1 2 (run mysql calls (failing 1)).1
    ≡ mysql.row follower 2 1 (run mysql calls (failing 1)).1
row-run_example = row-run mysql calls (failing 1) memory (failing-Agrees 1) memory-Mirrored 1 2

list_followers-run_example :
    (m' : Store) × (Explains calls (run mysql calls (failing 1)).0 memory m'
      × ((author cursor n : ℕ) (r : Option (List ℕ × ℕ))
          → list_followers mysql queries author cursor (suc n) (run mysql calls (failing 1)).1
            ≡ some r
          → r ≡ Memory.list_followers author cursor (suc n) m'))
list_followers-run_example =
    list_followers-run mysql queries calls (failing 1) memory (failing-Agrees 1) memory-Mirrored

-- The answers, and two pages of the followers of account 2.
calls-answers :
    (run mysql calls (failing 1)).0
    ≡ none ∷ some (ok tt) ∷ some (ok tt) ∷ some (err not_found) ∷ some (ok tt) ∷ some (ok tt) ∷ []
unfolding run follow follow_as get_user in_transaction unfollow lookup
calls-answers = refl

first_page :
    list_followers mysql queries 2 0 1 (run mysql calls (failing 1)).1 ≡ some (some (1 ∷ [], 1))
unfolding run follow follow_as get_user in_transaction unfollow lookup list_followers page_of_ids
    sort_slice place add remove contains
first_page = refl

last_page :
    list_followers mysql queries 2 1 1 (run mysql calls (failing 1)).1 ≡ some (some (3 ∷ [], 0))
unfolding run follow follow_as get_user in_transaction unfollow lookup list_followers page_of_ids
    sort_slice place add remove contains
last_page = refl

-- Statements that go through until `n` are left, of which none does.
abbrev exec_tables : Statement → Tables → Bool × Tables
exec_tables c s = elim s.failures [
  | zero ↦ (false, s)
  | suc n ↦ (true, record (write c s) { failures = n })
]

row-exec_tables :
    (c : Statement) (s : Tables)
    → (exec_tables c s).0 ≡ true
    → (t : Table) (a b : ℕ)
    → contains b ((exec_tables c s).1.rows t a) ≡ effect c t a b (contains b (s.rows t a))
row-exec_tables c s e t a b = ground (arith, row-write c t a b s)

abbrev each_alone : Autocommit mysql
each_alone = record {
  exec = exec_tables;
  row-exec = λ c s e t a b. row-exec_tables c s e t a b;
  row-exec_false = λ c s e. inl (λ t a b. ground arith);
}

-- The repository whose second statement fails is left with tables that disagree.
half_followed :
    let (went, s) = RelationRepo.follow mysql each_alone 1 2 (failing 1) in
    (went ≡ false) × (mysql.row following 1 2 s ≡ true) × (mysql.row follower 2 1 s ≡ false)
unfolding RelationRepo.follow RelationRepo.in_turn contains add
half_followed = (refl, refl, refl)
