-- ===== src/Store/Mysql/History.antt =====
-- Histories of calls on the store with a database, some of which fail on the way.
use go_shortvideo.Prelude.{ℕ, ◌≡◌, sym, ◌∙◌, Option, none, some, List, [], ◌∷◌, inl, inr}
use go_shortvideo.Store.State.{Store, Result}
use go_shortvideo.Store.Follows as Memory
use go_shortvideo.Store.Invariant.Mirror.{
  follows, followed_by, Mirrored, follow-Mirrored, unfollow-Mirrored,
}
use go_shortvideo.Store.Mysql
use go_shortvideo.Store.Mysql.{Database, following, follower}
use go_shortvideo.Store.Mysql.Agreement.{Agrees}
use go_shortvideo.Store.Mysql.Outcomes.{Outcome, Outcome-follow, Outcome-unfollow}

pub data Call : Type 0 where
  follow unfollow : (a b : ℕ) → Call

abbrev pub in_memory : Call → Store → Result (Unit {0}) × Store
in_memory (Call.follow a b) m = Memory.follow a b m
in_memory (Call.unfollow a b) m = Memory.unfollow a b m

-- The answers are those of the store in memory, where a call that was answered with an error of the
-- database (`none`) is left out or takes place.
pub data Explains : List Call → List (Option (Result (Unit {0}))) → Store → Store → Type 0 where
  finished : {m : Store} → Explains [] [] m m
  answered :
      {c : Call} {cs : List Call} {answers : List (Option (Result (Unit {0})))} {m m' : Store}
      → Explains cs answers (in_memory c m).1 m'
      → Explains (c ∷ cs) (some (in_memory c m).0 ∷ answers) m m'
  left_out :
      {c : Call} {cs : List Call} {answers : List (Option (Result (Unit {0})))} {m m' : Store}
      → Explains cs answers m m'
      → Explains (c ∷ cs) (none ∷ answers) m m'
  unheard :
      {c : Call} {cs : List Call} {answers : List (Option (Result (Unit {0})))} {m m' : Store}
      → Explains cs answers (in_memory c m).1 m'
      → Explains (c ∷ cs) (none ∷ answers) m m'

in_memory-Mirrored : (c : Call) (m : Store) → Mirrored m → Mirrored (in_memory c m).1
in_memory-Mirrored (Call.follow a b) m i = follow-Mirrored a b m i
in_memory-Mirrored (Call.unfollow a b) m i = unfollow-Mirrored a b m i

pub Explains-Mirrored :
    (cs : List Call) (answers : List (Option (Result (Unit {0})))) (m m' : Store)
    → Explains cs answers m m'
    → Mirrored m
    → Mirrored m'
Explains-Mirrored cs answers m m' finished i = i
Explains-Mirrored cs answers m m' (answered {c} e) i =
    Explains-Mirrored _ _ _ m' e (in_memory-Mirrored c m i)
Explains-Mirrored cs answers m m' (left_out e) i = Explains-Mirrored _ _ m m' e i
Explains-Mirrored cs answers m m' (unheard {c} e) i =
    Explains-Mirrored _ _ _ m' e (in_memory-Mirrored c m i)

module _ (db : Database) where
  abbrev pub in_database : Call → db.State → Option (Result (Unit {0})) × db.State
  in_database (Call.follow a b) s = Mysql.follow db a b s
  in_database (Call.unfollow a b) s = Mysql.unfollow db a b s

  unfoldable pub run : List Call → db.State → List (Option (Result (Unit {0}))) × db.State
  run [] s = ([], s)
  run (c ∷ cs) s =
      let (answer, s') = in_database c s in
      let (answers, s'') = run cs s' in (answer ∷ answers, s'')

  Outcome-call :
      (c : Call) (s : db.State) (m : Store)
      → Agrees db s m
      → Outcome db m (in_memory c m) (in_database c s)
  Outcome-call (Call.follow a b) s m i = Outcome-follow db a b s m i
  Outcome-call (Call.unfollow a b) s m i = Outcome-unfollow db a b s m i

  -- Calls of Follow and Unfollow on a store with a database, of which any statement, transaction or
  -- commit may fail, are answered as on a store in memory that holds the same accounts and pairs,
  -- where each call that is answered with an error of the database is left out or takes place as a
  -- whole; and both hold the same accounts and pairs afterwards, in both tables.
  pub run-Explains :
      (cs : List Call) (s : db.State) (m : Store)
      → Agrees db s m
      → (m' : Store) × (Explains cs (run cs s).0 m m' × Agrees db (run cs s).1 m')
  unfolding run
  run-Explains [] s m i = (m, (finished, i))
  run-Explains (c ∷ cs) s m i =
      let s' = (in_database c s).1 in
      elim (Outcome-call c s m i) [
        | inl (same, i') ↦
            let (m', (e, j)) = run-Explains cs s' _ i' in (m', (rw same (answered e), j))
        | inr (failed, inl i') ↦
            let (m', (e, j)) = run-Explains cs s' m i' in (m', (rw failed (left_out e), j))
        | inr (failed, inr i') ↦
            let (m', (e, j)) = run-Explains cs s' _ i' in (m', (rw failed (unheard e), j))
      ]

  -- From tables that hold the accounts and pairs of a store in memory whose invariants hold, after any
  -- history of calls, whatever fails on the way, the table of followees and the table of followers
  -- hold the same pairs.
  pub row-run :
      (cs : List Call) (s : db.State) (m : Store)
      → Agrees db s m
      → Mirrored m
      → (a b : ℕ) → db.row following a b (run cs s).1 ≡ db.row follower b a (run cs s).1
  unfolding follows followed_by
  row-run cs s m i mirrored a b =
      let (m', (e, j)) = run-Explains cs s m i in
      j.following a b ∙ (Explains-Mirrored cs _ m m' e mirrored).same a b ∙ sym (j.followers a b)
