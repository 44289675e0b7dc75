-- ===== src/Store/Mysql/Lists.antt =====
-- The lists of followers and followees of a store with a database.
use mathlib.Core.List.{Permᴰ}
use go_shortvideo.Prelude.{
  ℕ, zero, suc, ◌+◌, ◌≡◌, Option, none, some, List, [], ◌∷◌, ltb, if◌then◌else◌, length, take, keep,
}
use go_shortvideo.IdSet.{contains}
use go_shortvideo.Store.Follows.Pages.{Increasing}
use go_shortvideo.Store.Mysql.{Database, Table, following, follower}

-- The queries on a table of pairs: `rows_of` are the second columns of the rows with the first column
-- `a`, in rising order. A query or a scan that fails is `none`.
pub record Queries (db : Database) : Type 0 where
  pub rows_of : Table → (a : ℕ) → db.State → List ℕ
  pub count_rows : Table → (a : ℕ) → db.State → Option ℕ
  pub select : Table → (a : ℕ) → db.State → Option (List ℕ)
  pub select_page : Table → (a : ℕ) → (above : Option ℕ) → (limit : ℕ) → db.State → Option (List ℕ)
  pub rows_of-Increasing : (t : Table) (a : ℕ) (s : db.State) → Increasing (rows_of t a s)
  pub contains-rows_of :
      (t : Table) (a b : ℕ) (s : db.State) → contains b (rows_of t a s) ≡ db.row t a b s
  pub count_rows-some :
      (t : Table) (a n : ℕ) (s : db.State) → count_rows t a s ≡ some n → n ≡ length (rows_of t a s)
  pub select-some :
      (t : Table) (a : ℕ) (ids : List ℕ) (s : db.State)
      → select t a s ≡ some ids
      → Permᴰ ids (rows_of t a s)
  pub select_page-none :
      (t : Table) (a limit : ℕ) (ids : List ℕ) (s : db.State)
      → select_page t a none limit s ≡ some ids
      → ids ≡ take limit (rows_of t a s)
  pub select_page-some :
      (t : Table) (a c limit : ℕ) (ids : List ℕ) (s : db.State)
      → select_page t a (some c) limit s ≡ some ids
      → ids ≡ take limit (keep (λ b. ltb c b) (rows_of t a s))

abbrev pub scanned : Option ℕ → ℕ
scanned none = 0
scanned (some n) = n

abbrev pub at : ℕ → List ℕ → Option ℕ
at i [] = none
at zero (x ∷ xs) = some x
at (suc i) (x ∷ xs) = at i xs

-- The page and its next cursor, of the ids that were read; `none` where the source panics.
unfoldable pub page_of_ids : (limit : ℕ) → List ℕ → Option (List ℕ × ℕ)
page_of_ids limit ids =
    if ltb limit (length ids)
    then elim limit [
      | zero ↦ none
      | suc i ↦ elim (at i ids) [ none ↦ none | some next ↦ some (take (suc i) ids, next) ]
    ]
    else some (ids, 0)

module _ (db : Database) (queries : Queries db) where
  -- The errors are not looked at, and leave a count at 0.
  unfoldable pub follow_stats : ℕ → db.State → ℕ × ℕ
  follow_stats user s =
      (scanned (queries.count_rows following user s), scanned (queries.count_rows follower user s))

  unfoldable pub list_followees : ℕ → db.State → Option (List ℕ)
  list_followees user s = queries.select following user s

  unfoldable pub list_followers :
      (author cursor limit : ℕ) → db.State → Option (Option (List ℕ × ℕ))
  unfolding page_of_ids
  list_followers author cursor limit s =
      let above = if ltb 0 cursor then some cursor else none in
      elim (queries.select_page follower author above (limit + 1) s) [
        | none ↦ none
        | some ids ↦ some (page_of_ids limit ids)
      ]
