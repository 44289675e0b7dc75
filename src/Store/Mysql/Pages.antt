-- ===== src/Store/Mysql/Pages.antt =====
-- The lists of a store with a database against those of the store in memory.

use mathlib.Core.List.{Permᴰ}
use go_shortvideo.Prelude.{
  ℕ, zero, suc, ◌+◌, ◌<◌, ◌≡◌, refl, sym, ap, ◌∙◌, true, false, Option, none, some, List, [], ◌∷◌,
  ltb, if◌then◌else◌, arith, inl, inr, Bool-cases, Option-cases, length, take, keep, length-take,
  take_of_length-le,
}
use go_shortvideo.IdSet.{contains}
use go_shortvideo.Store.State.{Store, ids_of}
use go_shortvideo.Sort.{sort_slice, sort_slice-perm, perm_contains}
use go_shortvideo.Store.Follows as Memory
use go_shortvideo.Store.Follows.{last_of}
use go_shortvideo.Store.Follows.Pages.{
  Increasing, lt, sort_slice-Increasing, next_page, next_page_last, next_page_more, last_of-take,
}
use go_shortvideo.Store.Follows.Ascending.{
  Increasing-same, keep_positive, Increasing-keep, followers_page-keep,
}
use go_shortvideo.Store.Invariant.Mirror.{follows, followed_by, Mirrored}
use go_shortvideo.Store.Mysql.{Database, following, follower}
use go_shortvideo.Store.Mysql.Agreement.{Agrees}
use go_shortvideo.Store.Mysql.History.{Call, Explains, Explains-Mirrored, run, run-Explains}
use go_shortvideo.Store.Mysql.Lists.{Queries, at, page_of_ids, list_followees, list_followers}

at-take :
    (i : ℕ) (xs : List ℕ)
    → suc i < length xs
    → at i (take (suc (suc i)) xs) ≡ last_of (take (suc i) xs)
unfolding last_of
at-take i [] h = absurd (omega arith)
at-take zero (x ∷ []) h = absurd (omega arith)
at-take zero (x ∷ y ∷ xs) h = refl
at-take (suc i) (x ∷ []) h = absurd (omega arith)
at-take (suc i) (x ∷ y ∷ xs) h = at-take i (y ∷ xs) (omega arith)

take-take : (n : ℕ) (xs : List ℕ) → take n (take (suc n) xs) ≡ take n xs
take-take zero xs = refl
take-take (suc n) [] = refl
take-take (suc n) (x ∷ xs) = ap (λ (l : List ℕ). x ∷ l) (take-take n xs)

page_of_ids-take :
    (n : ℕ) (rest : List ℕ)
    → Increasing rest
    → page_of_ids (suc n) (take (suc n + 1) rest) ≡ next_page n rest
unfolding page_of_ids
page_of_ids-take n rest i = elim (Bool-cases (ltb (suc n) (length rest))) [
  | inl more ↦
      let (x, last, lower, higher) = last_of-take n rest (ground arith) i in
      let long : ltb (suc n) (length (take (suc (suc n)) rest)) ≡ true =
        ground (arith, length-take (suc (suc n)) rest) in
      ground (
        arith,
        long,
        at-take n rest (ground arith),
        last,
        take-take (suc n) rest,
        next_page_more n x rest more last,
      )
  | inr all ↦
      ground (arith, take_of_length-le (suc (suc n)) rest (ground arith), next_page_last n rest all)
]

module _ (db : Database) (queries : Queries db) where
  rows_of-follower :
      (b : ℕ) (s : db.State) (m : Store)
      → Agrees db s m
      → Mirrored m
      → sort_slice lt (ids_of b m.followers) ≡ queries.rows_of follower b s
  unfolding followed_by
  rows_of-follower b s m i mirrored =
      Increasing-same (sort_slice lt (ids_of b m.followers)) (queries.rows_of follower b s)
        (sort_slice-Increasing _ (mirrored.followers_distinct b))
        (queries.rows_of-Increasing follower b s)
        (λ a.
          perm_contains a (sort_slice-perm lt (ids_of b m.followers))
          ∙ sym (i.followers a b)
          ∙ sym (queries.contains-rows_of follower b a s))

  rows_of-following :
      (a : ℕ) (s : db.State) (m : Store)
      → Agrees db s m
      → Mirrored m
      → sort_slice lt (ids_of a m.following) ≡ queries.rows_of following a s
  unfolding follows
  rows_of-following a s m i mirrored =
      Increasing-same (sort_slice lt (ids_of a m.following)) (queries.rows_of following a s)
        (sort_slice-Increasing _ (mirrored.following_distinct a))
        (queries.rows_of-Increasing following a s)
        (λ b.
          perm_contains b (sort_slice-perm lt (ids_of a m.following))
          ∙ sym (i.following a b)
          ∙ sym (queries.contains-rows_of following a b s))

  -- The followees that the database answers with are those in memory, in some order.
  pub list_followees-Agrees :
      (user : ℕ) (ids : List ℕ) (s : db.State) (m : Store)
      → Agrees db s m
      → Mirrored m
      → list_followees db queries user s ≡ some ids
      → Permᴰ ids (Memory.list_followees user m)
  unfolding list_followees Memory.list_followees
  list_followees-Agrees user ids s m i mirrored answer =
      Permᴰ.trans (queries.select-some following user ids s answer) (
        rw (← rows_of-following user s m i mirrored) (sort_slice-perm lt (ids_of user m.following)))

  abbrev from_query : ℕ → Option ℕ
  from_query cursor = if ltb 0 cursor then some cursor else none

  select_page-take :
      (author cursor limit : ℕ) (ids : List ℕ) (s : db.State)
      → contains 0 (queries.rows_of follower author s) ≡ false
      → queries.select_page follower author (from_query cursor) limit s ≡ some ids
      → ids ≡ take limit (keep (λ x. ltb cursor x) (queries.rows_of follower author s))
  select_page-take author zero limit ids s positive answer =
      queries.select_page-none follower author limit ids s answer
      ∙ ap (take limit) (sym (keep_positive (queries.rows_of follower author s) positive))
  select_page-take author (suc c) limit ids s positive answer =
      queries.select_page-some follower author (suc c) limit ids s (ground (arith, answer))

  -- A page of followers from the database is the page from memory, next cursor included.
  list_followers-Agrees :
      (author cursor n : ℕ) (r : Option (List ℕ × ℕ)) (s : db.State) (m : Store)
      → Agrees db s m
      → Mirrored m
      → list_followers db queries author cursor (suc n) s ≡ some r
      → r ≡ Memory.list_followers author cursor (suc n) m
  unfolding list_followers Memory.list_followers
  list_followers-Agrees author cursor n r s m i mirrored answer =
      let rows = queries.rows_of follower author s in
      let sorted = rows_of-follower author s m i mirrored in
      let rising = queries.rows_of-Increasing follower author s in
      let positive : contains 0 rows ≡ false =
        ap (contains 0) (sym sorted)
        ∙ perm_contains 0 (sort_slice-perm lt (ids_of author m.followers))
        ∙ mirrored.positive author in
      let above : List ℕ = keep (λ x. ltb cursor x) rows in
      let page : Memory.list_followers author cursor (suc n) m ≡ next_page n above =
        ap (λ (l : List ℕ). Memory.followers_page l cursor (suc n)) sorted
        ∙ followers_page-keep cursor n rows rising positive in
      elim (Option-cases (queries.select_page follower author (from_query cursor) (suc n + 1) s)) [
        | inl failed ↦ absurd (ground (arith, answer))
        | inr (ids, found) ↦
            let read = select_page-take author cursor (suc n + 1) ids s positive found in
            let is_r : page_of_ids (suc n) ids ≡ r = ground (arith, answer) in
            sym is_r
            ∙ ap (page_of_ids (suc n)) read
            ∙ page_of_ids-take n above (Increasing-keep (λ x. ltb cursor x) rows rising)
            ∙ sym page
      ]

  -- After any history of Follow and Unfollow on a database that started with the accounts and pairs of
  -- a store in memory whose invariants hold, one store in memory explains all the answers, and every
  -- page of followers with a positive limit that the database answers is the page of this store, next
  -- cursor included.
  pub list_followers-run :
      (cs : List Call) (s : db.State) (m : Store)
      → Agrees db s m
      → Mirrored m
      → (m' : Store) × (Explains cs (run db cs s).0 m m'
          × ((author cursor n : ℕ) (r : Option (List ℕ × ℕ))
              → list_followers db queries author cursor (suc n) (run db cs s).1 ≡ some r
              → r ≡ Memory.list_followers author cursor (suc n) m'))
  list_followers-run cs s m i mirrored =
      let (m', (e, j)) = run-Explains db cs s m i in
      (
        m',
        (
          e,
          λ author cursor n r answer.
              list_followers-Agrees author cursor n r (run db cs s).1 m' j
                (Explains-Mirrored cs (run db cs s).0 m m' e mirrored) answer,
        ),
      )
