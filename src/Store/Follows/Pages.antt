-- ===== src/Store/Follows/Pages.antt =====
-- Pages of followers: what one call of `ListFollowers` returns, in terms of the sorted set.
use mathlib.Core.Path.{ap₂}
use go_shortvideo.Prelude.{
  ℕ, zero, suc, ◌+◌, ◌-◌, ◌≤◌, ◌<◌, ◌≡◌, refl, sym, ◌∙◌, Option, some, true, false, arith, ◌∷◌, [],
  List, ◌++◌, Bool, Bool-cases, inl, inr, All, length, length-append, ltb, leb, take, drop,
  take_of_length-le, if◌then◌else◌, ap,
}
use go_shortvideo.IdSet.{contains, Distinct}
use go_shortvideo.Sort.{
  Ordered, IsOrder, sort_slice, sort_slice-perm, sort_slice-Ordered, perm_Distinct,
}
use go_shortvideo.Store.Follows.{
  start_after, last_of, with_next, page_between, page_at, followers_page,
}

abbrev pub lt : ℕ → ℕ → Bool
lt a b = ltb a b

pub lt-IsOrder : IsOrder lt
lt-IsOrder = record { asym = λ a b h. ground arith; ge_trans = λ a b c h k. ground arith }

-- Strictly increasing.
abbrev pub Increasing : List ℕ → Type 0
Increasing [] = Unit
Increasing (x ∷ xs) = All (λ y. x < y) xs × Increasing xs

above :
    (x : ℕ) (xs : List ℕ)
    → All (λ y. ltb y x ≡ false) xs
    → contains x xs ≡ false
    → All (λ y. x < y) xs
unfolding contains
above x [] h d = tt
above x (y ∷ ys) h d = (ground (arith, h.0), above x ys h.1 (ground arith))

Ordered-Increasing : (xs : List ℕ) → Ordered lt xs → Distinct xs → Increasing xs
Ordered-Increasing [] o d = tt
Ordered-Increasing (x ∷ xs) o d = (above x xs o.0 d.0, Ordered-Increasing xs o.1 d.1)

-- A set without doubles is sorted into a strictly increasing list.
pub sort_slice-Increasing : (xs : List ℕ) → Distinct xs → Increasing (sort_slice lt xs)
sort_slice-Increasing xs d =
    Ordered-Increasing (sort_slice lt xs) (sort_slice-Ordered lt-IsOrder xs)
      (perm_Distinct (sort_slice-perm lt xs) d)

-- The loop that looks for `start` stops behind the ids up to the cursor.
start_after_lem :
    (cursor : ℕ) (front rest : List ℕ)
    → All (λ x. x ≤ cursor) front
    → All (λ x. cursor < x) rest
    → start_after cursor (front ++ rest) ≡ length front
unfolding start_after
start_after_lem cursor [] [] h k = refl
start_after_lem cursor [] (x ∷ rest) h k = ground (arith, k.0)
start_after_lem cursor (x ∷ front) rest h k =
    ground (arith, h.0, start_after_lem cursor front rest h.1 k)

drop-append : (front rest : List ℕ) → drop (length front) (front ++ rest) ≡ rest
drop-append [] rest = refl
drop-append (x ∷ front) rest = drop-append front rest

-- The last id of a page that is not empty, and its place in an increasing list.
pub last_of-take :
    (n : ℕ) (xs : List ℕ)
    → suc n < length xs
    → Increasing xs
    → (x : ℕ) × (last_of (take (suc n) xs) ≡ some x)
      × All (λ y. y ≤ x) (take (suc n) xs)
      × All (λ y. x < y) (drop (suc n) xs)
unfolding last_of
last_of-take n [] h i = absurd (omega arith)
last_of-take zero (x ∷ xs) h i = (x, refl, (omega arith, tt), i.0)
last_of-take (suc n) (x ∷ []) h i = absurd (omega arith)
last_of-take (suc n) (x ∷ y ∷ xs) h i =
    let (z, e, low, high) = last_of-take n (y ∷ xs) (omega arith) i.1 in
    (z, e, (omega (arith, low.0, i.0.0), low), high)

-- The first `n + 1` ids of `rest`, with the last of them as the next cursor if more are left.
abbrev pub next_page : ℕ → List ℕ → Option (List ℕ × ℕ)
next_page n rest = with_next (take (suc n) rest) (ltb (suc n) (length rest))

page_between_lem :
    (all rest : List ℕ) (start end n : ℕ)
    → drop start all ≡ rest
    → length all ≡ start + length rest
    → end ≡ (if ltb (length all) (start + suc n) then length all else start + suc n)
    → page_between all start end ≡ next_page n rest
unfolding page_between
page_between_lem all rest start end n d l e = elim (Bool-cases (ltb (length all) (start + suc n))) [
  | inl short ↦
      let width : end - start ≡ length rest = ground arith in
      ap₂ with_next
        (ap₂ take width d
          ∙ take_of_length-le (length rest) rest (omega arith)
          ∙ sym (take_of_length-le (suc n) rest (ground arith)))
        (ground arith)
  | inr long ↦
      let width : end - start ≡ suc n = ground arith in
      ap₂ with_next (ap₂ take width d) (ground arith)
]

page_at_lem :
    (all rest : List ℕ) (start n : ℕ)
    → drop start all ≡ rest
    → length all ≡ start + length rest
    → page_at all start (suc n) ≡ next_page n rest
unfolding page_at with_next
page_at_lem all [] start n d l = ground (arith, l)
page_at_lem all (x ∷ rest) start n d l =
    rw (short) (page_between_lem all (x ∷ rest) start _ n d l refl)
  where
    short : leb (length all) start ≡ false
    short = ground (arith, l)

-- What a call returns when the ids up to the cursor are `front` and the others `rest`.
pub followers_page_lem :
    (front rest : List ℕ) (cursor n : ℕ)
    → All (λ x. x ≤ cursor) front
    → All (λ x. cursor < x) rest
    → (cursor ≡ 0 → front ≡ [])
    → followers_page (front ++ rest) cursor (suc n) ≡ next_page n rest
unfolding followers_page
followers_page_lem front rest cursor n low high first =
    let start : (if ltb 0 cursor then start_after cursor (front ++ rest) else 0) ≡ length front =
      grind (arith, start_after_lem cursor front rest low high, first) in
    ap (λ (k : ℕ). page_at (front ++ rest) k (suc n)) start
    ∙ page_at_lem (front ++ rest) rest (length front) n (drop-append front rest)
        (length-append front rest)

pub next_page_last :
    (n : ℕ) (rest : List ℕ) → ltb (suc n) (length rest) ≡ false → next_page n rest ≡ some (rest, 0)
unfolding with_next
next_page_last n rest h =
    rw h (ap (λ (l : List ℕ). some (l, 0)) (take_of_length-le (suc n) rest (ground arith)))

pub next_page_more :
    (n x : ℕ) (rest : List ℕ)
    → ltb (suc n) (length rest) ≡ true
    → last_of (take (suc n) rest) ≡ some x
    → next_page n rest ≡ some (take (suc n) rest, x)
unfolding with_next
next_page_more n x rest h e = cc

pub All-le_trans : (c x : ℕ) (xs : List ℕ) → c ≤ x → All (λ y. y ≤ c) xs → All (λ y. y ≤ x) xs
All-le_trans c x [] h a = tt
All-le_trans c x (y ∷ ys) h a = (omega arith, All-le_trans c x ys h a.1)

pub drop-Increasing : (n : ℕ) (xs : List ℕ) → Increasing xs → Increasing (drop n xs)
drop-Increasing zero xs i = i
drop-Increasing (suc n) [] i = i
drop-Increasing (suc n) (x ∷ xs) i = drop-Increasing n xs i.1

-- The next cursor lies above the old one.
pub cursor-lt :
    (cursor n x : ℕ) (rest : List ℕ)
    → suc n < length rest
    → All (λ y. cursor < y) rest
    → All (λ y. y ≤ x) (take (suc n) rest)
    → cursor < x
cursor-lt cursor n x [] more high low = absurd (omega arith)
cursor-lt cursor n x (y ∷ rest) more high low = omega (arith, high.0, low.0)
