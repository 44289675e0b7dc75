-- ===== src/Store/Follows/Ascending.antt =====
-- Increasing lists of ids, and a page of followers in terms of the ids above the cursor.
use mathlib.Core.Path.{ap₂}
use go_shortvideo.Prelude.{
  ℕ, suc, ◌<◌, ◌≤◌, ◌≡◌, refl, sym, ap, ◌∙◌, Bool, true, false, List, [], ◌∷◌, ◌++◌, ltb, leb, ◌==◌,
  arith, inl, inr, Bool-cases, All, keep, All-keep,
}
use go_shortvideo.IdSet.{contains}
use go_shortvideo.Store.Follows as Memory
use go_shortvideo.Store.Follows.{last_of}
use go_shortvideo.Store.Follows.Pages.{Increasing, next_page, followers_page_lem}

-- An increasing list is known by its elements.
below-contains : (x k : ℕ) (xs : List ℕ) → All (λ y. x < y) xs → k ≤ x → contains k xs ≡ false
unfolding contains
below-contains x k [] h le = refl
below-contains x k (y ∷ ys) h le = ground (arith, h.0, below-contains x k ys h.1 le)

contains_head : (x : ℕ) (xs : List ℕ) → contains x (x ∷ xs) ≡ true
unfolding contains
contains_head x xs = ground arith

tail_same :
    (x y k : ℕ) (xs ys : List ℕ)
    → x ≡ y
    → All (λ z. x < z) xs
    → All (λ z. y < z) ys
    → contains k (x ∷ xs) ≡ contains k (y ∷ ys)
    → contains k xs ≡ contains k ys
unfolding contains
tail_same x y k xs ys heads i j same = elim (Bool-cases (x == k)) [
  | inl here ↦ below-contains x k xs i (ground arith) ∙ sym (below-contains y k ys j (ground arith))
  | inr other ↦ ground arith
]

pub Increasing-same :
    (xs ys : List ℕ)
    → Increasing xs
    → Increasing ys
    → ((k : ℕ) → contains k xs ≡ contains k ys)
    → xs ≡ ys
unfolding contains
Increasing-same [] [] i j same = refl
Increasing-same [] (y ∷ ys) i j same = absurd (ground (arith, same y, contains_head y ys))
Increasing-same (x ∷ xs) [] i j same = absurd (ground (arith, same x, contains_head x xs))
Increasing-same (x ∷ xs) (y ∷ ys) i j same = elim (Bool-cases (ltb x y)) [
  | inl less ↦
      absurd (ground (arith, same x, contains_head x xs, below-contains y x ys j.0 (ground arith)))
  | inr h ↦ elim (Bool-cases (ltb y x)) [
    | inl more ↦
        absurd
          (ground (arith, same y, contains_head y ys, below-contains x y xs i.0 (ground arith)))
    | inr k ↦
        let heads : x ≡ y = ground arith in
        ap₂ (λ (z : ℕ) (l : List ℕ). z ∷ l) heads
          (Increasing-same xs ys i.1 j.1 (λ n. tail_same x y n xs ys heads i.0 j.0 (same n)))
  ]
]

-- The ids up to the cursor, and those above it.
keep_none : (c x : ℕ) (xs : List ℕ) → All (λ y. x < y) xs → c < x → keep (λ y. leb y c) xs ≡ []
keep_none c x [] h lt_x = refl
keep_none c x (y ∷ ys) h lt_x = ground (arith, h.0, keep_none c x ys h.1 lt_x)

keep_every : (c x : ℕ) (xs : List ℕ) → All (λ y. x < y) xs → c < x → keep (λ y. ltb c y) xs ≡ xs
keep_every c x [] h lt_x = refl
keep_every c x (y ∷ ys) h lt_x = ground (arith, h.0, keep_every c x ys h.1 lt_x)

split_at :
    (c : ℕ) (xs : List ℕ) → Increasing xs → keep (λ x. leb x c) xs ++ keep (λ x. ltb c x) xs ≡ xs
split_at c [] i = refl
split_at c (x ∷ xs) i = elim (Bool-cases (leb x c)) [
  | inl under ↦ ground (arith, split_at c xs i.1)
  | inr over ↦
      ground (arith, keep_none c x xs i.0 (ground arith), keep_every c x xs i.0 (ground arith))
]

pub keep_positive : (xs : List ℕ) → contains 0 xs ≡ false → keep (λ x. ltb 0 x) xs ≡ xs
unfolding contains
keep_positive [] h = refl
keep_positive (x ∷ xs) h = ground (arith, keep_positive xs (ground arith))

All-low : (c : ℕ) (xs : List ℕ) → All (λ x. x ≤ c) (keep (λ x. leb x c) xs)
All-low c [] = tt
All-low c (x ∷ xs) = elim (Bool-cases (leb x c)) [
  | inl under ↦ rw under (ground arith, All-low c xs)
  | inr over ↦ rw over (All-low c xs)
]

All-high : (c : ℕ) (xs : List ℕ) → All (λ x. c < x) (keep (λ x. ltb c x) xs)
All-high c [] = tt
All-high c (x ∷ xs) = elim (Bool-cases (ltb c x)) [
  | inl over ↦ rw over (ground arith, All-high c xs)
  | inr under ↦ rw under (All-high c xs)
]

keep_low_zero : (xs : List ℕ) → contains 0 xs ≡ false → keep (λ x. leb x 0) xs ≡ []
unfolding contains
keep_low_zero [] h = refl
keep_low_zero (x ∷ xs) h = ground (arith, keep_low_zero xs (ground arith))

pub Increasing-keep : (p : ℕ → Bool) (xs : List ℕ) → Increasing xs → Increasing (keep p xs)
Increasing-keep p [] i = tt
Increasing-keep p (x ∷ xs) i = elim (Bool-cases (p x)) [
  | inl e ↦ rw e (All-keep (λ y. x < y) p xs i.0, Increasing-keep p xs i.1)
  | inr e ↦ rw e (Increasing-keep p xs i.1)
]

-- One call on sorted ids.
pub followers_page-keep :
    (cursor n : ℕ) (xs : List ℕ)
    → Increasing xs
    → contains 0 xs ≡ false
    → Memory.followers_page xs cursor (suc n) ≡ next_page n (keep (λ x. ltb cursor x) xs)
followers_page-keep cursor n xs i positive =
    ap (λ (l : List ℕ). Memory.followers_page l cursor (suc n)) (sym (split_at cursor xs i))
    ∙ followers_page_lem (keep (λ x. leb x cursor) xs) (keep (λ x. ltb cursor x) xs) cursor n
        (All-low cursor xs) (All-high cursor xs)
        (λ zero. ap (λ (c : ℕ). keep (λ x. leb x c) xs) zero ∙ keep_low_zero xs positive)
