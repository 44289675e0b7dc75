-- ===== src/Store/Lists/Walk.antt =====
-- A client that follows the cursor from page to page, while nothing is published.
use go_shortvideo.Prelude.{
  ℕ, zero, suc, ◌≤◌, ◌<◌, ◌≡◌, refl, sym, ap, ◌∙◌, Bool, true, false, not, List, [], ◌∷◌, ◌++◌,
  arith, All, keep, take, drop, length, length-drop, take-append-drop,
}
use mathlib.Core.List.{append_assoc}
use go_shortvideo.Prelude.Int.{ℤ, pos}
use go_shortvideo.Dict.{Dict}
use go_shortvideo.Model.{Video}
use go_shortvideo.Store.Lists.{beyond, page_of, next_cursor}
use go_shortvideo.Store.Lists.Paging.{Decreasing, feed_of, page_of-feed_of}

-- A client stops at an empty page.
abbrev join_pages : List Video → List Video → List Video
join_pages [] rest = []
join_pages (v ∷ vs) rest = (v ∷ vs) ++ rest

-- The pages that a client is given until one is empty, joined.
unfoldable pub walk : (page : ℤ → List Video) → (fuel cursor : ℕ) → List Video
walk page zero cursor = []
walk page (suc fuel) cursor =
    let now = page (pos cursor) in join_pages now (walk page fuel (next_cursor now))

next_cursor-append :
    (a : List Video) (v : Video) (b : List Video) → next_cursor (a ++ v ∷ b) ≡ next_cursor (v ∷ b)
unfolding next_cursor
next_cursor-append [] v b = refl
next_cursor-append (x ∷ []) v b = refl
next_cursor-append (x ∷ y ∷ a) v b = next_cursor-append (y ∷ a) v b

-- In a falling list the cursor of a front part separates it from what follows.
separates :
    (v : Video) (a b : List Video)
    → Decreasing ((v ∷ a) ++ b)
    → All (λ w. next_cursor (v ∷ a) ≤ w.id) (v ∷ a) × All (λ w. w.id < next_cursor (v ∷ a)) b
unfolding next_cursor
separates v [] b d = ((omega arith, tt), d.0)
separates v (w ∷ a) b d =
    let (low, high) = separates w a b d.1 in ((omega (arith, d.0.0, low.0), low), high)

keep_none :
    (p : Video → Bool) (a b : List Video) → All (λ v. p v ≡ false) a → keep p (a ++ b) ≡ keep p b
keep_none p [] b h = refl
keep_none p (v ∷ a) b h = ground (arith, h.0, keep_none p a b h.1)

keep-All : (p : Video → Bool) (b : List Video) → All (λ v. p v ≡ true) b → keep p b ≡ b
keep-All p [] h = refl
keep-All p (v ∷ b) h = ground (arith, h.0, keep-All p b h.1)

abbrev under : ℕ → Video → Bool
under c v = not (beyond (pos c) v.id)

under-false :
    (c : ℕ) (a : List Video) → 0 < c → All (λ w. c ≤ w.id) a → All (λ w. under c w ≡ false) a
unfolding beyond
under-false zero a h k = elim h [ ]
under-false (suc c) [] h k = tt
under-false (suc c) (v ∷ a) h k = (ground (arith, k.0), under-false (suc c) a h k.1)

under-true : (c : ℕ) (a : List Video) → All (λ w. w.id < c) a → All (λ w. under c w ≡ true) a
unfolding beyond
under-true zero [] k = tt
under-true zero (v ∷ a) k = absurd (omega (arith, k.0))
under-true (suc c) [] k = tt
under-true (suc c) (v ∷ a) k = (ground (arith, k.0), under-true (suc c) a k.1)

under_zero : (a : List Video) → All (λ w. under 0 w ≡ true) a
unfolding beyond
under_zero [] = tt
under_zero (v ∷ a) = (refl, under_zero a)

next_cursor_pos :
    (v : Video) (vs : List Video) → All (λ w. 0 < w.id) (v ∷ vs) → 0 < next_cursor (v ∷ vs)
unfolding next_cursor
next_cursor_pos v [] p = p.0
next_cursor_pos v (w ∷ vs) p = next_cursor_pos w vs p.1

All-front : (P : Video → Type 0) (a b : List Video) → All P (a ++ b) → All P a
All-front P [] b h = tt
All-front P (v ∷ a) b h = (h.0, All-front P a b h.1)

-- What lies below the cursor of a front part is the rest.
keep_below :
    (front rest : List Video)
    → Decreasing (front ++ rest)
    → All (λ v. 0 < v.id) (front ++ rest)
    → keep (under (next_cursor front)) (front ++ rest) ≡ rest
unfolding next_cursor
keep_below [] rest d p = keep-All (under 0) rest (under_zero rest)
keep_below (v ∷ front) rest d p =
    let (low, high) = separates v front rest d in
    keep_none (under (next_cursor (v ∷ front))) (v ∷ front) rest (
      under-false (next_cursor (v ∷ front)) (v ∷ front)
        (next_cursor_pos v front (All-front (λ w. 0 < w.id) (v ∷ front) rest p)) low)
    ∙ keep-All (under (next_cursor (v ∷ front))) rest
        (under-true (next_cursor (v ∷ front)) rest high)

module _ (wanted : Video → Bool) (n : ℕ) (m : Dict Video) (falling : Decreasing (feed_of wanted m))
    (positive : All (λ v. 0 < v.id) (feed_of wanted m)) where
  page_lem :
      (front rest : List Video)
      → front ++ rest ≡ feed_of wanted m
      → page_of wanted (pos (next_cursor front)) (suc n) m ≡ take (suc n) rest
  page_lem front rest e =
      page_of-feed_of wanted (pos (next_cursor front)) (suc n) m
      ∙ ap (take (suc n)) (
          ap (keep (under (next_cursor front))) (sym e)
          ∙ keep_below front rest (rw e falling) (rw e positive))

  pub walk_lem :
      (fuel : ℕ) (front rest : List Video)
      → front ++ rest ≡ feed_of wanted m
      → length rest < fuel
      → walk (λ c. page_of wanted c (suc n) m) fuel (next_cursor front) ≡ rest
  unfolding walk
  walk_lem zero front rest e h = elim h [ ]
  walk_lem (suc fuel) front [] e h = rw (page_lem front [] e)
  walk_lem (suc fuel) front (v ∷ rest) e h =
      let shown = v ∷ take n rest in
      let left = drop n rest in
      let both : (front ++ shown) ++ left ≡ feed_of wanted m =
        append_assoc front shown left
        ∙ ap (λ (l : List Video). front ++ v ∷ l) (take-append-drop n rest)
        ∙ e in
      let ih = walk_lem fuel (front ++ shown) left both (omega (arith, length-drop n rest)) in
      let same = next_cursor-append front v (take n rest) in
      rw (page_lem front (v ∷ rest) e) (
        ap (λ (c : ℕ). shown ++ walk (λ c. page_of wanted c (suc n) m) fuel c) (sym same)
        ∙ ap (λ (l : List Video). shown ++ l) ih
        ∙ ap (◌∷◌ v) (take-append-drop n rest))
