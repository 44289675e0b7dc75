-- ===== src/IdSet.antt =====
-- Go's `map[int64]struct{}` as a list of ids in some iteration order.
use go_shortvideo.Prelude.{
  ℕ, suc, ◌≡◌, refl, Bool, true, false, List, [], ◌∷◌, arith, ◌==◌, if◌then◌else◌, length,
}

unfoldable pub contains : ℕ → List ℕ → Bool
contains k [] = false
contains k (x ∷ xs) = if x == k then true else contains k xs

-- `set[k] = struct{}{}`
unfoldable pub add : ℕ → List ℕ → List ℕ
add k xs = if contains k xs then xs else k ∷ xs

-- `delete(set, k)`
unfoldable pub remove : ℕ → List ℕ → List ℕ
remove k [] = []
remove k (x ∷ xs) = let rest = remove k xs in if x == k then rest else x ∷ rest

-- Every key of a Go map stands in it once.
abbrev pub Distinct : List ℕ → Type 0
Distinct [] = Unit
Distinct (x ∷ xs) = (contains x xs ≡ false) × Distinct xs

pub contains-add :
    (k j : ℕ) (xs : List ℕ) → contains j (add k xs) ≡ (if k == j then true else contains j xs)
unfolding contains add
contains-add k j xs = ground arith

pub contains-remove :
    (k j : ℕ) (xs : List ℕ) → contains j (remove k xs) ≡ (if k == j then false else contains j xs)
unfolding contains remove
contains-remove k j [] = ground arith
contains-remove k j (x ∷ xs) = ground (arith, contains-remove k j xs)

pub add-Distinct : (k : ℕ) (xs : List ℕ) → Distinct xs → Distinct (add k xs)
unfolding add
add-Distinct k xs h = ground arith

pub remove-Distinct : (k : ℕ) (xs : List ℕ) → Distinct xs → Distinct (remove k xs)
unfolding remove
remove-Distinct k [] h = tt
remove-Distinct k (x ∷ xs) h = ground (arith, remove-Distinct k xs h.1, contains-remove k x xs)

pub length-add :
    (k : ℕ) (xs : List ℕ)
    → length (add k xs) ≡ (if contains k xs then length xs else suc (length xs))
unfolding add
length-add k xs = ground arith

remove_absent : (k : ℕ) (xs : List ℕ) → contains k xs ≡ false → remove k xs ≡ xs
unfolding contains remove
remove_absent k [] h = refl
remove_absent k (x ∷ xs) h = ground (arith, remove_absent k xs)

pub length-remove :
    (k : ℕ) (xs : List ℕ)
    → Distinct xs
    → (if contains k xs then suc (length (remove k xs)) else length (remove k xs)) ≡ length xs
unfolding contains remove
length-remove k [] h = refl
length-remove k (x ∷ xs) h = ground (arith, length-remove k xs h.1, remove_absent k xs)
