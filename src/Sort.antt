-- ===== src/Sort.antt =====
-- Go's `sort.Slice`. What it documents is the interface `Sorter`: the result is a reordering of the
-- input in which no element is less than an earlier one; how ties are ordered is left open.
-- Insertion sort is one such function, and it is the one that the tests run.
pub mod Keep
use mathlib.Core.List.{Permᴰ}
use mathlib.Core.List.Permᴰ
use go_shortvideo.Prelude.{
  ℕ, ◌≡◌, refl, Bool, true, false, List, [], ◌∷◌, arith, if◌then◌else◌, All, length, ap, ◌∙◌,
  Bool-cases, inl, inr, suc,
}
use go_shortvideo.IdSet.{contains, Distinct}

abbrev pub Ordered {ℓ} : {A : Type ℓ} → (A → A → Bool) → List A → Type ℓ
Ordered less [] = Unit
Ordered less (x ∷ xs) = All (λ y. less y x ≡ false) xs × Ordered less xs

pub record Sorter {ℓ} {A : Type ℓ} (less : A → A → Bool) : Type ℓ where
  pub sort : List A → List A
  pub sort-perm : (xs : List A) → Permᴰ (sort xs) xs
  pub sort-Ordered : (xs : List A) → Ordered less (sort xs)

-- What a reordering keeps.
module _ {ℓ} {A : Type ℓ} where
  pub perm_length : {xs ys : List A} → Permᴰ xs ys → length xs ≡ length ys
  perm_length Permᴰ.nil = refl
  perm_length (Permᴰ.cons e p) = ap suc (perm_length p)
  perm_length (Permᴰ.swap e f) = refl
  perm_length (Permᴰ.trans p q) = perm_length p ∙ perm_length q

  pub perm_All {κ} : (P : A → Type κ) {xs ys : List A} → Permᴰ xs ys → All P ys → All P xs
  perm_All P Permᴰ.nil h = tt
  perm_All P (Permᴰ.cons e p) h = (rw e h.0, perm_All P p h.1)
  perm_All P (Permᴰ.swap e f) h = (rw e h.1.0, (rw f h.0, h.1.1))
  perm_All P (Permᴰ.trans p q) h = perm_All P p (perm_All P q h)

pub perm_contains : (k : ℕ) {xs ys : List ℕ} → Permᴰ xs ys → contains k xs ≡ contains k ys
unfolding contains
perm_contains k Permᴰ.nil = refl
perm_contains k (Permᴰ.cons e p) = ground (arith, e, perm_contains k p)
perm_contains k (Permᴰ.swap e f) = ground (arith, e, f)
perm_contains k (Permᴰ.trans p q) = perm_contains k p ∙ perm_contains k q

pub perm_Distinct : {xs ys : List ℕ} → Permᴰ xs ys → Distinct ys → Distinct xs
unfolding contains
perm_Distinct Permᴰ.nil h = tt
perm_Distinct (Permᴰ.cons {a = a} e p) h = (rw e (perm_contains _ p ∙ h.0), perm_Distinct p h.1)
perm_Distinct (Permᴰ.swap {a = a} {b = b} {l = l} e f) h = ground (arith, e, f)
perm_Distinct (Permᴰ.trans p q) h = perm_Distinct p (perm_Distinct q h)

-- Insertion sort, stable.
module _ {ℓ} {A : Type ℓ} (less : A → A → Bool) where
  unfoldable pub place : A → List A → List A
  place x [] = x ∷ []
  place x (y ∷ ys) = let rest = place x ys in if less y x then y ∷ rest else x ∷ y ∷ ys

  unfoldable pub sort_slice : List A → List A
  unfolding place
  sort_slice [] = []
  sort_slice (x ∷ xs) = place x (sort_slice xs)

  place-perm : (x : A) (xs : List A) → Permᴰ (place x xs) (x ∷ xs)
  unfolding place
  place-perm x [] = Permᴰ.refl (x ∷ [])
  place-perm x (y ∷ ys) = elim (Bool-cases (less y x)) [
    | inl e ↦ rw e (Permᴰ.trans (Permᴰ.cons refl (place-perm x ys)) (Permᴰ.swap refl refl))
    | inr e ↦ rw e (Permᴰ.refl (x ∷ y ∷ ys))
  ]

  pub sort_slice-perm : (xs : List A) → Permᴰ (sort_slice xs) xs
  unfolding sort_slice
  sort_slice-perm [] = Permᴰ.nil
  sort_slice-perm (x ∷ xs) =
      Permᴰ.trans (place-perm x (sort_slice xs)) (Permᴰ.cons refl (sort_slice-perm xs))

-- A comparison that `sort.Slice` accepts: a strict weak order.
pub record IsOrder {ℓ} {A : Type ℓ} (less : A → A → Bool) : Type ℓ where
  pub asym : (a b : A) → less a b ≡ true → less b a ≡ false
  pub ge_trans : (a b c : A) → less b a ≡ false → less c b ≡ false → less c a ≡ false

module _ {ℓ} {A : Type ℓ} {less : A → A → Bool} (o : IsOrder less) where
  All-after :
      (x y : A) (ys : List A)
      → less y x ≡ false
      → All (λ z. less z y ≡ false) ys
      → All (λ z. less z x ≡ false) ys
  All-after x y [] h a = tt
  All-after x y (z ∷ zs) h a = (o.ge_trans x y z h a.0, All-after x y zs h a.1)

  place-Ordered : (x : A) (xs : List A) → Ordered less xs → Ordered less (place less x xs)
  unfolding place
  place-Ordered x [] h = (tt, tt)
  place-Ordered x (y ∷ ys) h = elim (Bool-cases (less y x)) [
    | inl e ↦ rw e (
      perm_All (λ z. less z y ≡ false) (place-perm less x ys) (o.asym y x e, h.0),
      place-Ordered x ys h.1,
    )
    | inr e ↦ rw e ((e, All-after x y ys e h.0), h)
  ]

  pub sort_slice-Ordered : (xs : List A) → Ordered less (sort_slice less xs)
  unfolding sort_slice
  sort_slice-Ordered [] = tt
  sort_slice-Ordered (x ∷ xs) = place-Ordered x (sort_slice less xs) (sort_slice-Ordered xs)

  -- Insertion sort keeps what `sort.Slice` promises.
  abbrev pub slice_sorter : Sorter less
  slice_sorter = record {
    sort = sort_slice less;
    sort-perm = sort_slice-perm less;
    sort-Ordered = sort_slice-Ordered;
  }
