-- ===== src/Sort/Keep.antt =====
-- Sorting commutes with dropping elements.
use go_shortvideo.Prelude.{
  ◌≡◌, refl, Bool, false, List, [], ◌∷◌, arith, if◌then◌else◌, All, All-keep, Bool-cases, inl, inr,
  keep, ◌&&◌,
}
use go_shortvideo.Sort.{Ordered, IsOrder, All-after, place, sort_slice, sort_slice-Ordered}

module _ {ℓ} {A : Type ℓ} where
  pub keep-keep : (p q : A → Bool) (xs : List A) → keep q (keep p xs) ≡ keep (λ x. p x && q x) xs
  keep-keep p q [] = refl
  keep-keep p q (x ∷ xs) = ground (arith, keep-keep p q xs)

  module _ {less : A → A → Bool} (o : IsOrder less) (p : A → Bool) where
    -- In front of elements that it does not come after, an element is placed first.
    place_first : (x : A) (xs : List A) → All (λ y. less y x ≡ false) xs → place less x xs ≡ x ∷ xs
    unfolding place
    place_first x [] h = refl
    place_first x (y ∷ ys) h = rw h.0

    place-keep :
        (x : A) (xs : List A)
        → Ordered less xs
        → keep p (place less x xs) ≡ (if p x then place less x (keep p xs) else keep p xs)
    unfolding place
    place-keep x [] h = refl
    place-keep x (y ∷ ys) h = elim (Bool-cases (less y x)) [
      | inl e ↦ ground (arith, place-keep x ys h.1)
      | inr e ↦
          let first =
            place_first x (keep p (y ∷ ys))
              (All-keep (λ z. less z x ≡ false) p (y ∷ ys) (e, All-after o x y ys e h.0)) in
          ground (arith, first)
    ]

    pub sort_slice-keep : (xs : List A) → sort_slice less (keep p xs) ≡ keep p (sort_slice less xs)
    unfolding sort_slice
    sort_slice-keep [] = refl
    sort_slice-keep (x ∷ xs) =
        let ih = sort_slice-keep xs in
        let there = place-keep x (sort_slice less xs) (sort_slice-Ordered o xs) in
        ground (arith, ih, there)
