-- ===== src/Bytes.antt =====
-- Go's strings as lists of bytes: equality, `map[string]V`, and the functions of package strings that
-- the code uses.
use go_shortvideo.Prelude.{
  ℕ, ◌≡◌, refl, ◌↔◌, Bool, true, false, ◌&&◌, not, Option, none, some, List, [], ◌∷◌, ◌++◌, ◌==◌,
  if◌then◌else◌, arith, Bool-ext,
}

unfoldable pub same : List ℕ → List ℕ → Bool
same [] [] = true
same [] (d ∷ t) = false
same (c ∷ s) [] = false
same (c ∷ s) (d ∷ t) = c == d && same s t

pub same_refl : (s : List ℕ) → same s s ≡ true
unfolding same
same_refl [] = refl
same_refl (c ∷ s) = ground (arith, same_refl s)

pub same→eq : (s t : List ℕ) → same s t ≡ true → s ≡ t
unfolding same
same→eq [] [] h = refl
same→eq [] (d ∷ t) h = ground arith
same→eq (c ∷ s) [] h = ground arith
same→eq (c ∷ s) (d ∷ t) h = ground (arith, same→eq s t)

pub same_iff : (s t : List ℕ) → (same s t ≡ true) ↔ (s ≡ t)
same_iff s t = (same→eq s t, λ e. rw e (same_refl t))

module _ {ℓ} {V : Type ℓ} where
  unfoldable pub lookup : List ℕ → List (List ℕ × V) → Option V
  lookup k [] = none
  lookup k ((j, v) ∷ m) = if same j k then some v else lookup k m

  unfoldable pub insert : List ℕ → V → List (List ℕ × V) → List (List ℕ × V)
  insert k v [] = (k, v) ∷ []
  insert k v ((j, w) ∷ m) = if same j k then (k, v) ∷ m else (j, w) ∷ insert k v m

  unfoldable pub delete : List ℕ → List (List ℕ × V) → List (List ℕ × V)
  delete k [] = []
  delete k ((j, w) ∷ m) = let rest = delete k m in if same j k then rest else (j, w) ∷ rest

  pub lookup-insert :
      (k j : List ℕ) (v : V) (m : List (List ℕ × V))
      → lookup j (insert k v m) ≡ (if same k j then some v else lookup j m)
  unfolding lookup insert
  lookup-insert k j v [] = refl
  lookup-insert k j v ((i, w) ∷ m) =
      ground (arith, same_iff k j, same_iff i k, same_iff i j, lookup-insert k j v m)

-- `strings.Join(parts, sep)` for a separator of one byte
unfoldable pub join : ℕ → List (List ℕ) → List ℕ
join sep [] = []
join sep (s ∷ []) = s
join sep (s ∷ t ∷ rest) = s ++ sep ∷ join sep (t ∷ rest)

-- `strings.TrimRight(s, c)` for a cutset of one byte
unfoldable pub trim_right : ℕ → List ℕ → List ℕ
trim_right c [] = []
trim_right c (d ∷ s) = elim (trim_right c s) [
  | [] ↦ if c == d then [] else d ∷ []
  | e ∷ t ↦ d ∷ e ∷ t
]

abbrev pub lacks : ℕ → List ℕ → Bool
lacks c [] = true
lacks c (d ∷ s) = not (c == d) && lacks c s

-- A text without the separator is read off the front.
pub same-front :
    (sep : ℕ) (a b s t : List ℕ)
    → lacks sep a ≡ true
    → lacks sep b ≡ true
    → same (a ++ sep ∷ s) (b ++ sep ∷ t) ≡ (same a b && same s t)
unfolding same
same-front sep [] [] s t la lb = ground arith
same-front sep [] (d ∷ b) s t la lb = ground arith
same-front sep (c ∷ a) [] s t la lb = ground arith
same-front sep (c ∷ a) (d ∷ b) s t la lb = ground (arith, same-front sep a b s t)

lacks-not : (sep : ℕ) (s t : List ℕ) → lacks sep (s ++ sep ∷ t) ≡ false
lacks-not sep [] t = ground arith
lacks-not sep (c ∷ s) t = ground (arith, lacks-not sep s t)

-- A text without the separator is read off the back.
split_last_unique :
    (sep : ℕ) (a b s t : List ℕ)
    → lacks sep s ≡ true
    → lacks sep t ≡ true
    → (a ++ sep ∷ s) ≡ (b ++ sep ∷ t)
    → (a ≡ b) × (s ≡ t)
split_last_unique sep [] [] s t ls lt h = ground arith
split_last_unique sep [] (d ∷ b) s t ls lt h = absurd (ground (arith, lacks-not sep b t))
split_last_unique sep (c ∷ a) [] s t ls lt h = absurd (ground (arith, lacks-not sep a s))
split_last_unique sep (c ∷ a) (d ∷ b) s t ls lt h = ground (arith, split_last_unique sep a b s t)

pub same-back :
    (sep : ℕ) (a b s t : List ℕ)
    → lacks sep s ≡ true
    → lacks sep t ≡ true
    → same (a ++ sep ∷ s) (b ++ sep ∷ t) ≡ (same a b && same s t)
same-back sep a b s t ls lt =
    Bool-ext _ _
      (λ h.
        let (e, f) = split_last_unique sep a b s t ls lt (same→eq _ _ h) in
        rw (← e) (rw (← f) (rw (same_refl a, same_refl s) refl)))
      (λ h. ground (arith, same_iff a b, same_iff s t, same_refl (b ++ sep ∷ t)))
