-- ===== src/TextDict.antt =====
-- Go's `map[string]V` as an association list.
use text.Mathlib.Text.{◌==◌ as str_eq}
use text.Mathlib.TextEquality.{eq_iff}
use go_shortvideo.Prelude.{
  ◌≡◌, refl, String, Option, none, some, List, [], ◌∷◌, arith, if◌then◌else◌,
}

module _ {ℓ} {V : Type ℓ} where
  unfoldable pub lookup : String → List (String × V) → Option V
  lookup name [] = none
  lookup name (entry ∷ rest) = if str_eq entry.0 name then some entry.1 else lookup name rest

  unfoldable pub insert : String → V → List (String × V) → List (String × V)
  insert name new [] = (name, new) ∷ []
  insert name new (entry ∷ rest) =
      let later = insert name new rest in
      if str_eq entry.0 name then (name, new) ∷ rest else entry ∷ later

  pub lookup-insert :
      (name other : String) (new : V) (entries : List (String × V))
      → lookup other (insert name new entries)
        ≡ (if str_eq name other then some new else lookup other entries)
  unfolding lookup insert
  lookup-insert name other new [] = refl
  lookup-insert name other new ((first, old) ∷ rest) = ground (
    arith,
    lookup-insert name other new rest,
    eq_iff first other,
    eq_iff name other,
    eq_iff first name,
  )

  -- `delete(m, name)`
  unfoldable pub delete : String → List (String × V) → List (String × V)
  delete name [] = []
  delete name (entry ∷ rest) =
      let later = delete name rest in if str_eq entry.0 name then later else entry ∷ later
