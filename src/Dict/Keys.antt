-- ===== src/Dict/Keys.antt =====
-- The keys of a Go map: each stands once, and every entry is found under its key.
use go_shortvideo.Prelude.{
  ℕ, ◌≡◌, refl, true, false, some, [], ◌∷◌, arith, ◌==◌, if◌then◌else◌, map, All,
}
use go_shortvideo.IdSet.{contains, Distinct}
use go_shortvideo.Dict.{Dict, lookup, insert, keys, values}

module _ {ℓ} {V : Type ℓ} where
  pub contains-keys-insert :
      (k j : ℕ) (v : V) (m : Dict V)
      → contains j (keys (insert k v m)) ≡ (if k == j then true else contains j (keys m))
  unfolding contains insert
  contains-keys-insert k j v [] = refl
  contains-keys-insert k j v (e ∷ m) = ground (arith, contains-keys-insert k j v m)

  pub insert-Distinct :
      (k : ℕ) (v : V) (m : Dict V) → Distinct (keys m) → Distinct (keys (insert k v m))
  unfolding contains insert
  insert-Distinct k v [] d = (refl, tt)
  insert-Distinct k v (e ∷ m) d =
      ground (arith, insert-Distinct k v m d.1, contains-keys-insert k e.0 v m)

  lookup_behind :
      (k : ℕ) (v : V) (all m : Dict V)
      → contains k (keys m) ≡ false
      → All (λ e. lookup e.0 all ≡ some e.1) m
      → All (λ e. lookup e.0 ((k, v) ∷ all) ≡ some e.1) m
  unfolding lookup contains
  lookup_behind k v all [] d h = tt
  lookup_behind k v all (e ∷ m) d h =
      (ground (arith, h.0), lookup_behind k v all m (ground arith) h.1)

  pub lookup_entries : (m : Dict V) → Distinct (keys m) → All (λ e. lookup e.0 m ≡ some e.1) m
  unfolding lookup
  lookup_entries [] d = tt
  lookup_entries ((k, v) ∷ m) d = (ground arith, lookup_behind k v m m d.0 (lookup_entries m d.1))

  -- In a table keyed by the ids of its records, the ids of the values are the keys.
  module _ (id_of : V → ℕ) (all : Dict V)
      (at : (k : ℕ) (v : V) → lookup k all ≡ some v → id_of v ≡ k) where
    pub values-keys :
        (m : Dict V) → All (λ e. lookup e.0 all ≡ some e.1) m → map id_of (values m) ≡ keys m
    values-keys [] h = refl
    values-keys (e ∷ m) h = cc (at e.0 e.1 h.0, values-keys m h.1)

    pub lookup-values :
        (m : Dict V)
        → All (λ e. lookup e.0 all ≡ some e.1) m
        → All (λ v. lookup (id_of v) all ≡ some v) (values m)
    lookup-values [] h = tt
    lookup-values (e ∷ m) h = (rw (at e.0 e.1 h.0) h.0, lookup-values m h.1)
