-- ===== src/RateLimit/Order.antt =====
-- The rule of a path where one rule at most is meant for it: the order of the rules does not matter.
use go_shortvideo.Prelude.{
  ◌≡◌, refl, sym, ◌∙◌, ◌⊎◌, true, false, String, List, [], ◌∷◌, arith, All, Bool-cases, inl, inr,
}
use mathlib.Core.List.{Permᴰ}
use text.Mathlib.Text.{starts_with}
use go_shortvideo.Sort.{perm_All}
use go_shortvideo.Prelude.Int.{ℤ}
use go_shortvideo.RateLimit.Window.{RedisPathLimiter, Rules, rule_from, rule_for}

All-perm : {A : Type 0} (P : A → Type 0) {xs ys : List A} → Permᴰ xs ys → All P xs → All P ys
All-perm P Permᴰ.nil h = tt
All-perm P (Permᴰ.cons e p) h = (rw (← e) h.0, All-perm P p h.1)
All-perm P (Permᴰ.swap e f) h = (rw (← f) h.1.0, (rw (← e) h.0, h.1.1))
All-perm P (Permᴰ.trans p q) h = All-perm P q (All-perm P p h)

module _ (path : String) (rule : String × (ℤ × ℤ)) where
  abbrev Away : String × (ℤ × ℤ) → Type 0
  Away r = starts_with path r.0 ≡ false

  rule_from-only :
      (rules : Rules) (fallback : ℤ × ℤ)
      → All (λ r. starts_with path r.0 ≡ true → r ≡ rule) rules
      → (All Away rules × (rule_from rules fallback path ≡ ("fallback", fallback)))
        ⊎ ((All Away rules → ⊥) × (rule_from rules fallback path ≡ rule))
  unfolding rule_from
  rule_from-only [] fallback only = inl (tt, refl)
  rule_from-only (r ∷ rules) fallback only = elim (Bool-cases (starts_with path r.0)) [
    | inl e ↦ inr (λ away. ground (arith, away.0), rw e (only.0 e))
    | inr e ↦ elim (rule_from-only rules fallback only.1) [
      | inl (away, same) ↦ inl ((e, away), rw e same)
      | inr (some_rule, same) ↦ inr (λ away. some_rule away.1, rw e same)
    ]
  ]

  pub rule_for-order :
      (pl : RedisPathLimiter) (order : Rules)
      → Permᴰ order pl.rules
      → All (λ r. starts_with path r.0 ≡ true → r ≡ rule) pl.rules
      → rule_for order pl path ≡ rule_for pl.rules pl path
  unfolding rule_for
  rule_for-order pl order p only = elim (rule_from-only order pl.fallback (perm_All _ p only)) [
    | inl (away, same) ↦ elim (rule_from-only pl.rules pl.fallback only) [
      | inl (here, this) ↦ same ∙ sym this
      | inr (some_rule, this) ↦ absurd (some_rule (All-perm Away p away))
    ]
    | inr (some_rule, same) ↦ elim (rule_from-only pl.rules pl.fallback only) [
      | inl (here, this) ↦ absurd (some_rule (perm_All Away p here))
      | inr (other, this) ↦ same ∙ sym this
    ]
  ]
