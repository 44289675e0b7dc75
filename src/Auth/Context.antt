-- ===== src/Auth/Context.antt =====
-- What the code reads of a `gin.Context`: the values that are set in it, and the headers. A header
-- is the list of its bytes, and an empty one stands for one that is not there.
use go_shortvideo.Prelude.{ℕ, Bool, Option, none, some, List, [], ◌∷◌, ◌==◌, if◌then◌else◌}
use go_shortvideo.Prelude.Int.{ℤ}

-- A value under a key: none, one of another type, or one of the type that is asked for.
pub data Stored (A : Type 0) : Type 0 where
  unset other_type : Stored A
  value : A → Stored A

pub record Context : Type 0 where
  pub user_id : Stored ℤ
  pub allow_x_user_id : Stored Bool
  pub authorization : List ℕ
  pub x_user_id : List ℕ
  pub x_forwarded_for : List ℕ
  pub client_ip : List ℕ

-- `strings.HasPrefix` and `strings.TrimPrefix`: the rest behind the prefix.
abbrev pub after_prefix : List ℕ → List ℕ → Option (List ℕ)
after_prefix [] s = some s
after_prefix (p ∷ ps) [] = none
after_prefix (p ∷ ps) (c ∷ s) = let rest = after_prefix ps s in if p == c then rest else none
