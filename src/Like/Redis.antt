-- ===== src/Like/Redis.antt =====
-- The Redis commands of internal/like, as a parameter: what a client sees of the sets and the
-- counters, and how the commands change it. Keys are written as what they are made of.
use go_shortvideo.Prelude.{
  ℕ, ◌≡◌, Bool, true, false, ◌&&◌, Option, none, some, List, [], ◌∷◌, ◌==◌, if◌then◌else◌, map,
}
use go_shortvideo.Prelude.Int.{ℤ, pos, ◌+ℤ◌}

-- `INCRBY` of the key `CountShardKey(video, shard)`; `DECRBY` is one with a negative delta.
pub record Incr : Type 0 where
  pub video : ℕ
  pub shard : ℕ
  pub delta : ℤ

-- What a list of increments adds to one counter.
abbrev pub added : (video shard : ℕ) → List Incr → ℤ
added video shard [] = pos 0
added video shard (c ∷ cs) =
    let rest = added video shard cs in
    if c.video == video && c.shard == shard then c.delta +ℤ rest else rest

-- The commands of a pipeline that were run, by a flag for each; without a flag it was not.
abbrev pub picked : List Bool → List Incr → List Incr
picked flags [] = []
picked [] (c ∷ cs) = []
picked (f ∷ flags) (c ∷ cs) = let rest = picked flags cs in if f then c ∷ rest else rest

abbrev pub flag : Bool → ℕ
flag b = if b then 1 else 0

abbrev pub value_or_0 : Option ℤ → ℤ
value_or_0 none = pos 0
value_or_0 (some x) = x

-- A command that is answered with an error (`none`, or `false`) has changed nothing. A pipeline is not
-- a transaction: `ran` says which of its commands were run, all of them where it is answered without
-- an error, any of them otherwise.
pub record Redis : Type 1 where
  pub State : Type 0
  pub member : (user video : ℕ) → State → Bool
  pub counter : (video shard : ℕ) → State → ℤ
  pub sadd : (user video : ℕ) → State → Option ℕ × State
  pub srem : (user video : ℕ) → State → Option ℕ × State
  pub exec : List Incr → State → Bool × State
  pub mget : List (ℕ × ℕ) → State → Option (List (Option ℤ))
  pub sis_members : (user : ℕ) → List ℕ → State → Option (List Bool)
  pub sadd-some :
      (u v n : ℕ) (s : State) → (sadd u v s).0 ≡ some n → n ≡ (if member u v s then 0 else 1)
  pub member-sadd :
      (u v n : ℕ) (s : State)
      → (sadd u v s).0 ≡ some n
      → (a b : ℕ) → member a b (sadd u v s).1 ≡ (if u == a && v == b then true else member a b s)
  pub member-sadd_none :
      (u v : ℕ) (s : State)
      → (sadd u v s).0 ≡ none
      → (a b : ℕ) → member a b (sadd u v s).1 ≡ member a b s
  pub counter-sadd : (u v a b : ℕ) (s : State) → counter a b (sadd u v s).1 ≡ counter a b s
  pub srem-some :
      (u v n : ℕ) (s : State) → (srem u v s).0 ≡ some n → n ≡ (if member u v s then 1 else 0)
  pub member-srem :
      (u v n : ℕ) (s : State)
      → (srem u v s).0 ≡ some n
      → (a b : ℕ) → member a b (srem u v s).1 ≡ (if u == a && v == b then false else member a b s)
  pub member-srem_none :
      (u v : ℕ) (s : State)
      → (srem u v s).0 ≡ none
      → (a b : ℕ) → member a b (srem u v s).1 ≡ member a b s
  pub counter-srem : (u v a b : ℕ) (s : State) → counter a b (srem u v s).1 ≡ counter a b s
  pub member-exec : (cs : List Incr) (a b : ℕ) (s : State) → member a b (exec cs s).1 ≡ member a b s
  pub ran : List Incr → State → List Bool
  pub counter-exec :
      (cs : List Incr) (a b : ℕ) (s : State)
      → counter a b (exec cs s).1 ≡ counter a b s +ℤ added a b (picked (ran cs s) cs)
  pub ran_all : (cs : List Incr) (s : State) → (exec cs s).0 ≡ true → picked (ran cs s) cs ≡ cs
  pub ran_one :
      (c : Incr) (s : State) → (exec (c ∷ []) s).0 ≡ false → picked (ran (c ∷ []) s) (c ∷ []) ≡ []
  pub mget-some :
      (keys : List (ℕ × ℕ)) (vals : List (Option ℤ)) (s : State)
      → mget keys s ≡ some vals
      → map value_or_0 vals ≡ map (λ k. counter k.0 k.1 s) keys
  pub sis_members-some :
      (u : ℕ) (vs : List ℕ) (flags : List Bool) (s : State)
      → sis_members u vs s ≡ some flags
      → flags ≡ map (λ v. member u v s) vs
