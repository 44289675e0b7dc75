-- ===== src/Like/MemRepo.antt =====
-- `memLikeRepo` of cmd/server/main.go: what the consumer of like events writes to where there is no
-- database.
use go_shortvideo.Prelude.{
  ℕ, Bool, true, ◌&&◌, Option, none, some, List, [], ◌∷◌, ltb, ◌==◌, if◌then◌else◌,
}
use go_shortvideo.Prelude.Int.{ℤ, pos, ◌+ℤ◌, ltb_ℤ}
use go_shortvideo.Dict.{Dict, lookup_or, insert}
use go_shortvideo.Like.Service.{LikeEvent}
use go_shortvideo.Like.Consumer.{Repo, handle_batch}

pub record LikeRecord : Type 0 where
  pub liked : Bool
  pub updated_at : ℕ

-- `map[[2]int64]*likeRecord`
abbrev pub Records : Type 0
Records = List ((ℕ × ℕ) × LikeRecord)

pub record MemLikeRepo : Type 0 where
  pub records : Records
  pub stats : Dict ℤ

-- `newMemLikeRepo`
abbrev pub new_mem_like_repo : MemLikeRepo
new_mem_like_repo = record { records = []; stats = [] }

unfoldable pub record_of : (user video : ℕ) → Records → Option LikeRecord
record_of user video [] = none
record_of user video ((key, r) ∷ m) =
    if key.0 == user && key.1 == video then some r else record_of user video m

unfoldable pub set_record : (user video : ℕ) → LikeRecord → Records → Records
set_record user video r [] = ((user, video), r) ∷ []
set_record user video r ((key, old) ∷ m) =
    if key.0 == user && key.1 == video
    then ((user, video), r) ∷ m
    else (key, old) ∷ set_record user video r m

unfoldable pub upsert_like : (user video ts : ℕ) → Bool → MemLikeRepo → Bool × MemLikeRepo
upsert_like user video ts liked repo =
    let written : MemLikeRepo = record repo {
      records = set_record user video (record { liked = liked; updated_at = ts }) repo.records;
    } in
    elim (record_of user video repo.records) [
      | none ↦ (true, written)
      | some rec ↦ (true, if ltb rec.updated_at ts then written else repo)
    ]

abbrev pub at_least_zero : ℤ → ℤ
at_least_zero n = if ltb_ℤ n (pos 0) then pos 0 else n

-- The loop of `ApplyCountDeltas`.
unfoldable pub add_deltas : Dict ℤ → Dict ℤ → Dict ℤ
add_deltas [] stats = stats
add_deltas ((video, delta) ∷ deltas) stats =
    add_deltas deltas (insert video (at_least_zero (lookup_or (pos 0) video stats +ℤ delta)) stats)

unfoldable pub apply_count_deltas : Dict ℤ → MemLikeRepo → Bool × MemLikeRepo
apply_count_deltas deltas repo = (true, record repo { stats = add_deltas deltas repo.stats })

abbrev pub mem_like_repo : Repo
mem_like_repo = record {
  Db = MemLikeRepo;
  upsert_like = upsert_like;
  apply_count_deltas = apply_count_deltas;
}

-- The messages of a topic, each a batch of events, as the worker handles them.
unfoldable pub deliver : List (List LikeEvent) → MemLikeRepo → MemLikeRepo
deliver [] repo = repo
deliver (batch ∷ batches) repo = deliver batches (handle_batch mem_like_repo batch repo).1
