-- ===== src/Rec/Filter.antt =====
-- internal/rec/filter.go. `seen` is what `IsSeen` answers, `none` for an error.
use go_shortvideo.Prelude.{ℕ, Bool, false, not, Option, none, some, List, [], ◌∷◌, ◌==◌, keep}
use go_shortvideo.Dict.{Dict, lookup_or}
use go_shortvideo.Rec.Scorer.{Scores, ScoredVideo, ids_of}

unfoldable pub filter_seen :
    {f : Scores}
    → (is_seen : List ℕ → Option (Dict Bool)) → List (ScoredVideo f)
    → List (ScoredVideo f)
filter_seen is_seen [] = []
filter_seen is_seen (v ∷ vs) = elim (is_seen (ids_of (v ∷ vs))) [
  | none ↦ []
  | some seen ↦ keep (λ w. not (lookup_or false w.video_id seen)) (v ∷ vs)
]

unfoldable pub filter_self_author :
    {f : Scores} → List (ScoredVideo f) → (user : ℕ) → List (ScoredVideo f)
filter_self_author videos user = keep (λ v. not (v.author_id == user)) videos
