-- ===== src/Feed/Merge.antt =====
-- `mergeDedupe` of internal/feed/service.go. A score is a time in milliseconds, which a float64
-- holds exactly, so it is a natural. `sort.Slice` is any function that keeps its promise.
pub mod Laws
use go_shortvideo.Prelude.{
  ℕ, Bool, true, false, List, [], ◌∷◌, ◌++◌, ltb, take, length, if◌then◌else◌,
}
use go_shortvideo.IdSet.{contains, add}
use go_shortvideo.Sort.{Sorter}

pub record Entry : Type 0 where
  pub video_id : ℕ
  pub score : ℕ

abbrev pub newer : Entry → Entry → Bool
newer a b = ltb b.score a.score

-- The two nested loops: an entry whose video was seen is passed over.
unfoldable pub dedupe : (seen : List ℕ) → List Entry → List Entry
dedupe seen [] = []
dedupe seen (e ∷ es) = elim (contains e.video_id seen) [
  | true ↦ dedupe seen es
  | false ↦ e ∷ dedupe (add e.video_id seen) es
]

module _ (sorter : Sorter newer) where
  unfoldable pub merge_dedupe : (a b : List Entry) (limit : ℕ) → List Entry
  merge_dedupe a b limit =
      let all = sorter.sort (dedupe [] (a ++ b)) in
      if ltb limit (length all) then take limit all else all
