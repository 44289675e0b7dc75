-- ===== src/Feed/Merge/Laws.antt =====
-- What a merged page holds.
use mathlib.Core.List.{Permᴰ}
use mathlib.Core.List.Permᴰ
use go_shortvideo.Prelude.{
  ℕ, ◌≡◌, sym, ap, ◌∙◌, false, List, [], ◌∷◌, ◌++◌, arith, ltb, take, drop, length, map, All,
  if◌then◌else◌, Bool-cases, inl, inr, All-take, All-append, take-append-drop, take_of_length-le,
  length-take, min,
}
use go_shortvideo.IdSet.{contains, add, contains-add, Distinct}
use go_shortvideo.Sort.{Sorter, Ordered, perm_All, perm_Distinct, perm_contains}
use go_shortvideo.Feed.Merge.{Entry, newer, dedupe, merge_dedupe}

abbrev pub video_ids : List Entry → List ℕ
video_ids es = map (λ e. e.video_id) es

-- A video is kept exactly if it was not seen before and stands in the list.
contains-dedupe :
    (k : ℕ) (seen : List ℕ) (es : List Entry)
    → contains k (video_ids (dedupe seen es))
      ≡ (if contains k seen then false else contains k (video_ids es))
unfolding dedupe contains
contains-dedupe k seen [] = ground arith
contains-dedupe k seen (e ∷ es) = ground (
  arith,
  contains-dedupe k seen es,
  contains-dedupe k (add e.video_id seen) es,
  contains-add e.video_id k seen,
)

dedupe-Distinct : (seen : List ℕ) (es : List Entry) → Distinct (video_ids (dedupe seen es))
unfolding dedupe
dedupe-Distinct seen [] = tt
dedupe-Distinct seen (e ∷ es) = elim (Bool-cases (contains e.video_id seen)) [
  | inl old ↦ rw (old, dedupe) (dedupe-Distinct seen es)
  | inr new ↦
      rw (new, dedupe)
        (
          ground (
            arith,
            contains-dedupe e.video_id (add e.video_id seen) es,
            contains-add e.video_id e.video_id seen,
          ),
          dedupe-Distinct (add e.video_id seen) es,
        )
]

perm_dedupe :
    (a b : List Entry) (sorter : Sorter newer)
    → Permᴰ (video_ids (sorter.sort (dedupe [] (a ++ b)))) (video_ids (dedupe [] (a ++ b)))
perm_dedupe a b sorter =
    Permᴰ.map (λ (e : Entry). e.video_id) (sorter.sort-perm (dedupe [] (a ++ b)))

merge_dedupe-take :
    (sorter : Sorter newer) (a b : List Entry) (limit : ℕ)
    → merge_dedupe sorter a b limit ≡ take limit (sorter.sort (dedupe [] (a ++ b)))
unfolding merge_dedupe
merge_dedupe-take sorter a b limit =
    let all = sorter.sort (dedupe [] (a ++ b)) in
    elim (Bool-cases (ltb limit (length all))) [
      | inl long ↦ rw long
      | inr short ↦ rw short (sym (take_of_length-le limit all (ground arith)))
    ]

-- However ties are sorted, a merged page and what it leaves out, `left`, hold together every video
-- of the two lists exactly once, newest first, and the page is the first `limit` of them.
pub merge_dedupe_lem :
    (sorter : Sorter newer) (a b : List Entry) (limit : ℕ)
    → let page = merge_dedupe sorter a b limit in
      (left : List Entry) × Distinct (video_ids (page ++ left))
      × ((k : ℕ) → contains k (video_ids (page ++ left)) ≡ contains k (video_ids (a ++ b)))
      × Ordered newer (page ++ left)
      × (length page ≡ min limit (length (page ++ left)))
unfolding contains
merge_dedupe_lem sorter a b limit =
    let all = sorter.sort (dedupe [] (a ++ b)) in
    let whole : merge_dedupe sorter a b limit ++ drop limit all ≡ all =
      ap (λ (l : List Entry). l ++ drop limit all) (merge_dedupe-take sorter a b limit)
      ∙ take-append-drop limit all in
    (
      drop limit all,
      rw whole (perm_Distinct (perm_dedupe a b sorter) (dedupe-Distinct [] (a ++ b))),
      λ k. rw whole (perm_contains k (perm_dedupe a b sorter) ∙ contains-dedupe k [] (a ++ b)),
      rw whole (sorter.sort-Ordered (dedupe [] (a ++ b))),
      rw whole (ap length (merge_dedupe-take sorter a b limit) ∙ length-take limit all),
    )

-- Every entry of a merged page comes from one of the two lists.
All-dedupe :
    (P : Entry → Type 0) (seen : List ℕ) (es : List Entry) → All P es → All P (dedupe seen es)
unfolding dedupe
All-dedupe P seen [] h = tt
All-dedupe P seen (e ∷ es) h = elim (Bool-cases (contains e.video_id seen)) [
  | inl old ↦ rw (old, dedupe) (All-dedupe P seen es h.1)
  | inr new ↦ rw (new, dedupe) (h.0, All-dedupe P (add e.video_id seen) es h.1)
]

pub All-merge_dedupe :
    (P : Entry → Type 0) (sorter : Sorter newer) (a b : List Entry) (limit : ℕ)
    → All P a
    → All P b
    → All P (merge_dedupe sorter a b limit)
All-merge_dedupe P sorter a b limit h k = rw (merge_dedupe-take sorter a b limit) (
    All-take P limit _ (
      perm_All P (sorter.sort-perm (dedupe [] (a ++ b)))
        (All-dedupe P [] (a ++ b) (All-append P a b h k))))
