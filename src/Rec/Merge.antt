-- ===== src/Rec/Merge.antt =====
-- What `MergeAndRank` makes of the recalls.

use mathlib.Core.List.Permᴰ
use go_shortvideo.Prelude.{
  ℕ, ◌≡◌, sym, ap, ◌∙◌, refl, true, false, ◌||◌, List, [], ◌∷◌, ◌++◌, arith, ltb, take, drop,
  length, if◌then◌else◌, Bool-cases, inl, inr, take-append-drop, take_of_length-le, length-take,
  min,
}
use go_shortvideo.IdSet.{contains, add, contains-add, Distinct}
use go_shortvideo.Sort.{Sorter, Ordered, perm_Distinct, perm_contains}
use go_shortvideo.Rec.Scorer.{
  Scores, ScoredVideo, ids_of, Gathered, add_videos, gather, better, merge_and_rank,
}

contains-snoc :
    (k x : ℕ) (xs : List ℕ)
    → contains k (xs ++ x ∷ []) ≡ (if contains k xs then true else contains k (x ∷ []))
unfolding contains
contains-snoc k x [] = refl
contains-snoc k x (y ∷ xs) = ground (arith, contains-snoc k x xs)

snoc-Distinct :
    (x : ℕ) (xs : List ℕ) → Distinct xs → contains x xs ≡ false → Distinct (xs ++ x ∷ [])
unfolding contains
snoc-Distinct x [] h e = (refl, tt)
snoc-Distinct x (y ∷ xs) h e =
    (ground (arith, contains-snoc y x xs, h.0), snoc-Distinct x xs h.1 (ground arith))

module _ {f : Scores} where
  ids-snoc :
      (vs : List (ScoredVideo f)) (v : ScoredVideo f)
      → ids_of (vs ++ v ∷ []) ≡ ids_of vs ++ v.video_id ∷ []
  ids-snoc [] v = refl
  ids-snoc (x ∷ vs) v = cc (ids-snoc vs v)

module _ (f : Scores) where
  -- `seen` holds the ids of `all`, and `all` holds none twice.
  record Agrees (g : Gathered f) : Type 0 where
    same : (k : ℕ) → contains k g.seen ≡ contains k (ids_of g.all)
    once : Distinct (ids_of g.all)

  grow :
      (g : Gathered f) (v : ScoredVideo f)
      → Agrees g
      → contains v.video_id g.seen ≡ false
      → Agrees (record { seen = add v.video_id g.seen; all = g.all ++ v ∷ [] })
  unfolding contains
  grow g v i new = record {
    same = λ k. ground (
      arith,
      contains-add v.video_id k g.seen,
      i.same k,
      ids-snoc g.all v,
      contains-snoc k v.video_id (ids_of g.all),
    );
    once =
        rw (ids-snoc g.all v)
          (snoc-Distinct v.video_id (ids_of g.all) i.once (ground (arith, i.same v.video_id)));
  }

  add_videos-Agrees :
      (weight : f.Score → f.Score) (vs : List (ScoredVideo f)) (g : Gathered f)
      → Agrees g
      → Agrees (add_videos f weight vs g)
  unfolding add_videos
  add_videos-Agrees weight [] g i = i
  add_videos-Agrees weight (v ∷ vs) g i = elim (Bool-cases (contains v.video_id g.seen)) [
    | inl old ↦ rw (old, add_videos) (add_videos-Agrees weight vs g i)
    | inr new ↦
        let v' : ScoredVideo f = record v { score = weight v.score } in
        let g' : Gathered f = record { seen = add v.video_id g.seen; all = g.all ++ v' ∷ [] } in
        rw (new, add_videos) (add_videos-Agrees weight vs g' (grow g v' i new))
  ]

  contains-add_videos :
      (k : ℕ) (weight : f.Score → f.Score) (vs : List (ScoredVideo f)) (g : Gathered f)
      → contains k (add_videos f weight vs g).seen
        ≡ (if contains k g.seen then true else contains k (ids_of vs))
  unfolding add_videos contains
  contains-add_videos k weight [] g = ground arith
  contains-add_videos k weight (v ∷ vs) g =
      let v' : ScoredVideo f = record v { score = weight v.score } in
      let g' : Gathered f = record { seen = add v.video_id g.seen; all = g.all ++ v' ∷ [] } in
      ground (
        arith,
        contains-add_videos k weight vs g,
        contains-add_videos k weight vs g',
        contains-add v.video_id k g.seen,
      )

  module _ (hot fresh cf social : List (ScoredVideo f)) where
    gathered : Agrees (gather f hot fresh cf social)
    unfolding gather contains
    gathered = add_videos-Agrees f.w_social social _ (
        add_videos-Agrees f.w_cf cf _ (
          add_videos-Agrees f.w_fresh fresh _
            (add_videos-Agrees f.w_hot hot _ (record { same = λ k. refl; once = tt }))))

    contains-gather :
        (k : ℕ)
        → contains k (ids_of (gather f hot fresh cf social).all) ≡ (
            contains k (ids_of hot)
            || contains k (ids_of fresh)
            || contains k (ids_of cf)
            || contains k (ids_of social))
    unfolding gather contains
    contains-gather k =
        let g0 : Gathered f = record { seen = []; all = [] } in
        let g1 = add_videos f f.w_hot hot g0 in
        let g2 = add_videos f f.w_fresh fresh g1 in
        let g3 = add_videos f f.w_cf cf g2 in
        sym (gathered.same k)
        ∙ ground (
          arith,
          contains-add_videos k f.w_hot hot g0,
          contains-add_videos k f.w_fresh fresh g1,
          contains-add_videos k f.w_cf cf g2,
          contains-add_videos k f.w_social social g3,
        )

    merge-take :
        (sorter : Sorter (better f)) (limit : ℕ)
        → merge_and_rank f sorter hot fresh cf social limit
          ≡ take limit (sorter.sort (gather f hot fresh cf social).all)
    unfolding merge_and_rank
    merge-take sorter limit =
        let all = sorter.sort (gather f hot fresh cf social).all in
        elim (Bool-cases (ltb limit (length all))) [
          | inl long ↦ rw long
          | inr short ↦ rw short (sym (take_of_length-le limit all (ground arith)))
        ]

    -- However ties are sorted, the ranked list and what it leaves out, `left`, hold together every
    -- video of the four recalls exactly once, best score first, and the list is the first `limit`
    -- of them.
    pub merge_and_rank_lem :
        (sorter : Sorter (better f)) (limit : ℕ)
        → let page = merge_and_rank f sorter hot fresh cf social limit in
          (left : List (ScoredVideo f)) × Distinct (ids_of (page ++ left))
          × ((k : ℕ)
              → contains k (ids_of (page ++ left)) ≡ (
                  contains k (ids_of hot)
                  || contains k (ids_of fresh)
                  || contains k (ids_of cf)
                  || contains k (ids_of social)))
          × Ordered (better f) (page ++ left)
          × (length page ≡ min limit (length (page ++ left)))
    merge_and_rank_lem sorter limit =
        let g = (gather f hot fresh cf social).all in
        let all = sorter.sort g in
        let perm = Permᴰ.map (λ (v : ScoredVideo f). v.video_id) (sorter.sort-perm g) in
        let whole : merge_and_rank f sorter hot fresh cf social limit ++ drop limit all ≡ all =
          ap (λ (l : List (ScoredVideo f)). l ++ drop limit all) (merge-take sorter limit)
          ∙ take-append-drop limit all in
        (
          drop limit all,
          rw whole (perm_Distinct perm gathered.once),
          λ k. rw whole (perm_contains k perm ∙ contains-gather k),
          rw whole (sorter.sort-Ordered g),
          rw whole (ap length (merge-take sorter limit) ∙ length-take limit all),
        )
