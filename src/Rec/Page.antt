-- ===== src/Rec/Page.antt =====
-- What can stand on a page of recommendations.
use mathlib.Core.Path.{subst}
use go_shortvideo.Prelude.{
  ℕ, ◌+◌, ◌%◌, leb, sym, refl, ap, ◌∙◌, ◌++◌, map, min, take, All-append, ◌≡◌, ◌≤◌, Bool, true,
  false, not, Option, some, List, [], ◌∷◌, ◌==◌, arith, All, All-keep, All-take, keep, ltb, length,
  length-take, Bool-cases, Option-cases, inl, inr,
}
use go_shortvideo.Dict.{Dict, lookup_or, insert}
use go_shortvideo.IdSet.{contains, add}
use go_shortvideo.Sort.{Sorter, perm_All}
use go_shortvideo.Prelude.Int.{ℤ, pos, ◌-ℤ◌}
use go_shortvideo.Rec.Scorer.{
  Scores, ScoredVideo, Gathered, ids_of, better, add_videos, gather, fresh_injection,
  merge_and_rank, rerank_from, diversity_rerank,
}
use go_shortvideo.Rec.Filter.{filter_seen, filter_self_author}
use go_shortvideo.Rec.Diversity.{by_author, by_author-diversity_rerank}
use go_shortvideo.Rec.Injection.{In, ids_of-In, All-fresh_injection, length-fresh_injection}
use go_shortvideo.Rec.Pools.{
  PoolKey, hot, fresh, cf, zrev_range, hot_recall, fresh_recall, cf_recall, is_seen,
}
use go_shortvideo.Rec.Service.{Sources, or_nil, multi_recall, ranked, candidates, RecallResult}

module _ {f : Scores} where
  keep-All :
      (p : ScoredVideo f → Bool) (vs : List (ScoredVideo f)) → All (λ v. p v ≡ true) (keep p vs)
  keep-All p [] = tt
  keep-All p (v ∷ vs) = elim (Bool-cases (p v)) [
    | inl e ↦ rw e (e, keep-All p vs)
    | inr e ↦ rw e (keep-All p vs)
  ]

  All-same :
      (P : ScoredVideo f → Type 0) (l l' : List (ScoredVideo f)) → l' ≡ l → All P l → All P l'
  All-same P l l' e h = subst (λ (x : List (ScoredVideo f)). All P x) (sym e) h

  All-rerank_from :
      (P : ScoredVideo f → Type 0) (max : ℕ) (counts : Dict ℕ) (vs : List (ScoredVideo f))
      → All P vs
      → All P (rerank_from max counts vs)
  unfolding rerank_from
  All-rerank_from P max counts [] h = tt
  All-rerank_from P max counts (v ∷ vs) h =
      let n = lookup_or 0 v.author_id counts in
      let skipped = All-rerank_from P max counts vs h.1 in
      let taken = All-rerank_from P max (insert v.author_id (n + 1) counts) vs h.1 in
      elim (Bool-cases (leb max n)) [
        | inl e ↦
            All-same P (rerank_from max counts vs) (rerank_from max counts (v ∷ vs)) (ground arith)
              skipped
        | inr e ↦
            All-same P (v ∷ rerank_from max (insert v.author_id (n + 1) counts) vs)
              (rerank_from max counts (v ∷ vs)) (ground arith) (h.0, taken)
      ]

  All-implies :
      (P Q : ScoredVideo f → Type 0)
      → ((v : ScoredVideo f) → P v → Q v)
      → (vs : List (ScoredVideo f)) → All P vs
      → All Q vs
  All-implies P Q g [] h = tt
  All-implies P Q g (v ∷ vs) h = (g v h.0, All-implies P Q g vs h.1)

  All-both :
      (P Q : ScoredVideo f → Type 0) (vs : List (ScoredVideo f))
      → All P vs
      → All Q vs
      → All (λ v. P v × Q v) vs
  All-both P Q [] h k = tt
  All-both P Q (v ∷ vs) h k = ((h.0, k.0), All-both P Q vs h.1 k.1)

  -- Redis was asked about the video and did not know it as seen.
  abbrev pub Unseen : (is_seen : List ℕ → Option (Dict Bool)) → ScoredVideo f → Type 0
  Unseen is_seen v =
      (asked : List ℕ) × (seen : Dict Bool) × (is_seen asked ≡ some seen)
      × (contains v.video_id asked ≡ true)
      × (lookup_or false v.video_id seen ≡ false)

  filter_seen-Unseen :
      (is_seen : List ℕ → Option (Dict Bool)) (vs : List (ScoredVideo f))
      → All (Unseen is_seen) (filter_seen is_seen vs)
  unfolding filter_seen
  filter_seen-Unseen is_seen [] = tt
  filter_seen-Unseen is_seen (v ∷ vs) = elim (Option-cases (is_seen (ids_of (v ∷ vs)))) [
    | inl e ↦ All-same (Unseen is_seen) [] (filter_seen is_seen (v ∷ vs)) (ground arith) tt
    | inr (seen, e) ↦
        let vs' = v ∷ vs in
        let new = λ (w : ScoredVideo f). not (lookup_or false w.video_id seen) in
        let asked = All-keep (In (ids_of vs')) new vs' (ids_of-In vs') in
        All-same (Unseen is_seen) (keep new vs') (filter_seen is_seen vs') (ground arith) (
          All-implies (λ w. In (ids_of vs') w × (new w ≡ true)) (Unseen is_seen)
            (λ w h. (ids_of vs', seen, e, h.0, ground (arith, h.1))) (keep new vs')
            (All-both (In (ids_of vs')) (λ w. new w ≡ true) (keep new vs') asked
              (keep-All new vs')))
  ]

-- A recall never fills in who made a video.
module _ {f : Scores} where
  abbrev Anonymous : ScoredVideo f → Type 0
  Anonymous v = v.author_id ≡ 0

  All-add_videos :
      (weight : f.Score → f.Score) (vs : List (ScoredVideo f)) (g : Gathered f)
      → All Anonymous vs
      → All Anonymous g.all
      → All Anonymous (add_videos f weight vs g).all
  unfolding add_videos
  All-add_videos weight [] g h k = k
  All-add_videos weight (v ∷ vs) g h k = elim (Bool-cases (contains v.video_id g.seen)) [
    | inl old ↦ rw (old, add_videos) (All-add_videos weight vs g h.1 k)
    | inr new ↦
        let v' = record v { score = weight v.score } in
        let g' : Gathered f = record { seen = add v.video_id g.seen; all = g.all ++ v' ∷ [] } in
        rw (new, add_videos)
          (All-add_videos weight vs g' h.1 (All-append Anonymous g.all (v' ∷ []) k (h.0, tt)))
  ]

  All-merge_and_rank :
      (sorter : Sorter (better f)) (trending recent near near_friends : List (ScoredVideo f))
      (limit : ℕ)
      → All Anonymous trending
      → All Anonymous recent
      → All Anonymous near
      → All Anonymous near_friends
      → All Anonymous (merge_and_rank f sorter trending recent near near_friends limit)
  unfolding merge_and_rank gather
  All-merge_and_rank sorter trending recent near near_friends limit h k c o =
      let nothing : Gathered f = record { seen = []; all = [] } in
      let all = (gather f trending recent near near_friends).all in
      let gathered = All-add_videos f.w_social near_friends _ o (
        All-add_videos f.w_cf near _ c
          (All-add_videos f.w_fresh recent _ k (All-add_videos f.w_hot trending nothing h tt))) in
      let sorted = perm_All Anonymous (sorter.sort-perm all) gathered in
      elim (Bool-cases (ltb limit (length (sorter.sort all)))) [
        | inl long ↦ rw long (All-take Anonymous limit (sorter.sort all) sorted)
        | inr short ↦ rw short sorted
      ]

  All-filter_seen :
      (is_seen : List ℕ → Option (Dict Bool)) (vs : List (ScoredVideo f))
      → All Anonymous vs
      → All Anonymous (filter_seen is_seen vs)
  unfolding filter_seen
  All-filter_seen is_seen [] h = tt
  All-filter_seen is_seen (v ∷ vs) h = elim (Option-cases (is_seen (ids_of (v ∷ vs)))) [
    | inl e ↦ rw (e, filter_seen) tt
    | inr (seen, e) ↦
        rw (e, filter_seen)
          (All-keep Anonymous (λ w. not (lookup_or false w.video_id seen)) (v ∷ vs) h)
  ]

  by_author-Anonymous : (vs : List (ScoredVideo f)) → All Anonymous vs → by_author 0 vs ≡ vs
  by_author-Anonymous [] h = refl
  by_author-Anonymous (v ∷ vs) h = ground (arith, h.0, by_author-Anonymous vs h.1)

  -- All videos without an author are one author's for the rerank.
  length-diversity_rerank :
      (vs : List (ScoredVideo f)) → All Anonymous vs → length (diversity_rerank vs 2) ≤ 2
  unfolding diversity_rerank
  length-diversity_rerank vs h =
      let reranked = diversity_rerank vs 2 in
      let same = by_author-Anonymous reranked (All-rerank_from Anonymous 2 [] vs h) in
      let two = by_author-diversity_rerank vs 2 0 (omega arith) in
      let few : length (take 2 (by_author 0 vs)) ≡ min 2 (length (by_author 0 vs)) =
        length-take 2 (by_author 0 vs) in
      let size = ap (λ (l : List (ScoredVideo f)). length l) (sym same ∙ two) ∙ few in
      omega (arith, size)

module _ {f : Scores} (src : Sources f) where
  filled :
      (zs : List (f.Score × ℕ))
      → All
          (Anonymous {f = f})
          (map (λ z. record { video_id = z.1; author_id = 0; score = z.0 }) zs)
  filled [] = tt
  filled (z ∷ zs) = (refl, filled zs)

  recalled :
      (key : PoolKey) (limit : ℤ)
      → All Anonymous (or_nil (zrev_range f src.redis key limit src.state))
  unfolding zrev_range
  recalled key limit =
      elim (Option-cases
        (src.redis.zrev_range_with_scores key (pos 0) (limit -ℤ pos 1) src.state)) [
          | inl e ↦ rw (e, zrev_range) tt
          | inr (zs, e) ↦ rw (e, zrev_range) (filled zs)
        ]

module _ {f : Scores} (src : Sources f) (sorter : Sorter (better f)) (user : ℕ) where
  abbrev pub fresh_pool : List (ScoredVideo f)
  fresh_pool = or_nil (fresh_recall f src.redis user (pos 15) src.state)

  abbrev pub asked : List ℕ → Option (Dict Bool)
  asked vs = is_seen f src.redis user vs src.state

  ranked-Unseen : (result : RecallResult f) → All (Unseen asked) (ranked src sorter user result)
  unfolding ranked diversity_rerank filter_self_author
  ranked-Unseen result =
      let merged = merge_and_rank f sorter result.hot result.fresh result.cf result.social 50 in
      let seen = filter_seen asked merged in
      let theirs = keep (λ v. not (v.author_id == user)) seen in
      All-rerank_from (Unseen asked) 2 [] theirs (
        All-keep (Unseen asked) (λ v. not (v.author_id == user)) seen
          (filter_seen-Unseen asked merged))

  length-ranked : length (ranked src sorter user (multi_recall src user [])) ≤ 2
  unfolding ranked filter_self_author multi_recall hot_recall fresh_recall cf_recall
  length-ranked =
      let result = multi_recall src user [] in
      let merged = merge_and_rank f sorter result.hot result.fresh result.cf result.social 50 in
      let seen = filter_seen asked merged in
      let theirs = keep (λ v. not (v.author_id == user)) seen in
      length-diversity_rerank theirs (
        All-keep Anonymous (λ v. not (v.author_id == user)) seen
          (All-filter_seen asked merged (
            All-merge_and_rank sorter result.hot result.fresh result.cf result.social 50
              (recalled src (hot (user % 4)) (pos 30)) (recalled src (fresh (user % 4)) (pos 15))
              (recalled src (cf user) (pos 20)) tt)))

  -- The recalls from Redis fill in no author, so that the rerank counts all videos as one author's. If
  -- a fifth of up to two is rounded to 0, a page has at most three videos, whatever the pools hold.
  -- Each of them stands in the fresh pool, or else Redis was asked about it and did not know it as
  -- seen.
  pub candidates_lem :
      ((n : ℕ) → n ≤ 2 → src.share n ≡ 0)
      → let page = candidates src sorter user in
        (length page ≤ 3)
        × All (λ v. contains v.video_id (ids_of fresh_pool) ≡ false → Unseen asked v) page
  unfolding candidates multi_recall
  candidates_lem small =
      let result = multi_recall src user [] in
      let picked = ranked src sorter user result in
      let all = fresh_injection src.share picked fresh_pool in
      let Fine =
        λ (v : ScoredVideo f). contains v.video_id (ids_of fresh_pool) ≡ false → Unseen asked v in
      let fine : All Fine all =
        All-fresh_injection Fine src.share picked fresh_pool
          (All-implies (Unseen asked) Fine (λ v h absent. h) picked (ranked-Unseen result))
          (All-implies (In (ids_of fresh_pool)) Fine (λ v h absent. absurd (ground arith))
            fresh_pool (ids_of-In fresh_pool)) in
      let two = length-ranked in
      let three =
        length-fresh_injection src.share picked fresh_pool two (small (length picked) two) in
      elim (Bool-cases (ltb 10 (length all))) [
        | inl long ↦ absurd (ground (arith, long, three))
        | inr short ↦ rw short (three, fine)
      ]
