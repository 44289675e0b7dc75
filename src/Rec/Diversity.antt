-- ===== src/Rec/Diversity.antt =====
-- What the rerank keeps of each author.
use go_shortvideo.Prelude.{
  ℕ, zero, suc, ◌+◌, ◌-◌, ◌≡◌, ◌<◌, refl, List, [], ◌∷◌, ◌==◌, arith, if◌then◌else◌, take, keep,
  Bool-cases, inl, inr,
}
use go_shortvideo.Dict.{Dict, lookup, lookup_or, insert, lookup-insert}
use go_shortvideo.Rec.Scorer.{Scores, ScoredVideo, rerank_from, diversity_rerank}

counted :
    (a b : ℕ) (counts : Dict ℕ)
    → lookup_or 0 a (insert b (lookup_or 0 b counts + 1) counts)
      ≡ (if b == a then lookup_or 0 a counts + 1 else lookup_or 0 a counts)
counted a b counts = ground (arith, lookup-insert b a (lookup_or 0 b counts + 1) counts)

module _ {f : Scores} where
  abbrev pub by_author : ℕ → List (ScoredVideo f) → List (ScoredVideo f)
  by_author a vs = keep (λ v. v.author_id == a) vs

  -- `left` more entries of `a` pass.
  rerank_from_lem :
      (max a left : ℕ) (counts : Dict ℕ) (vs : List (ScoredVideo f))
      → max - lookup_or 0 a counts ≡ left
      → by_author a (rerank_from max counts vs) ≡ take left (by_author a vs)
  unfolding rerank_from
  rerank_from_lem max a zero counts [] h = refl
  rerank_from_lem max a (suc left) counts [] h = refl
  rerank_from_lem max a zero counts (v ∷ vs) h =
      let counts' = insert v.author_id (lookup_or 0 v.author_id counts + 1) counts in
      let same = rerank_from_lem max a zero counts vs h in
      let next =
        rerank_from_lem max a zero counts' vs (ground (arith, counted a v.author_id counts)) in
      ground arith
  rerank_from_lem max a (suc left) counts (v ∷ vs) h =
      let counts' = insert v.author_id (lookup_or 0 v.author_id counts + 1) counts in
      let same = rerank_from_lem max a (suc left) counts vs h in
      elim (Bool-cases (v.author_id == a)) [
        | inl e ↦
            let next =
              rerank_from_lem max a left counts' vs
                (ground (arith, counted a v.author_id counts)) in
            ground arith
        | inr e ↦
            let next =
              rerank_from_lem max a (suc left) counts' vs
                (ground (arith, counted a v.author_id counts)) in
            ground arith
      ]

  -- With a positive bound the rerank keeps, of every author, exactly the first videos in their
  -- order, up to the bound.
  pub by_author-diversity_rerank :
      (videos : List (ScoredVideo f)) (max a : ℕ)
      → 0 < max
      → by_author a (diversity_rerank videos max) ≡ take max (by_author a videos)
  unfolding diversity_rerank lookup
  by_author-diversity_rerank videos max a h =
      let step = rerank_from_lem max a max [] videos (omega arith) in ground arith
