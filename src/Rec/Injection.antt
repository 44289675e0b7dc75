-- ===== src/Rec/Injection.antt =====
-- What the injection of fresh videos appends.
use go_shortvideo.Prelude.{
  ℕ, zero, suc, ◌+◌, ◌-◌, ◌≡◌, ◌∙◌, refl, true, not, List, [], ◌∷◌, ◌++◌, arith, if◌then◌else◌,
  take, keep, ltb, leb, Bool-cases, inl, inr, length, min, length-take, All, All-take, All-keep,
  All-append, length-append, ap, sym, ◌≤◌,
}
use mathlib.Core.List.{append-nil}
use go_shortvideo.IdSet.{contains}
use go_shortvideo.Rec.Scorer.{Scores, ScoredVideo, ids_of, count_fresh, inject, fresh_injection}

module _ {f : Scores} where
  inject_lem :
      (merged : List ℕ) (needed : ℕ) (vs : List (ScoredVideo f))
      → inject merged needed vs ≡ take needed (keep (λ v. not (contains v.video_id merged)) vs)
  unfolding inject
  inject_lem merged zero [] = refl
  inject_lem merged (suc needed) [] = refl
  inject_lem merged zero (v ∷ vs) = refl
  inject_lem merged (suc needed) (v ∷ vs) =
      ground (arith, inject_lem merged (suc needed) vs, inject_lem merged needed vs)

  count_fresh-append :
      (fresh : List ℕ) (xs ys : List (ScoredVideo f))
      → count_fresh fresh (xs ++ ys) ≡ count_fresh fresh xs + count_fresh fresh ys
  unfolding count_fresh
  count_fresh-append fresh [] ys = omega arith
  count_fresh-append fresh (x ∷ xs) ys = ground (arith, count_fresh-append fresh xs ys)

  abbrev pub target : (share : ℕ → ℕ) → List (ScoredVideo f) → ℕ
  target share merged = if ltb (share (length merged)) 1 then 1 else share (length merged)

  -- What stands in the pool.
  abbrev pub In : List ℕ → ScoredVideo f → Type 0
  In fresh v = contains v.video_id fresh ≡ true

  In-later :
      (x : ℕ) (fresh : List ℕ) (vs : List (ScoredVideo f))
      → All (In fresh) vs
      → All (In (x ∷ fresh)) vs
  unfolding contains
  In-later x fresh [] h = tt
  In-later x fresh (v ∷ vs) h = (ground (arith, h.0), In-later x fresh vs h.1)

  pub ids_of-In : (vs : List (ScoredVideo f)) → All (In (ids_of vs)) vs
  unfolding contains
  ids_of-In [] = tt
  ids_of-In (v ∷ vs) = (ground arith, In-later v.video_id (ids_of vs) vs (ids_of-In vs))

  count_fresh-All :
      (fresh : List ℕ) (vs : List (ScoredVideo f))
      → All (In fresh) vs
      → count_fresh fresh vs ≡ length vs
  unfolding count_fresh
  count_fresh-All fresh [] h = refl
  count_fresh-All fresh (v ∷ vs) h = rw h.0 (ap suc (count_fresh-All fresh vs h.1))

  settle :
      (t c : ℕ) (merged extra spare : List (ScoredVideo f))
      → extra ≡ take (t - c) spare
      → (if leb t c then merged else merged ++ extra) ≡ merged ++ take (t - c) spare
  settle t c merged extra spare h = elim (Bool-cases (leb t c)) [
    | inl e ↦
        let none_needed : t - c ≡ 0 = ground arith in
        rw e (sym (ap (λ (n : ℕ). merged ++ take n spare) none_needed ∙ append-nil merged))
    | inr e ↦ rw e (ap (λ (l : List (ScoredVideo f)). merged ++ l) h)
  ]

  -- The videos of the pool that do not stand in the page.
  abbrev pub spare : (merged fresh : List (ScoredVideo f)) → List (ScoredVideo f)
  spare merged fresh = keep (λ w. not (contains w.video_id (ids_of merged))) fresh

  injected :
      (share : ℕ → ℕ) (m v : ScoredVideo f) (ms vs : List (ScoredVideo f))
      → let merged = m ∷ ms in
        let fresh = v ∷ vs in
        fresh_injection share merged fresh
        ≡ merged
          ++ take (target share merged - count_fresh (ids_of fresh) merged) (spare merged fresh)
  unfolding fresh_injection
  injected share m v ms vs =
      let merged = m ∷ ms in
      let fresh = v ∷ vs in
      let current = count_fresh (ids_of fresh) merged in
      settle (target share merged) current merged
        (inject (ids_of merged) (target share merged - current) fresh) (spare merged fresh)
        (inject_lem (ids_of merged) (target share merged - current) fresh)

  -- Of a page and a fresh pool that are not empty, whatever the ratio: the result is the page,
  -- followed by the first of those videos of the pool that do not stand in the page; and its number
  -- of fresh videos is that of the page, raised towards the target (at least 1) as far as the pool
  -- has such videos.
  pub fresh_injection_lem :
      (share : ℕ → ℕ) (m v : ScoredVideo f) (ms vs : List (ScoredVideo f))
      → let merged = m ∷ ms in
        let fresh = v ∷ vs in
        let needed = target share merged - count_fresh (ids_of fresh) merged in
        (fresh_injection share merged fresh ≡ merged ++ take needed (spare merged fresh))
        × (count_fresh (ids_of fresh) (fresh_injection share merged fresh)
            ≡ count_fresh (ids_of fresh) merged + min needed (length (spare merged fresh)))
  fresh_injection_lem share m v ms vs =
      let merged = m ∷ ms in
      let fresh = v ∷ vs in
      let needed = target share merged - count_fresh (ids_of fresh) merged in
      let extra = take needed (spare merged fresh) in
      let all = All-take (In (ids_of fresh)) needed (spare merged fresh) (
        All-keep (In (ids_of fresh)) (λ w. not (contains w.video_id (ids_of merged))) fresh
          (ids_of-In fresh)) in
      (
        injected share m v ms vs,
        rw (injected share m v ms vs) (
            count_fresh-append (ids_of fresh) merged extra
            ∙ ap (λ (n : ℕ). count_fresh (ids_of fresh) merged + n)
                (count_fresh-All (ids_of fresh) extra all
                  ∙ length-take needed (spare merged fresh))),
      )

  -- What the injection can hold: the page, and videos of the pool.
  pub All-fresh_injection :
      (P : ScoredVideo f → Type 0) (share : ℕ → ℕ) (merged fresh : List (ScoredVideo f))
      → All P merged
      → All P fresh
      → All P (fresh_injection share merged fresh)
  unfolding fresh_injection
  All-fresh_injection P share [] fresh h k = tt
  All-fresh_injection P share (m ∷ ms) [] h k = h
  All-fresh_injection P share (m ∷ ms) (v ∷ vs) h k =
      let merged = m ∷ ms in
      let fresh = v ∷ vs in
      let needed = target share merged - count_fresh (ids_of fresh) merged in
      rw (injected share m v ms vs) (
        All-append P merged (take needed (spare merged fresh)) h (
          All-take P needed (spare merged fresh)
            (All-keep P (λ w. not (contains w.video_id (ids_of merged))) fresh k)))

  -- A page of at most two whose share rounds to nothing grows by at most one.
  pub length-fresh_injection :
      (share : ℕ → ℕ) (merged fresh : List (ScoredVideo f))
      → length merged ≤ 2
      → share (length merged) ≡ 0
      → length (fresh_injection share merged fresh) ≤ 3
  unfolding fresh_injection
  length-fresh_injection share [] fresh two none_shared = omega arith
  length-fresh_injection share (m ∷ ms) [] two none_shared = omega (arith, two)
  length-fresh_injection share (m ∷ ms) (v ∷ vs) two none_shared =
      let merged = m ∷ ms in
      let fresh = v ∷ vs in
      let one : target share merged ≡ 1 = ground (arith, none_shared) in
      let needed = target share merged - count_fresh (ids_of fresh) merged in
      let extra = take needed (spare merged fresh) in
      let size = length-append merged extra in
      let most = length-take needed (spare merged fresh) in
      rw (injected share m v ms vs) (omega (arith, size, most, one, two))
