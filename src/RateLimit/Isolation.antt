-- ===== src/RateLimit/Isolation.antt =====
-- The token bucket of one key is not touched by the requests of another.
use text.Mathlib.Text.{◌==◌ as str_eq}
use text.Mathlib.TextEquality.{eq_iff}
use text.Mathlib.TextPositions.{eq_refl}
use mathlib.Core.Path.{subst}
use go_shortvideo.Prelude.{
  ℕ, ◌≡◌, refl, ap, sym, ◌∙◌, Bool, true, false, String, Option, none, some, List, [], ◌∷◌,
  if◌then◌else◌, Bool-cases, Option-cases, inl, inr,
}
use go_shortvideo.TextDict.{lookup, insert, lookup-insert}
use go_shortvideo.RateLimit.Buckets.{TokenBucket, Visitor, Limiter, get_limiter, allow}

module _ (tokens : TokenBucket) where
  -- The requests of several clients, and their answers.
  unfoldable pub allow_each : List (ℕ × String) → Limiter tokens → List (String × Bool)
  allow_each [] l = []
  allow_each ((now, key) ∷ rs) l =
      let (ok, l') = allow tokens now key l in (key, ok) ∷ allow_each rs l'

  -- One bucket alone.
  unfoldable pub bucket_run : List ℕ → tokens.Bucket → List Bool
  bucket_run [] b = []
  bucket_run (now ∷ ts) b = let (ok, b') = tokens.allow now b in ok ∷ bucket_run ts b'

  abbrev pub bucket_in : Option tokens.Bucket → Limiter tokens → tokens.Bucket
  bucket_in none l = tokens.new_limiter l.rate l.burst
  bucket_in (some b) l = b

  abbrev pub held : String → Limiter tokens → Option tokens.Bucket
  held key l = elim (lookup key l.visitors) [ none ↦ none | some v ↦ some v.limiter ]

-- What concerns one client, of a list by clients.
abbrev pub only {ℓ} : {A : Type ℓ} → String → List (String × A) → List A
only key [] = []
only key ((k, a) ∷ rest) = let others = only key rest in if str_eq k key then a ∷ others else others

abbrev pub times_of : String → List (ℕ × String) → List ℕ
times_of key [] = []
times_of key ((now, k) ∷ rest) =
    let others = times_of key rest in if str_eq k key then now ∷ others else others

module _ (tokens : TokenBucket) where
  held-insert :
      (key other : String) (v : Visitor tokens) (l : Limiter tokens)
      → held tokens other (record l { visitors = insert key v l.visitors })
        ≡ (if str_eq key other then some v.limiter else held tokens other l)
  held-insert key other v l =
      ap (λ (o : Option (Visitor tokens)). elim o [ none ↦ none | some v ↦ some v.limiter ])
        (lookup-insert key other v l.visitors)
      ∙ branch (str_eq key other)
    where
      branch :
          (b : Bool)
          → elim (if b then some v else lookup other l.visitors) [
            | none ↦ none
            | some v ↦ some v.limiter
          ]
            ≡ (if b then some v.limiter else held tokens other l)
      branch true = refl
      branch false = refl

  -- `other` is any key; the bucket of `key` is the one that is asked.
  Took : (key other : String) → Limiter tokens → tokens.Bucket × Limiter tokens → Type 0
  Took key other l r =
      (r.0 ≡ bucket_in tokens (held tokens key l) l)
      × ((held tokens other r.1 ≡ (if str_eq key other then some r.0 else held tokens other l))
          × ((r.1.rate ≡ l.rate) × (r.1.burst ≡ l.burst)))

  Took-get_limiter :
      (now : ℕ) (key other : String) (l : Limiter tokens)
      → Took key other l (get_limiter tokens now key l)
  unfolding get_limiter Took
  Took-get_limiter now key other l = elim (Option-cases (lookup key l.visitors)) [
    | inl e ↦
        rw (e, get_limiter)
          (rw (e, held, bucket_in) refl, (held-insert key other _ l, (refl, refl)))
    | inr (v, e) ↦
        rw (e, get_limiter)
          (rw (e, held, bucket_in) refl, (held-insert key other _ l, (refl, refl)))
  ]

  abbrev bucket_of : String → Limiter tokens → tokens.Bucket
  bucket_of key l = bucket_in tokens (held tokens key l) l

  bucket_of-cong :
      (key : String) (l l' : Limiter tokens)
      → held tokens key l' ≡ held tokens key l
      → l'.rate ≡ l.rate
      → l'.burst ≡ l.burst
      → bucket_of key l' ≡ bucket_of key l
  bucket_of-cong key l l' h r b = ap (λ o. bucket_in tokens o l') h ∙ same (held tokens key l)
    where
      same : (o : Option tokens.Bucket) → bucket_in tokens o l' ≡ bucket_in tokens o l
      same none = cc (r, b)
      same (some x) = refl

  allow-own :
      (now : ℕ) (key : String) (l : Limiter tokens)
      → ((allow tokens now key l).0 ≡ (tokens.allow now (bucket_of key l)).0)
        × (bucket_of key (allow tokens now key l).1 ≡ (tokens.allow now (bucket_of key l)).1)
  unfolding allow Took
  allow-own now key l =
      let (lim, l') = get_limiter tokens now key l in
      let took = Took-get_limiter now key key l in
      let v : Visitor tokens = record { limiter = (tokens.allow now lim).1; last_seen = now } in
      let last = record l' { visitors = insert key v l'.visitors } in
      (
        ap (λ b. (tokens.allow now b).0) took.0,
        ap (λ o. bucket_in tokens o last)
              (held-insert key key v l'
                ∙ ap (λ t. if t then some v.limiter else held tokens key l') (eq_refl key))
            ∙ ap (λ b. (tokens.allow now b).1) took.0,
      )

  allow-other :
      (now : ℕ) (key other : String) (l : Limiter tokens)
      → str_eq key other ≡ false
      → bucket_of other (allow tokens now key l).1 ≡ bucket_of other l
  unfolding allow Took
  allow-other now key other l apart =
      let (lim, l') = get_limiter tokens now key l in
      let (asked, (others, (rate, burst))) = Took-get_limiter now key other l in
      let v : Visitor tokens = record { limiter = (tokens.allow now lim).1; last_seen = now } in
      let last : Limiter tokens = record l' { visitors = insert key v l'.visitors } in
      bucket_of-cong other l last
        (held-insert key other v l'
          ∙ ap (λ t. if t then some v.limiter else held tokens other l') apart
          ∙ others
          ∙ ap (λ t. if t then some lim else held tokens other l) apart)
        rate burst

  -- The answers that one client gets, among the requests of any others, are those of a token bucket
  -- that serves this client alone: it begins as the bucket that the limiter holds for the client, or
  -- as a new one.
  pub only-allow_each :
      (key : String) (rs : List (ℕ × String)) (l : Limiter tokens)
      → only key (allow_each tokens rs l)
        ≡ bucket_run tokens (times_of key rs) (bucket_in tokens (held tokens key l) l)
  unfolding allow_each bucket_run
  only-allow_each key [] l = refl
  only-allow_each key ((now, k) ∷ rs) l =
      let l' = (allow tokens now k l).1 in
      let rest = only-allow_each key rs l' in
      elim (Bool-cases (str_eq k key)) [
        | inl e ↦
            let same : k ≡ key = (eq_iff k key).0 e in
            let own = allow-own now k l in
            let later : only key (allow_each tokens rs l')
                ≡ bucket_run tokens (times_of key rs) (tokens.allow now (bucket_of k l)).1 =
              rest
              ∙ ap (λ j. bucket_run tokens (times_of key rs) (bucket_of j l')) (sym same)
              ∙ ap (bucket_run tokens (times_of key rs)) own.1 in
            rw e (
              subst
                (λ j.
                  (allow tokens now k l).0 ∷ only key (allow_each tokens rs l')
                  ≡ (tokens.allow now (bucket_of j l)).0
                    ∷ bucket_run tokens (times_of key rs) (tokens.allow now (bucket_of j l)).1)
                same (λ i. own.0 i ∷ later i))
        | inr e ↦ rw e (rest ∙ ap (bucket_run tokens (times_of key rs)) (allow-other now k key l e))
      ]
