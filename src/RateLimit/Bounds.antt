-- ===== src/RateLimit/Bounds.antt =====
-- How many requests of one client the limiter over Redis lets through in a second.
use go_shortvideo.Prelude.{
  ℕ, ◌+◌, ◌-◌, ◌^◌, ◌<◌, ◌≡◌, ◌≢◌, refl, ap, sym, ◌∙◌, Bool, true, false, ◌&&◌, String, Option,
  none, some, List, [], ◌∷◌, ◌==◌, ltb, min, arith, if◌then◌else◌, All, Bool-cases, Option-cases,
  inl, inr,
}
use mathlib.Core.Path.{subst, subst⁻¹, ap₂}
use mathlib.Core.List.{Permᴰ}
use text.Mathlib.Text.{starts_with}
use go_shortvideo.RateLimit.Order.{rule_for-order}
use go_shortvideo.Prelude.Int.{ℤ, pos, pos_part, ◌+ℤ◌, leb_ℤ}
use go_shortvideo.RateLimit.Decimal.{format_int, parse_int-format_int}
use go_shortvideo.Strconv.{parse_int}
use go_shortvideo.RateLimit.Window.{
  Counters, WindowKey, RedisPathLimiter, Rules, second_ns, rule_for, after_incr, count_in, allow_by,
  allow,
}

-- The second `t` as the key spells it.
abbrev second : ℕ → List ℕ
second t = elim (format_int (pos t)) [ none ↦ [] | some out ↦ out ]

second_lem :
    (t : ℕ)
    → t < 2 ^ 63
    → (format_int (pos t) ≡ some (second t)) × (parse_int (second t) ≡ some (pos t))
second_lem t h =
    let (out, (e, r)) = parse_int-format_int (pos t) h in
    let this : second t ≡ out =
      ap (λ (o : Option (List ℕ)). elim o [ none ↦ [] | some out ↦ out ]) e in
    (e ∙ ap some (sym this), ap parse_int this ∙ r)

second_inj : (t u : ℕ) → t < 2 ^ 63 → u < 2 ^ 63 → second t ≡ second u → t ≡ u
second_inj t u ht hu e =
    ap (λ (o : Option ℤ). elim o [ none ↦ 0 | some n ↦ pos_part n ])
      (sym (second_lem t ht).1 ∙ ap parse_int e ∙ (second_lem u hu).1)

module _ (redis : Counters) (pl : RedisPathLimiter) (path : String) (key : List ℕ) where
  -- The requests of one client for one path: the second at which each is made, and the order in which
  -- it meets the rules; and when each was made, and whether it was let through.
  unfoldable pub allow_all : List (ℕ × Rules) → redis.State → Option (List (ℕ × Bool) × redis.State)
  allow_all [] s = some ([], s)
  allow_all ((t, order) ∷ ts) s = elim (allow redis pl order t path key s) [
    | none ↦ none
    | some (ok, s') ↦ elim (allow_all ts s') [
      | none ↦ none
      | some (rest, s'') ↦ some ((t, ok) ∷ rest, s'')
    ]
  ]

  abbrev pub key_of : ℕ → WindowKey
  key_of t = record { route = (rule_for pl.rules pl path).0; client = key; second = second t }

  -- The limit for the path, where one below 0 counts as 0.
  abbrev pub limit : ℕ
  limit = let cfg = (rule_for pl.rules pl path).1 in pos_part (cfg.0 +ℤ cfg.1)

abbrev pub seconds : List (ℕ × Rules) → List ℕ
seconds [] = []
seconds ((t, order) ∷ ts) = t ∷ seconds ts

abbrev pub granted : ℕ → List (ℕ × Bool) → ℕ
granted t [] = 0
granted t ((u, ok) ∷ rest) = (if u == t && ok then 1 else 0) + granted t rest

abbrev pub made_at : ℕ → List ℕ → ℕ
made_at t [] = 0
made_at t (u ∷ us) = (if u == t then 1 else 0) + made_at t us

-- Which requests are let through: those that less than `most` others came before in their second.
abbrev pub first_of : (most : ℕ) → (earlier later : List ℕ) → List (ℕ × Bool)
first_of most earlier [] = []
first_of most earlier (t ∷ ts) = (t, ltb (made_at t earlier) most) ∷ first_of most (t ∷ earlier) ts

module _ (redis : Counters) (up : (k : WindowKey) (s : redis.State) → (redis.incr k s).0 ≢ none)
    (pl : RedisPathLimiter) (path : String) (key : List ℕ) where
  -- What one request answers, and what it does to the counters of the client.
  abbrev One : ℕ → redis.State → Bool × redis.State → Type 0
  One t s r =
      (r.0 ≡ ltb (redis.counter (key_of redis pl path key t) s) (limit redis pl path key))
      × ((0 < limit redis pl path key
            → redis.counter (key_of redis pl path key t) r.1
              ≡ redis.counter (key_of redis pl path key t) s + 1)
          × ((u : ℕ)
              → u < 2 ^ 63
              → t ≢ u
              → redis.counter (key_of redis pl path key u) r.1
                ≡ redis.counter (key_of redis pl path key u) s))

  counter_after :
      (again : Bool) (k j : WindowKey) (life : ℕ) (s : redis.State)
      → redis.counter j (if again then redis.expire k life s else s) ≡ redis.counter j s
  counter_after true k j life s = redis.counter-expire k j life s
  counter_after false k j life s = refl

  within :
      (z : ℤ) (n c most : ℕ)
      → pos_part z ≡ most
      → leb_ℤ z (pos 0) ≡ false
      → n ≡ c + 1
      → leb_ℤ (pos n) z ≡ ltb c most
  within z n c most e high k = ground arith

  count_in_lem :
      (z : ℤ) (t : ℕ) (s : redis.State)
      → t < 2 ^ 63
      → pos_part z ≡ limit redis pl path key
      → leb_ℤ z (pos 0) ≡ false
      → One t s (count_in redis pl z (key_of redis pl path key t) s)
  unfolding count_in after_incr
  count_in_lem z t s small e high =
      elim (Option-cases (redis.incr (key_of redis pl path key t) s).0) [
        | inl missing ↦ absurd (up (key_of redis pl path key t) s missing)
        | inr (n, answered) ↦
            let k = key_of redis pl path key t in
            let s' = (redis.incr k s).1 in
            let (val, moved) = redis.incr-some k n s answered in
            let life = pl.window + second_ns in
            subst⁻¹ (One t s) (ap (λ a. after_incr redis pl z k a s') answered) (
              within z n (redis.counter k s) (limit redis pl path key) e high val,
              (
                λ positive. counter_after (n == 1) k k life s' ∙ moved,
                λ u hu ne.
                    counter_after (n == 1) k (key_of redis pl path key u) life s'
                    ∙ redis.counter-incr k (key_of redis pl path key u) s (λ same.
                      ne (second_inj t u small hu (ap (λ (w : WindowKey). w.second) same))),
              ),
            )
      ]

  allow_same :
      (order : Rules) (t : ℕ) (s : redis.State)
      → rule_for order pl path ≡ rule_for pl.rules pl path
      → allow redis pl order t path key s ≡ allow redis pl pl.rules t path key s
  unfolding allow
  allow_same order t s rule = ap (λ r. allow_by redis pl r t key s) rule

  allow_lem :
      (t : ℕ) (s : redis.State)
      → t < 2 ^ 63
      → (r : Bool × redis.State) × ((allow redis pl pl.rules t path key s ≡ some r) × One t s r)
  unfolding allow allow_by
  allow_lem t s small =
      let cfg = (rule_for pl.rules pl path).1 in
      let z = cfg.0 +ℤ cfg.1 in
      elim (Bool-cases (leb_ℤ z (pos 0))) [
        | inl e ↦
            let closed : limit redis pl path key ≡ 0 = none_left z e in
            (
              (false, s),
              (
                rw e refl,
                (
                  rw closed (never (redis.counter (key_of redis pl path key t) s)),
                  (λ positive. absurd (omega arith), λ u hu ne. refl),
                ),
              ),
            )
        | inr e ↦ (
          count_in redis pl z (key_of redis pl path key t) s,
          (rw (e, (second_lem t small).0) refl, count_in_lem z t s small refl e),
        )
      ]
    where
      none_left : (z : ℤ) → leb_ℤ z (pos 0) ≡ true → pos_part z ≡ 0
      none_left z e = ground arith

      never : (c : ℕ) → false ≡ ltb c 0
      never c = ground arith

  at_once :
      (t : ℕ) (ts : List ℕ) (ok : Bool) (out : List (ℕ × Bool)) (most c after : ℕ)
      → ok ≡ ltb c most
      → (0 < most → after ≡ c + 1)
      → granted t out ≡ min (made_at t ts) (most - after)
      → granted t ((t, ok) ∷ out) ≡ min (made_at t (t ∷ ts)) (most - c)
  at_once t ts ok out most c after o more rest = ground arith

  later_on :
      (t u : ℕ) (ts : List ℕ) (ok : Bool) (out : List (ℕ × Bool)) (most c after : ℕ)
      → (t == u) ≡ false
      → after ≡ c
      → granted u out ≡ min (made_at u ts) (most - after)
      → granted u ((t, ok) ∷ out) ≡ min (made_at u (t ∷ ts)) (most - c)
  later_on t u ts ok out most c after apart kept rest = ground arith

  -- Every request meets one rule, the same.
  abbrev pub Asked : ℕ × Rules → Type 0
  Asked (t, order) = (t < 2 ^ 63) × (rule_for order pl path ≡ rule_for pl.rules pl path)

  first-lem : (c made most : ℕ) → (0 < most → c ≡ made) → ltb c most ≡ ltb made most
  first-lem c made most h = ground arith

  granted_from :
      (ts : List (ℕ × Rules)) (earlier : List ℕ) (s : redis.State)
      → All Asked ts
      → ((u : ℕ)
          → u < 2 ^ 63
          → 0 < limit redis pl path key
          → redis.counter (key_of redis pl path key u) s ≡ made_at u earlier)
      → (out : List (ℕ × Bool) × redis.State) × ((allow_all redis pl path key ts s ≡ some out)
          × ((out.0 ≡ first_of (limit redis pl path key) earlier (seconds ts))
              × ((t : ℕ)
                  → t < 2 ^ 63
                  → granted t out.0
                    ≡ min
                        (made_at t (seconds ts))
                        (limit redis pl path key - redis.counter (key_of redis pl path key t) s))))
  unfolding allow_all
  granted_from [] earlier s small before = (([], s), (refl, (refl, λ t ht. omega arith)))
  granted_from ((t, order) ∷ ts) earlier s ((ht, rule), small) before =
      let most = limit redis pl path key in
      let (r, (answered, (ok, (more, others)))) = allow_lem t s ht in
      let answer = allow_same order t s rule ∙ answered in
      let (out, (later, (rest, counts))) = granted_from ts (t ∷ earlier) r.1 small (λ u hu positive.
        elim (Bool-cases (t == u)) [
          | inl e ↦
              let same : t ≡ u = ground arith in
              subst (λ v. redis.counter (key_of redis pl path key v) r.1 ≡ made_at v (t ∷ earlier))
                same (more positive ∙ counted t earlier _ (before t ht positive))
          | inr e ↦
              let apart : t ≢ u = ground arith in
              let kept = others u hu apart in let old = before u hu positive in ground arith
        ]) in
      (
        ((t, r.0) ∷ out.0, out.1),
        (
          rw (answer, later, allow_all) refl,
          (
            ap₂ (λ (b : Bool) (l : List (ℕ × Bool)). (t, b) ∷ l)
                (ok ∙ first-lem _ (made_at t earlier) most (before t ht)) rest,
            λ u hu. elim (Bool-cases (t == u)) [
              | inl e ↦
                  let same : t ≡ u = ground arith in
                  subst
                    (λ v.
                      granted v ((t, r.0) ∷ out.0)
                      ≡ min (made_at v (t ∷ seconds ts))
                          (most - redis.counter (key_of redis pl path key v) s))
                    same (at_once t (seconds ts) r.0 out.0 _ _ _ ok more (counts t ht))
              | inr e ↦
                  let apart : t ≢ u = ground arith in
                  let kept = others u hu apart in
                  later_on t u (seconds ts) r.0 out.0 _ _ _ e kept (counts u hu)
            ],
          ),
        ),
      )
    where
      counted :
          (t : ℕ) (earlier : List ℕ) (c : ℕ)
          → c ≡ made_at t earlier
          → c + 1 ≡ made_at t (t ∷ earlier)
      counted t earlier c h = ground arith

  -- At most one of the rules is meant for the path, and each request meets the rules in an order of its
  -- own. Redis answers every count, and has counted no request of this client for this path yet. Then
  -- none of the requests that the client makes at the given seconds, in any order of them, panics; a
  -- request is let through exactly if less others than the limit for the path came before it within
  -- its second, the limit being rate and burst together; and so, in each second, as many are let
  -- through as there are, up to the limit.
  pub granted-allow_all :
      (rule : String × (ℤ × ℤ)) (t : ℕ) (ts : List (ℕ × Rules)) (s : redis.State)
      → All (λ r. starts_with path r.0 ≡ true → r ≡ rule) pl.rules
      → All (λ q. (q.0 < 2 ^ 63) × Permᴰ q.1 pl.rules) ts
      → ((u : ℕ) → u < 2 ^ 63 → redis.counter (key_of redis pl path key u) s ≡ 0)
      → t < 2 ^ 63
      → (out : List (ℕ × Bool) × redis.State) × ((allow_all redis pl path key ts s ≡ some out)
          × ((out.0 ≡ first_of (limit redis pl path key) [] (seconds ts))
              × (granted t out.0 ≡ min (made_at t (seconds ts)) (limit redis pl path key))))
  granted-allow_all rule t ts s only asked fresh ht =
      let (out, (returns, (first, counts))) =
        granted_from ts [] s (met ts asked) (λ u hu positive. fresh u hu) in
      (out, (returns, (first, omega (arith, counts t ht, fresh t ht))))
    where
      met :
          (ts : List (ℕ × Rules)) → All (λ q. (q.0 < 2 ^ 63) × Permᴰ q.1 pl.rules) ts → All Asked ts
      met [] h = tt
      met ((u, order) ∷ us) ((hu, p), h) =
          ((hu, rule_for-order path rule pl order p only), met us h)
