-- ===== src/Tests/LimitRuns.antt =====
-- The limiters and the tokens at small inputs, over a Redis, a bucket and a token library in memory.
use text.Mathlib.Text.{◌==◌ as str_eq}
use text.Mathlib.TextEquality.{eq_iff}
use text.Mathlib.TextPositions.{eq_refl}
use mathlib.Core.Path.{subst}
use go_shortvideo.Prelude.{
  ℕ, ◌+◌, ◌-◌, ◌<◌, ◌≡◌, ◌≢◌, refl, ap, Bool, true, false, ◌&&◌, String, Option, none, some, List,
  [], ◌∷◌, ◌++◌, ◌==◌, ==_refl, ltb, arith, if◌then◌else◌, Bool-cases, inl, inr,
}
use go_shortvideo.Prelude.Int.{ℤ, pos, negsuc, pos_part, ◌+ℤ◌}
use go_shortvideo.Strconv.{codes, parse_int}
use go_shortvideo.TextDict.{lookup}
use go_shortvideo.RateLimit.Decimal.{format_int, parse_int-format_int}
use go_shortvideo.RateLimit.Buckets.{TokenBucket, new}
use go_shortvideo.RateLimit.Isolation.{allow_each, bucket_run, only, only-allow_each}
use mathlib.Core.List.{Permᴰ}
use mathlib.Core.List.Permᴰ
use go_shortvideo.RateLimit.Window.{
  WindowKey, Counters, RedisPathLimiter, Rules, rule_for, rule_from,
}
use go_shortvideo.RateLimit.Bounds.{allow_all, granted, granted-allow_all}
use go_shortvideo.Auth.Context.{Stored, Context}
use go_shortvideo.Auth.Token.{
  JwtLibrary, Method, Jwt, bearer, generate_token, gin_middleware, user_id_from_context,
}
use go_shortvideo.Auth.RoundTrip.{gin_middleware-generate_token}

parse_int-format_int_example :
    (out : List ℕ) × ((format_int (negsuc 122) ≡ some out) × (parse_int out ≡ some (negsuc 122)))
parse_int-format_int_example = parse_int-format_int (negsuc 122) (omega arith)

abbrev pub same_bytes : List ℕ → List ℕ → Bool
same_bytes [] [] = true
same_bytes [] (y ∷ ys) = false
same_bytes (x ∷ xs) [] = false
same_bytes (x ∷ xs) (y ∷ ys) = x == y && same_bytes xs ys

same_bytes_refl : (xs : List ℕ) → same_bytes xs xs ≡ true
same_bytes_refl [] = refl
same_bytes_refl (x ∷ xs) = rw (==_refl x) (same_bytes_refl xs)

same_bytes_lem : (xs ys : List ℕ) → same_bytes xs ys ≡ true → xs ≡ ys
same_bytes_lem [] [] e = refl
same_bytes_lem [] (y ∷ ys) e = ground arith
same_bytes_lem (x ∷ xs) [] e = ground arith
same_bytes_lem (x ∷ xs) (y ∷ ys) e = grind (arith, same_bytes_lem xs ys)

abbrev same_key : WindowKey → WindowKey → Bool
same_key k j =
    str_eq k.route j.route && (same_bytes k.client j.client && same_bytes k.second j.second)

same_key_refl : (k : WindowKey) → same_key k k ≡ true
same_key_refl k = rw (eq_refl k.route, same_bytes_refl k.client, same_bytes_refl k.second) refl

key_path : (k j : WindowKey) → k.route ≡ j.route → k.client ≡ j.client → k.second ≡ j.second → k ≡ j
key_path k j r c s = λ i. record { route = r i; client = c i; second = s i }

and_true : (a b c : Bool) → a && (b && c) ≡ true → (a ≡ true) × ((b ≡ true) × (c ≡ true))
and_true true true true e = (refl, (refl, refl))
and_true true true false e = ground arith
and_true true false c e = ground arith
and_true false b c e = ground arith

different_key : (k j : WindowKey) → k ≢ j → same_key k j ≡ false
different_key k j ne = elim (Bool-cases (same_key k j)) [
  | inl e ↦
      let (r, (c, s)) = and_true _ _ _ e in
      absurd (
        ne (
          key_path k j ((eq_iff k.route j.route).0 r) (same_bytes_lem k.client j.client c)
            (same_bytes_lem k.second j.second s)))
  | inr e ↦ e
]

counted : (k : WindowKey) (n : ℕ) (s : WindowKey → ℕ) → some (s k + 1) ≡ some n → n ≡ s k + 1
counted k n s e = ground arith

abbrev memory : Counters
memory = record {
  State = WindowKey → ℕ;
  counter = λ k s. s k;
  incr = λ k s. (some (s k + 1), λ j. if same_key k j then s j + 1 else s j);
  expire = λ k life s. s;
  incr-some = λ k n s e. (counted k n s e, rw (same_key_refl k) refl);
  counter-incr = λ k j s ne. rw (different_key k j ne) refl;
  counter-expire = λ k j life s. refl;
}

abbrev limiter : RedisPathLimiter
limiter = record {
  rules = ("/api/login", (pos 1, pos 1)) ∷ ("/api/feed", (pos 4, pos 4)) ∷ [];
  fallback = (pos 5, negsuc 0);
  window = 1000000000;
}

-- The requests meet the two rules in both orders.
abbrev login_rule : String × (ℤ × ℤ)
login_rule = ("/api/login", (pos 1, pos 1))

abbrev feed_rule : String × (ℤ × ℤ)
feed_rule = ("/api/feed", (pos 4, pos 4))

abbrev requests : List (ℕ × Rules)
requests =
    (7, login_rule ∷ feed_rule ∷ [])
    ∷ (8, feed_rule ∷ login_rule ∷ [])
    ∷ (7, feed_rule ∷ login_rule ∷ [])
    ∷ (7, login_rule ∷ feed_rule ∷ [])
    ∷ []

granted-allow_all_example :
    (out : List (ℕ × Bool) × (WindowKey → ℕ)) × ((allow_all memory limiter "/api/login"
          (codes "ip:1")
          requests
          (λ k. 0)
        ≡ some out)
      × ((out.0 ≡ (7, true) ∷ (8, true) ∷ (7, true) ∷ (7, false) ∷ []) × (granted 7 out.0 ≡ 2)))
unfolding rule_for rule_from ◌+ℤ◌
granted-allow_all_example =
    let in_order = Permᴰ.refl (login_rule ∷ feed_rule ∷ []) in
    let swapped = Permᴰ.swap refl refl in
    granted-allow_all memory (λ k s e. ground arith) limiter "/api/login" (codes "ip:1") login_rule
      7 requests (λ k. 0) ((λ e. refl), ((λ e. absurd (ground arith)), tt))
      (
        (omega arith, in_order),
        ((omega arith, swapped), ((omega arith, swapped), ((omega arith, in_order), tt))),
      )
      (λ u h. refl) (omega arith)

-- A bucket that is never filled again.
abbrev bucket : TokenBucket
bucket = record {
  Bucket = ℕ;
  Limit = ℤ;
  of_int = λ n. n;
  new_limiter = λ r burst. pos_part burst;
  allow = λ now n. (ltb 0 n, n - 1);
}

only-allow_each_example :
    only "a" (allow_each bucket ((1, "a") ∷ (1, "b") ∷ (2, "a") ∷ []) (new bucket (pos 1) (pos 1)))
    ≡ true ∷ false ∷ []
unfolding new bucket_run lookup
only-allow_each_example =
    only-allow_each bucket "a" ((1, "a") ∷ (1, "b") ∷ (2, "a") ∷ []) (new bucket (pos 1) (pos 1))

-- A token that shows all that it is made of.
abbrev pub sign_open : ℕ → ℕ → ℤ → List ℕ → Option (List ℕ)
sign_open issued expires (pos id) secret = some (expires ∷ id ∷ secret)
sign_open issued expires (negsuc id) secret = none

abbrev pub check : Option (List ℕ) → (now expires id : ℕ) → List ℕ → Option (Bool × ℤ)
check none now expires id secret = none
check (some key) now expires id secret =
    if same_bytes secret key then some (ltb now expires, pos id) else none

abbrev pub parse_open : ℕ → List ℕ → (Method → Option (List ℕ)) → Option (Bool × ℤ)
parse_open now [] key = none
parse_open now (e ∷ []) key = none
parse_open now (e ∷ id ∷ secret) key = check (key Method.hmac) now e id secret

some_inj : (x y : List ℕ) → some x ≡ some y → x ≡ y
some_inj x y e = ap (λ (o : Option (List ℕ)). elim o [ none ↦ x | some z ↦ z ]) e

pub parse_open_lem :
    (issued expires now : ℕ) (user : ℤ) (secret token : List ℕ) (key : Method → Option (List ℕ))
    → sign_open issued expires user secret ≡ some token
    → now < expires
    → key Method.hmac ≡ some secret
    → parse_open now token key ≡ some (true, user)
parse_open_lem issued expires now (pos id) secret token key e early k =
    subst (λ t. parse_open now t key ≡ some (true, pos id)) (some_inj _ _ e)
      (let small : ltb now expires ≡ true = ground arith in
        rw (k, same_bytes_refl secret, small) refl)
parse_open_lem issued expires now (negsuc id) secret token key e early k = ground arith

abbrev pub library : JwtLibrary
library = record {
  sign = sign_open;
  parse_with_claims = parse_open;
  parse_with_claims-sign = parse_open_lem;
}

abbrev issuer : Jwt
issuer = record { secret = codes "s3cret"; ttl = 3600; allow_x_user_id = true }

abbrev request : Context
request = record {
  user_id = Stored.unset;
  allow_x_user_id = Stored.value true;
  authorization = bearer ++ (3700 ∷ 5 ∷ codes "s3cret");
  x_user_id = codes "9";
  x_forwarded_for = [];
  client_ip = codes "10.0.0.1";
}

gin_middleware-generate_token_example :
    (c' : Context) × ((gin_middleware library 3000
          (record issuer { allow_x_user_id = false })
          request
        ≡ some c')
      × (user_id_from_context c' ≡ some 5))
unfolding generate_token
gin_middleware-generate_token_example =
    gin_middleware-generate_token library issuer (record issuer { allow_x_user_id = false }) 100
      3000 4 (3700 ∷ 5 ∷ codes "s3cret") request refl (omega arith) refl refl
