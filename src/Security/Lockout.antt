-- ===== src/Security/Lockout.antt =====
-- A client that fails to log in again and again.
use text.Mathlib.TextPositions.{eq_refl}
use go_shortvideo.Prelude.{
  ℕ, suc, ◌+◌, ◌≡◌, ◌<◌, ◌≤◌, refl, true, false, not, ◌&&◌, String, none, some, List, [], ◌∷◌,
  arith, ltb, leb, if◌then◌else◌, length, All, Bool-cases, inl, inr, ap, ◌∙◌,
}
use go_shortvideo.TextDict.{lookup, insert, lookup-insert}
use go_shortvideo.Security.Login.{
  FailRecord, LoginProtection, allow, record_failure, first_failure, count_failure, older,
}

-- The failures of one client, one after the other.
unfoldable pub fail_all : String → List ℕ → LoginProtection → LoginProtection
fail_all ip [] p = p
fail_all ip (t ∷ ts) p = fail_all ip ts (record_failure t ip p)

abbrev pub last_time : ℕ → List ℕ → ℕ
last_time t [] = t
last_time t (u ∷ us) = last_time u us

-- What stands on record after the failures `t ∷ ts`, when there were `r.count` before.
abbrev piled : LoginProtection → FailRecord → ℕ → List ℕ → FailRecord
piled p r t ts = record {
  count = r.count + 1 + length ts;
  first_try = r.first_try;
  blocked_until =
      if leb p.max_failures (r.count + 1 + length ts)
      then some (last_time t ts + p.block_time)
      else r.blocked_until;
}

abbrev pub put : String → FailRecord → LoginProtection → LoginProtection
put ip r p = record p { failures = insert ip r p.failures }

pub lookup-put :
    (ip : String) (r : FailRecord) (p : LoginProtection) → lookup ip (put ip r p).failures ≡ some r
lookup-put ip r p = ground (arith, lookup-insert ip ip r p.failures, eq_refl ip)

pub fail_once :
    (ip : String) (p : LoginProtection) (r : FailRecord) (t : ℕ)
    → lookup ip p.failures ≡ some r
    → t ≤ r.first_try + p.window
    → record_failure t ip p ≡ put ip (count_failure t p r) p
unfolding record_failure
fail_once ip p r t h early = ground arith

piled_nil : (p : LoginProtection) (r : FailRecord) (t : ℕ) → count_failure t p r ≡ piled p r t []
unfolding count_failure
piled_nil p r t = let n : r.count + 1 + 0 ≡ r.count + 1 = omega arith in rw n refl

piled_cons :
    (ip : String) (p : LoginProtection) (r : FailRecord) (t u : ℕ) (us : List ℕ)
    → piled (put ip (count_failure t p r) p) (count_failure t p r) u us ≡ piled p r t (u ∷ us)
unfolding count_failure
piled_cons ip p r t u us =
    let n : r.count + 1 + 1 + length us ≡ r.count + 1 + suc (length us) = omega arith in
    rw n (elim (Bool-cases (leb p.max_failures (r.count + 1 + suc (length us)))) [
      | inl e ↦ rw e refl
      | inr e ↦
          let low : leb p.max_failures (r.count + 1) ≡ false = ground arith in rw (e, low) refl
    ])

fail_all_lem :
    (ip : String) (p : LoginProtection) (r : FailRecord) (t : ℕ) (ts : List ℕ)
    → lookup ip p.failures ≡ some r
    → All (λ u. u ≤ r.first_try + p.window) (t ∷ ts)
    → let p' = fail_all ip (t ∷ ts) p in
      (lookup ip p'.failures ≡ some (piled p r t ts)) × (p'.window ≡ p.window)
unfolding fail_all count_failure
fail_all_lem ip p r t [] h early =
    rw (fail_once ip p r t h early.0)
      (lookup-put ip (count_failure t p r) p ∙ ap some (piled_nil p r t), refl)
fail_all_lem ip p r t (u ∷ us) h early =
    let r' = count_failure t p r in
    let rest = fail_all_lem ip (put ip r' p) r' u us (lookup-put ip r' p) early.1 in
    let moved =
      ap (λ (q : LoginProtection). fail_all ip (u ∷ us) q) (fail_once ip p r t h early.0) in
    (
      ap (λ (q : LoginProtection). lookup ip q.failures) moved
          ∙ rest.0
          ∙ ap some (piled_cons ip p r t u us),
      ap (λ (q : LoginProtection). q.window) moved ∙ rest.1,
    )

pub fail_first :
    (ip : String) (p : LoginProtection) (t : ℕ)
    → lookup ip p.failures ≡ none
    → record_failure t ip p ≡ put ip (first_failure t) p
unfolding record_failure
fail_first ip p t h = ground arith

pub allow_on :
    (now : ℕ) (ip : String) (p : LoginProtection) (r : FailRecord)
    → lookup ip p.failures ≡ some r
    → (allow now ip p).0 ≡ (
        if older now p.window r
        then true
        else elim r.blocked_until [ none ↦ true | some until ↦ not (ltb now until) ])
unfolding allow
allow_on now ip p r h = ground arith

-- A client of whom nothing is on record fails at `t`, and at the times `ts` inside the window that
-- opened at `t`. With a limit of at least two, it is then refused exactly while that window lasts,
-- and the failures have reached the limit, and the block since the last of them lasts; so a block
-- that is longer than the window ends with the window.
pub allow-fail_all :
    (ip : String) (p : LoginProtection) (t now : ℕ) (ts : List ℕ)
    → lookup ip p.failures ≡ none
    → 1 < p.max_failures
    → All (λ u. u ≤ t + p.window) ts
    → (allow now ip (fail_all ip (t ∷ ts) p)).0
      ≡ not (
          leb now (t + p.window)
          && leb p.max_failures (1 + length ts)
          && ltb now (last_time t ts + p.block_time))
unfolding fail_all first_failure
allow-fail_all ip p t now [] h two early = rw (fail_first ip p t h) (
    ground (
      arith,
      allow_on now ip (put ip (first_failure t) p) (first_failure t)
          (lookup-put ip (first_failure t) p),
    ))
allow-fail_all ip p t now (u ∷ us) h two early =
    let p' = put ip (first_failure t) p in
    let all = fail_all_lem ip p' (first_failure t) u us (lookup-put ip (first_failure t) p) early in
    rw (fail_first ip p t h) (
      ground (
        arith,
        allow_on now ip (fail_all ip (u ∷ us) p') (piled p' (first_failure t) u us) all.0,
        all.1,
      ))
