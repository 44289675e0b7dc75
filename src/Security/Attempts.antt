-- ===== src/Security/Attempts.antt =====
-- Log-ins through the middleware of the login protection: when the handler is no longer asked.
use mathlib.Core.Path.{subst}
use go_shortvideo.Prelude.{
  ℕ, zero, suc, ◌+◌, ◌≡◌, ◌<◌, ◌≤◌, refl, true, false, not, ◌&&◌, Bool, String, Option, none, some,
  List, [], ◌∷◌, arith, ltb, leb, if◌then◌else◌, length, map, All, ap, ◌∙◌, sym, length-map,
}
use go_shortvideo.TextDict.{lookup}
use go_shortvideo.Security.Login.{
  FailRecord, LoginProtection, allow, record_failure, first_failure, count_failure,
}
use go_shortvideo.Security.Guard.{LoginRequest, gin_middleware, note_status}
use go_shortvideo.Security.Lockout.{
  fail_all, last_time, allow-fail_all, put, lookup-put, fail_once, fail_first,
}

-- `POST /api/login`
abbrev pub login_from : String → LoginRequest
login_from ip = record { path = "/api/login"; method = "POST"; client_ip = ip }

module _ {S : Type 0} (handler : S → ℕ × S) (ip : String) where
  -- The state of the handler after it was called.
  unfoldable pub called : ℕ → S → S
  called zero s = s
  called (suc n) s = called n (handler s).1

  -- The handler refuses each of the next calls.
  abbrev pub Refuses : ℕ → S → Type 0
  Refuses zero s = Unit
  Refuses (suc n) s = ((handler s).0 ≡ 401) × Refuses n (handler s).1

  -- Log-ins from one address, each with the times at which it begins and ends.
  unfoldable pub log_in_all : List (ℕ × ℕ) → LoginProtection → S → LoginProtection × S
  log_in_all [] p s = (p, s)
  log_in_all ((started, ended) ∷ ts) p s =
      let (p', s') = (gin_middleware handler started ended (login_from ip) p s).1 in
      log_in_all ts p' s'

  -- A log-in that is let in and refused by the handler.
  refused_once :
      (started ended : ℕ) (p : LoginProtection) (s : S)
      → allow started ip p ≡ (true, p)
      → (handler s).0 ≡ 401
      → gin_middleware handler started ended (login_from ip) p s
        ≡ (some 401, (record_failure ended ip p, (handler s).1))
  unfolding gin_middleware note_status
  refused_once started ended p s may bad = rw (may, bad) refl

  -- `allow` lets in a client with a record that is not old and has no block.
  allow_unblocked :
      (now : ℕ) (p : LoginProtection) (r : FailRecord)
      → lookup ip p.failures ≡ some r
      → r.blocked_until ≡ none
      → now ≤ r.first_try + p.window
      → allow now ip p ≡ (true, p)
  unfolding allow
  allow_unblocked now p r known free early = ground arith

  abbrev Inside : ℕ → List (ℕ × ℕ) → Type 0
  Inside until ts = All (λ e. (e.0 ≤ until) × (e.1 ≤ until)) ts

  -- No block stands, where a log-in is still to come.
  abbrev IsFree : List (ℕ × ℕ) → FailRecord → Type 0
  IsFree [] r = Unit
  IsFree (e ∷ ts) r = r.blocked_until ≡ none

  count_failure-IsFree :
      (ts : List (ℕ × ℕ)) (ended : ℕ) (p : LoginProtection) (r : FailRecord)
      → r.blocked_until ≡ none
      → r.count + suc (length ts) ≤ p.max_failures
      → IsFree ts (count_failure ended p r)
  unfolding count_failure
  count_failure-IsFree [] ended p r free few = tt
  count_failure-IsFree (e ∷ ts) ended p r free few = ground arith

  first_failure-IsFree : (ts : List (ℕ × ℕ)) (ended : ℕ) → IsFree ts (first_failure ended)
  unfolding first_failure
  first_failure-IsFree [] ended = tt
  first_failure-IsFree (e ∷ ts) ended = refl

  log_in_all_lem :
      (ts : List (ℕ × ℕ)) (p : LoginProtection) (r : FailRecord) (s : S)
      → lookup ip p.failures ≡ some r
      → IsFree ts r
      → r.count + length ts ≤ p.max_failures
      → Inside (r.first_try + p.window) ts
      → Refuses (length ts) s
      → log_in_all ts p s ≡ (fail_all ip (map (λ e. e.1) ts) p, called (length ts) s)
  unfolding log_in_all fail_all called count_failure
  log_in_all_lem [] p r s known free few inside bad = refl
  log_in_all_lem ((started, ended) ∷ ts) p r s known free few ((a, b), inside) (bad, later) =
      let may = allow_unblocked started p r known free a in
      let step = refused_once started ended p s may bad in
      let noted = fail_once ip p r ended known b in
      let r' = count_failure ended p r in
      let s' = (handler s).1 in
      let ih =
        log_in_all_lem ts (put ip r' p) r' s' (lookup-put ip r' p)
          (count_failure-IsFree ts ended p r free few) (omega arith) inside later in
      ap (λ (x : Option ℕ × (LoginProtection × S)). log_in_all ts x.1.0 x.1.1) step
      ∙ ap (λ (q : LoginProtection). log_in_all ts q s') noted
      ∙ ih
      ∙ ap
          (λ (q : LoginProtection).
            let x : LoginProtection × S =
              (fail_all ip (map (λ e. e.1) ts) q, called (length ts) s') in
            x)
          (sym noted)

  All-times :
      (until : ℕ) (ts : List (ℕ × ℕ)) → Inside until ts → All (λ t. t ≤ until) (map (λ e. e.1) ts)
  All-times until [] h = tt
  All-times until (e ∷ ts) h = (h.0.1, All-times until ts h.1)

  first_log_in :
      (started ended : ℕ) (ts : List (ℕ × ℕ)) (p : LoginProtection) (s : S)
      → lookup ip p.failures ≡ none
      → 1 < p.max_failures
      → 1 + length ts ≤ p.max_failures
      → Inside (ended + p.window) ts
      → Refuses (suc (length ts)) s
      → log_in_all ((started, ended) ∷ ts) p s
        ≡ (fail_all ip (ended ∷ map (λ e. e.1) ts) p, called (suc (length ts)) s)
  unfolding log_in_all fail_all called first_failure allow
  first_log_in started ended ts p s new two few inside (bad, later) =
      let step = refused_once started ended p s (ground arith) bad in
      let noted = fail_first ip p ended new in
      let r = first_failure ended in
      let s' = (handler s).1 in
      let rest =
        log_in_all_lem ts (put ip r p) r s' (lookup-put ip r p) (first_failure-IsFree ts ended)
          (omega arith) inside later in
      ap (λ (x : Option ℕ × (LoginProtection × S)). log_in_all ts x.1.0 x.1.1) step
      ∙ ap (λ (q : LoginProtection). log_in_all ts q s') noted
      ∙ rest
      ∙ ap
          (λ (q : LoginProtection).
            let x : LoginProtection × S =
              (fail_all ip (map (λ e. e.1) ts) q, called (length ts) s') in
            x)
          (sym noted)

  -- How the middleware treats a log-in, when it is shut for it or not.
  abbrev Treats : (from to : ℕ) → Bool → LoginProtection × S → Type 0
  Treats from to shut (p, s) =
      let (answer, after) = gin_middleware handler from to (login_from ip) p s in
      (answer ≡ (if shut then none else some (handler s).0))
      × (after.1 ≡ (if shut then s else (handler s).1))

  Treats-allow :
      (from to : ℕ) (shut : Bool) (p : LoginProtection) (s : S)
      → (allow from ip p).0 ≡ not shut
      → Treats from to shut (p, s)
  unfolding gin_middleware
  Treats-allow from to true p s e = rw (e, gin_middleware) (refl, refl)
  Treats-allow from to false p s e = rw (e, gin_middleware) (refl, refl)

  -- A client of whom nothing is on record is let in and refused by the handler, first with a log-in
  -- that ends at `ended`, and then with those of `ts`, all inside the window that then opens, and
  -- not more of them than the limit, which is at least two. Its next log-in is answered without a
  -- call of the handler exactly while the window lasts, and the failures have reached the limit, and
  -- the block since the last of them lasts; and then nothing changes but what those log-ins did.
  pub gin_middleware-log_in_all :
      (started ended : ℕ) (ts : List (ℕ × ℕ)) (from to : ℕ) (p : LoginProtection) (s : S)
      → lookup ip p.failures ≡ none
      → 1 < p.max_failures
      → 1 + length ts ≤ p.max_failures
      → Inside (ended + p.window) ts
      → Refuses (suc (length ts)) s
      → let (p', s') = log_in_all ((started, ended) ∷ ts) p s in
        let (answer, after) = gin_middleware handler from to (login_from ip) p' s' in
        let shut =
          leb from (ended + p.window)
          && leb p.max_failures (1 + length ts)
          && ltb from (last_time ended (map (λ e. e.1) ts) + p.block_time) in
        ((answer ≡ (if shut then none else some (handler s').0))
          × (after.1 ≡ (if shut then s' else (handler s').1)))
        × (s' ≡ called (suc (length ts)) s)
  gin_middleware-log_in_all started ended ts from to p s new two few inside bad =
      let times = map (λ (e : ℕ × ℕ). e.1) ts in
      let all = first_log_in started ended ts p s new two few inside bad in
      let may =
        allow-fail_all ip p ended from times new two (All-times (ended + p.window) ts inside) in
      subst
        (λ (x : LoginProtection × S).
          Treats from to
            (leb from (ended + p.window)
              && leb p.max_failures (1 + length ts)
              && ltb from (last_time ended times + p.block_time))
            x
          × (x.1 ≡ called (suc (length ts)) s))
        (sym all)
        (
          Treats-allow from to _ _ _ (
              may
              ∙ ap
                  (λ (n : ℕ). not (
                    leb from (ended + p.window)
                    && leb p.max_failures (1 + n)
                    && ltb from (last_time ended times + p.block_time)))
                  (length-map ts (λ e. e.1))),
          refl,
        )
