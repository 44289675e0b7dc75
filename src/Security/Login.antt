-- ===== src/Security/Login.antt =====
-- `LoginProtection` of pkg/security/middleware.go. Times are nanoseconds on one clock, which is an
-- argument; a time that was never set is `none`.
use go_shortvideo.Prelude.{
  ℕ, ◌+◌, ◌-◌, Bool, true, false, String, Option, none, some, List, [], ltb, leb, if◌then◌else◌,
  keep, not,
}
use go_shortvideo.TextDict.{lookup, insert, delete}

pub record FailRecord : Type 0 where
  pub count : ℕ
  pub first_try : ℕ
  pub blocked_until : Option ℕ

pub record LoginProtection : Type 0 where
  pub failures : List (String × FailRecord)
  pub max_failures : ℕ
  pub window : ℕ
  pub block_time : ℕ

-- `NewLoginProtection`
unfoldable pub new_login_protection : (max_failures window block_time : ℕ) → LoginProtection
new_login_protection max window block = record {
  failures = [];
  max_failures = max;
  window = window;
  block_time = block;
}

unfoldable pub forget : String → LoginProtection → LoginProtection
forget ip p = record p { failures = delete ip p.failures }

-- `time.Since(r.firstTry) > d`
abbrev pub older : (now d : ℕ) → FailRecord → Bool
older now d r = ltb d (now - r.first_try)

unfoldable pub allow : (now : ℕ) → String → LoginProtection → Bool × LoginProtection
allow now ip p = elim (lookup ip p.failures) [
  | none ↦ (true, p)
  | some r ↦ if older now p.window r then (true, forget ip p) else elim r.blocked_until [
    | none ↦ (true, p)
    | some until ↦
        if ltb now until
        then (false, p)
        else if ltb until now
        then (true, forget ip p)
        else (true, p)
  ]
]

unfoldable pub first_failure : (now : ℕ) → FailRecord
first_failure now = record { count = 1; first_try = now; blocked_until = none }

-- `r.count++`, and the block where there are too many.
unfoldable pub count_failure : (now : ℕ) → LoginProtection → FailRecord → FailRecord
count_failure now p r = record {
  count = r.count + 1;
  first_try = r.first_try;
  blocked_until =
      if leb p.max_failures (r.count + 1) then some (now + p.block_time) else r.blocked_until;
}

unfoldable pub record_failure : (now : ℕ) → String → LoginProtection → LoginProtection
unfolding first_failure count_failure
record_failure now ip p =
    let fresh = record p { failures = insert ip (first_failure now) p.failures } in
    elim (lookup ip p.failures) [
      | none ↦ fresh
      | some r ↦
          if older now p.window r
          then fresh
          else record p { failures = insert ip (count_failure now p r) p.failures }
    ]

unfoldable pub record_success : String → LoginProtection → LoginProtection
unfolding forget
record_success ip p = forget ip p

unfoldable pub cleanup : (now : ℕ) → LoginProtection → LoginProtection
cleanup now p = record p {
  failures = keep (λ e. not (older now (p.window + p.block_time) e.1)) p.failures;
}
