-- ===== src/Tests/SecurityRuns.antt =====
-- The login protection with the window and the block of cmd/server, five minutes and fifteen, and a
-- limit of five failures instead of ten; in seconds here.
use go_shortvideo.Prelude.{ℕ, ◌+◌, ◌≡◌, refl, some, List, false, [], ◌∷◌, arith}
use go_shortvideo.TextDict.{lookup, insert}
use go_shortvideo.Security.Login.{
  LoginProtection, new_login_protection, allow, record_failure, first_failure, count_failure,
}
use go_shortvideo.Security.Lockout.{fail_all}
use go_shortvideo.Security.Guard.{gin_middleware}
use go_shortvideo.Security.Attempts.{called, login_from, log_in_all, gin_middleware-log_in_all}

abbrev server : LoginProtection
server = record { failures = []; max_failures = 5; window = 300; block_time = 900 }

server_new : server ≡ new_login_protection 5 300 900
unfolding new_login_protection
server_new = refl

-- A handler that counts its calls and refuses each.
abbrev refuse : ℕ → ℕ × ℕ
refuse calls = (401, calls + 1)

abbrev four_more : List (ℕ × ℕ)
four_more = (10, 11) ∷ (20, 21) ∷ (30, 31) ∷ (40, 41) ∷ []

-- Five refusals in forty seconds; a sixth log-in after 400 seconds reaches the handler again, though
-- the block lasts until 941.
gin_middleware-log_in_all_example :
    let (p, calls) = log_in_all refuse "10.0.0.1" ((0, 1) ∷ four_more) server 0 in
    let (answer, after) = gin_middleware refuse 400 401 (login_from "10.0.0.1") p calls in
    ((answer ≡ some 401) × (after.1 ≡ calls + 1)) × (calls ≡ 5)
unfolding lookup called
gin_middleware-log_in_all_example =
    gin_middleware-log_in_all refuse "10.0.0.1" 0 1 four_more 400 401 server 0 refl (omega arith)
      (omega arith) (omega arith) (refl, (refl, (refl, (refl, (refl, tt)))))

refused : (allow 100 "10.0.0.1" (fail_all "10.0.0.1" (0 ∷ 10 ∷ 20 ∷ 30 ∷ 40 ∷ []) server)).0 ≡ false
unfolding allow fail_all record_failure first_failure count_failure lookup insert
refused = refl
