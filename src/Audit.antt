-- ===== src/Audit.antt =====
-- pkg/audit/audit.go: which requests are logged, and how. The logger, the ids that it makes and the
-- trace are given.
use go_shortvideo.Prelude.{
  ℕ, Bool, true, false, ◌&&◌, ◌||◌, none, some, List, [], ◌∷◌, leb, if◌then◌else◌,
}
use go_shortvideo.Prelude.Int.{ℤ, pos}
use go_shortvideo.Strconv.{codes, parse_int_value}
use go_shortvideo.Bytes.{same}
use go_shortvideo.Auth.Context.{after_prefix}

pub data Level : Type 0 where
  info warn error : Level

pub data Event : Type 0 where
  http_request audit_user_action : Event

pub record Entry : Type 0 where
  pub event : Event
  pub level : Level
  pub request_id : List ℕ
  pub trace_id : List ℕ
  pub method : List ℕ
  pub route : List ℕ
  pub status : ℕ
  pub duration_ms : ℕ
  pub ip : List ℕ
  pub user_id : ℤ

unfoldable pub log_level : ℕ → Level
log_level status = if leb 500 status then error else if leb 400 status then warn else info

-- `RequestID`: the id of the header, or a new one.
unfoldable pub request_id : (header fresh : List ℕ) → List ℕ
request_id [] fresh = fresh
request_id (c ∷ rid) fresh = c ∷ rid

abbrev pub has_prefix : List ℕ → List ℕ → Bool
has_prefix prefix s = elim (after_prefix prefix s) [ none ↦ false | some rest ↦ true ]

unfoldable pub should_audit : (method route : List ℕ) → Bool
should_audit method route =
    (same method (codes "POST")
      || same method (codes "PUT")
      || same method (codes "PATCH")
      || same method (codes "DELETE"))
    && (same route (codes "/api/login")
        || same route (codes "/api/users")
        || same route (codes "/api/upload")
        || has_prefix (codes "/api/videos") route
        || has_prefix (codes "/api/users/") route)

-- What is set under the key `user_id`.
pub data UserValue : Type 0 where
  unset other_type : UserValue
  int_value : ℤ → UserValue
  text_value : List ℕ → UserValue

-- `userID`
unfoldable pub user_id : UserValue → ℤ
user_id unset = pos 0
user_id other_type = pos 0
user_id (int_value id) = id
user_id (text_value s) = parse_int_value s

-- A request that was answered; `full_path` is the pattern of its route, or empty.
pub record Answered : Type 0 where
  pub rid : List ℕ
  pub trace : List ℕ
  pub method : List ℕ
  pub full_path : List ℕ
  pub url_path : List ℕ
  pub status : ℕ
  pub duration_ms : ℕ
  pub ip : List ℕ
  pub user : UserValue

abbrev pub route_of : Answered → List ℕ
route_of r = elim r.full_path [ [] ↦ r.url_path | c ∷ s ↦ c ∷ s ]

unfoldable pub entry : Event → Level → Answered → Entry
unfolding user_id
entry event level r = record {
  event = event;
  level = level;
  request_id = r.rid;
  trace_id = r.trace;
  method = r.method;
  route = route_of r;
  status = r.status;
  duration_ms = r.duration_ms;
  ip = r.ip;
  user_id = user_id r.user;
}

-- What `GinMiddleware` logs of a request.
unfoldable pub log_request : Answered → List Entry
unfolding entry log_level should_audit
log_request r =
    entry http_request (log_level r.status) r
    ∷ (if should_audit r.method (route_of r) then entry audit_user_action info r ∷ [] else [])
