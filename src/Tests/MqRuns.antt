-- ===== src/Tests/MqRuns.antt =====
-- Redis streams as lists, and a topic whose handler refuses one kind of message.
use text.Mathlib.Text.{◌==◌ as str_eq}
use text.Mathlib.TextEquality.{eq_iff}
use text.Mathlib.TextPositions.{eq_refl}
use go_shortvideo.Prelude.{
  ℕ, suc, ◌+◌, ◌≡◌, refl, Bool, true, false, not, String, none, some, List, [], ◌∷◌, ◌++◌, ◌==◌,
  arith, map, keep, if◌then◌else◌, Bool-cases, inl, inr, ap, sym, ◌∙◌, ◌≢◌,
}
use go_shortvideo.Prelude.Int.{ℤ, pos}
use go_shortvideo.TextDict.{lookup, insert}
use go_shortvideo.Mq.Streams.{Streams, Read, Value, Values, XMessage, payload_bytes, int64_value}
use go_shortvideo.Mq.Bus.{
  RedisStreamBus, Handler, new_redis_stream_bus, subscribe, add_one, give_back, handle_with,
  handle_message, handle_all, handle_read, round, run_topic,
}
use go_shortvideo.Mq.Conserve.{noting, noted, copies, total, run_events, total-run_events}
use go_shortvideo.Mq.Settle.{run_topic-settles}

abbrev Content : Type 0
Content = (String → List XMessage) × (String → List String)

-- An integer is kept as one digit of a large base.
abbrev kept : Value → Value
kept (Value.bytes p) = Value.str p
kept (Value.str p) = Value.str p
kept (Value.int64 (pos n)) = Value.str (n ∷ [])
kept v = v

abbrev scan : List ℕ → ℤ
scan [] = pos 0
scan (n ∷ ns) = pos n

abbrev read_some : String → List XMessage → Content → Read × Content
read_some stream [] s = (Read.nothing, s)
read_some stream (m ∷ ms) (w, p) = (
  Read.got m [],
  (
    λ j. if str_eq stream j then ms else w j,
    λ j. if str_eq stream j then p j ++ (m.id ∷ []) else p j,
  ),
)

kept_bytes : (p : List ℕ) → payload_bytes (kept (Value.bytes p)) ≡ p
unfolding payload_bytes
kept_bytes p = refl

kept_int64 : (n : ℕ) → int64_value scan (kept (Value.int64 (pos n))) ≡ pos n
unfolding int64_value
kept_int64 n = refl

nothing-read_some :
    (stream : String) (l : List XMessage) (s : Content)
    → (read_some stream l s).0 ≡ Read.nothing
    → l ≡ []
nothing-read_some stream [] s e = refl
nothing-read_some stream (m ∷ ms) s e = ground arith

waiting-read_some :
    (stream other : String) (l : List XMessage) (s : Content)
    → s.0 stream ≡ l
    → s.0 other ≡ (
        let answer = (read_some stream l s).0 in
        let rest = (read_some stream l s).1.0 other in
        elim answer [
          | Read.nothing ↦ rest
          | Read.failed ↦ rest
          | Read.got m ms ↦ if str_eq stream other then (m ∷ ms) ++ rest else rest
        ])
waiting-read_some stream other [] s e = refl
waiting-read_some stream other (m ∷ ms) s e = elim (Bool-cases (str_eq stream other)) [
  | inl t ↦ rw t (ap s.0 (sym ((eq_iff stream other).0 t)) ∙ e)
  | inr t ↦ rw t refl
]

pending-read_some :
    (stream : String) (l : List XMessage) (s : Content)
    → (read_some stream l s).1.1 stream ≡ (elim (read_some stream l s).0 [
      | Read.nothing ↦ s.1 stream
      | Read.failed ↦ s.1 stream
      | Read.got m ms ↦ s.1 stream ++ map (λ (m : XMessage). m.id) (m ∷ ms)
    ])
pending-read_some stream [] s = refl
pending-read_some stream (m ∷ ms) s = rw (eq_refl stream) refl

never_failed :
    (stream : String) (l : List XMessage) (s : Content) → (read_some stream l s).0 ≢ Read.failed
never_failed stream [] s e = ground arith
never_failed stream (m ∷ ms) s e = ground arith

abbrev xadd_db : String → Values → Content → Bool × Content
xadd_db stream v s = (
  true,
  (
    λ j.
        if str_eq stream j
        then s.0 j
          ++ (record {
            id = "0-1";
            values = record {
              payload = kept v.payload;
              attempts = kept v.attempts;
              source_id = v.source_id;
            };
          }
              ∷ [])
        else s.0 j,
    s.1,
  ),
)

abbrev xack_db : String → String → Content → Bool × Content
xack_db stream id s =
    (true, (s.0, λ j. if str_eq stream j then keep (λ i. not (str_eq id i)) (s.1 j) else s.1 j))

abbrev db : Streams
db = record {
  State = Content;
  waiting = λ t s. s.0 t;
  pending = λ t s. s.1 t;
  next_id = λ t s. "0-1";
  sscan = scan;
  kept = kept;
  xadd = xadd_db;
  xack = xack_db;
  xread_group = λ n t s. read_some t (s.0 t) s;
  payload-kept = λ p. kept_bytes p;
  attempts-kept = λ n h. kept_int64 n;
  waiting-xadd = λ t u v s e. refl;
  pending-xadd = λ t u v s. refl;
  waiting-xack = λ t id u s. refl;
  pending-xack = λ t id s e. rw (eq_refl t) refl;
  nothing-xread_group = λ n t s. nothing-read_some t (s.0 t) s;
  waiting-xread_group = λ n t u s. waiting-read_some t u (s.0 t) s refl;
  pending-xread_group = λ n t s. pending-read_some t (s.0 t) s;
}

-- A payload that begins with 9 is refused.
abbrev picky : Handler ℕ
picky [] w = (true, w)
picky (n ∷ ns) w = if n == 9 then (false, w) else (true, suc w)

abbrev bus : RedisStreamBus (ℕ × List (List ℕ))
bus = record {
  group = "shortvideo";
  consumer = "consumer-1";
  max_retry = pos 3;
  handlers = ("videos", noting picky) ∷ [];
}

bus_new : bus ≡ subscribe "videos" (noting picky) (new_redis_stream_bus "" "1" "" (pos 0))
unfolding subscribe new_redis_stream_bus insert
bus_new = refl

abbrev message : ℕ → XMessage
message n = record {
  id = "0-1";
  values = record { payload = Value.str (n ∷ []); attempts = Value.str (0 ∷ []); source_id = none };
}

abbrev two_messages : Content
two_messages = (λ j. if str_eq "videos" j then message 9 ∷ message 4 ∷ [] else [], λ j. [])

abbrev is_nine : List ℕ → Bool
is_nine [] = false
is_nine (n ∷ ns) = n == 9

run_topic-settles_example :
    let sw' = run_topic db bus 6 "videos" (two_messages, (0, [])) in
    (sw'.0.0 "videos" ≡ [])
    × (sw'.0.1 "videos" ≡ [])
    × (copies is_nine (sw'.0.0 "videos:dlq") + noted is_nine sw'.1.1 ≡ 1)
unfolding lookup int64_value payload_bytes
run_topic-settles_example =
    run_topic-settles db (λ t v s. refl) (λ t id s. refl) bus "videos"
      (λ n s. never_failed "videos" (s.0 "videos") s) picky refl 3 6 is_nine (two_messages, (0, []))
      refl (omega arith) ((refl, omega arith), ((refl, omega arith), tt)) refl (omega arith)

total-run_events_example :
    total db is_nine "videos" (
      run_events db bus
        (some (9 ∷ []) ∷ none ∷ none ∷ some (7 ∷ []) ∷ none ∷ [])
        "videos"
        (two_messages, (0, [])))
    ≡ 2
unfolding lookup payload_bytes
total-run_events_example =
    total-run_events db (λ t v s. refl) bus is_nine "videos" picky refl
      (some (9 ∷ []) ∷ none ∷ none ∷ some (7 ∷ []) ∷ none ∷ []) (two_messages, (0, []))

-- The refused message is delivered three times, and its last attempt is on record.
refused :
    map
      (λ (m : XMessage). int64_value scan m.values.attempts)
      ((run_topic db bus 4 "videos" (two_messages, (0, []))).0.0 "videos:dlq")
    ≡ pos 3 ∷ []
unfolding run_topic round handle_read handle_all handle_message handle_with give_back add_one noting
    lookup int64_value payload_bytes
refused = refl
