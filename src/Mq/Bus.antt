-- ===== src/Mq/Bus.antt =====
-- `RedisStreamBus` of pkg/mq/mq.go: what it does with an entry that it has read, and the loop of one
-- topic. The handlers of the source close over their own state; here it is `World`.
use Prim.Native.String.{◌++◌ as ◌+s◌}
use text.Mathlib.Text.{◌==◌ as str_eq}
use go_shortvideo.Prelude.{
  ℕ, suc, zero, ◌+◌, ◌-◌, ◌^◌, Bool, String, Option, none, some, List, [], ◌∷◌, ◌==◌, if◌then◌else◌,
}
use go_shortvideo.Prelude.Int.{ℤ, pos, negsuc, ◌+ℤ◌, leb_ℤ}
use go_shortvideo.TextDict.{lookup, insert}
use go_shortvideo.Mq.Streams.{Streams, Read, Value, XMessage, payload_bytes, int64_value}

-- `n + 1` in an int64
unfoldable pub add_one : ℤ → ℤ
add_one (pos n) = if n == 2 ^ 63 - 1 then negsuc (2 ^ 63 - 1) else pos (n + 1)
add_one (negsuc n) = negsuc n +ℤ pos 1

-- `Handler`, with `true` for a nil error
abbrev pub Handler : Type 0 → Type 0
Handler World = List ℕ → World → Bool × World

pub record RedisStreamBus (World : Type 0) : Type 0 where
  pub group : String
  pub consumer : String
  pub max_retry : ℤ
  pub handlers : List (String × Handler World)

-- The name of the host and the clock are given: `host` is empty where there is none.
unfoldable pub new_redis_stream_bus :
    {World : Type 0} → (host nanos group : String) → ℤ → RedisStreamBus World
new_redis_stream_bus host nanos group max_retry = record {
  group = if str_eq group "" then "shortvideo" else group;
  consumer = (if str_eq host "" then "consumer" else host) +s "-" +s nanos;
  max_retry = if leb_ℤ max_retry (pos 0) then pos 3 else max_retry;
  handlers = [];
}

unfoldable pub subscribe :
    {World : Type 0} → String → Handler World → RedisStreamBus World → RedisStreamBus World
subscribe topic h b = record b { handlers = insert topic h b.handlers }

-- The stream of the letters that cannot be delivered.
abbrev pub dead_letters : String → String
dead_letters topic = topic +s ":dlq"

module _ (redis : Streams) where
  unfoldable pub publish : String → List ℕ → redis.State → Bool × redis.State
  publish topic payload s =
      redis.xadd topic
        (record { payload = Value.bytes payload; attempts = Value.int64 (pos 0); source_id = none })
        s

  module _ {World : Type 0} (b : RedisStreamBus World) where
    -- The last part of `handleMessage`, behind a handler that failed.
    unfoldable pub give_back : String → XMessage → redis.State → redis.State
    give_back topic msg s =
        let payload = payload_bytes msg.values.payload in
        let next = add_one (int64_value redis.sscan msg.values.attempts) in
        if leb_ℤ b.max_retry next
        then (redis.xadd (dead_letters topic)
            (record {
              payload = Value.bytes payload;
              attempts = Value.int64 next;
              source_id = some msg.id;
            })
            s).1
        else (redis.xadd topic
            (record {
              payload = Value.bytes payload;
              attempts = Value.int64 next;
              source_id = none;
            })
            s).1

    -- `h` is what the map holds for the topic.
    unfoldable pub handle_with :
        Option (Handler World) → String → XMessage → redis.State × World → redis.State × World
    handle_with none topic msg (s, w) = ((redis.xack topic msg.id s).1, w)
    handle_with (some h) topic msg (s, w) =
        let (done, w') = h (payload_bytes msg.values.payload) w in
        let s' = if done then s else give_back topic msg s in ((redis.xack topic msg.id s').1, w')

    unfoldable pub handle_message : String → XMessage → redis.State × World → redis.State × World
    handle_message topic msg sw = handle_with (lookup topic b.handlers) topic msg sw

    unfoldable pub handle_all : String → List XMessage → redis.State × World → redis.State × World
    handle_all topic [] sw = sw
    handle_all topic (msg ∷ msgs) sw = handle_all topic msgs (handle_message topic msg sw)

    -- What the loop of `runTopic` does with an answer of `XReadGroup`.
    unfoldable pub handle_read : String → Read → redis.State × World → redis.State × World
    handle_read topic Read.nothing sw = sw
    handle_read topic Read.failed sw = sw
    handle_read topic (Read.got msg msgs) sw = handle_all topic (msg ∷ msgs) sw

    -- One round of the loop of `runTopic`.
    unfoldable pub round : String → redis.State × World → redis.State × World
    round topic (s, w) =
        let (answer, s') = redis.xread_group 10 topic s in handle_read topic answer (s', w)

    -- `runTopic`, for as many rounds as the context allows.
    unfoldable pub run_topic : ℕ → String → redis.State × World → redis.State × World
    run_topic zero topic sw = sw
    run_topic (suc rounds) topic sw = run_topic rounds topic (round topic sw)
