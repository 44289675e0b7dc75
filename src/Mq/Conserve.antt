-- ===== src/Mq/Conserve.antt =====
-- No message of a topic is lost by the bus over Redis streams: where its payload is, after any
-- history of publishing and reading.
use Prim.Native.String.{len}
use text.Mathlib.Text.{◌==◌ as str_eq}
use text.Mathlib.TextEquality.{eq_iff}
use text.Mathlib.TextPositions.{eq_refl, len-append}
use go_shortvideo.Prelude.{
  ℕ, ◌+◌, ◌≡◌, refl, ap, sym, ◌∙◌, Bool, true, false, String, Option, none, some, List, [], ◌∷◌,
  ◌++◌, arith, if◌then◌else◌, Bool-cases, inl, inr,
}
use mathlib.Core.Path.{subst⁻¹}
use go_shortvideo.TextDict.{lookup}
use go_shortvideo.Prelude.Int.{pos, leb_ℤ}
use go_shortvideo.Mq.Streams.{Streams, Read, Value, Values, XMessage, int64_value, payload_bytes}
use go_shortvideo.Mq.Bus.{
  RedisStreamBus, Handler, dead_letters, add_one, publish, give_back, handle_with, handle_message,
  handle_all, handle_read, round,
}

-- A handler that notes the payloads that it has dealt with.
unfoldable pub noting : {World : Type 0} → Handler World → Handler (World × List (List ℕ))
noting h payload (w, log) =
    let (done, w') = h payload w in (done, (w', if done then payload ∷ log else log))

abbrev pub one_if : Bool → ℕ
one_if b = if b then 1 else 0

-- How many payloads of a log, or of the entries of a stream, pass a test.
abbrev pub noted : (List ℕ → Bool) → List (List ℕ) → ℕ
noted test [] = 0
noted test (x ∷ xs) = one_if (test x) + noted test xs

abbrev pub copies : (List ℕ → Bool) → List XMessage → ℕ
copies test [] = 0
copies test (m ∷ ms) = one_if (test (payload_bytes m.values.payload)) + copies test ms

copies-append :
    (test : List ℕ → Bool) (xs ys : List XMessage)
    → copies test (xs ++ ys) ≡ copies test xs + copies test ys
copies-append test [] ys = omega arith
copies-append test (x ∷ xs) ys = omega (arith, copies-append test xs ys)

pub dead_letters_other :
    (topic : String)
    → (str_eq topic (dead_letters topic) ≡ false) × (str_eq (dead_letters topic) topic ≡ false)
dead_letters_other topic = (
  elim (Bool-cases (str_eq topic (dead_letters topic))) [
    | inl e ↦ absurd (longer ((eq_iff topic (dead_letters topic)).0 e))
    | inr e ↦ e
  ],
  elim (Bool-cases (str_eq (dead_letters topic) topic)) [
    | inl e ↦ absurd (longer (sym ((eq_iff (dead_letters topic) topic).0 e)))
    | inr e ↦ e
  ],
)
  where
    longer : topic ≡ dead_letters topic → ⊥
    longer e = omega (arith, ap len e, len-append topic ":dlq")

module _ (redis : Streams) {World : Type 0} where
  -- The payloads that pass the test, wherever they are.
  abbrev pub total : (List ℕ → Bool) → String → redis.State × (World × List (List ℕ)) → ℕ
  total test topic (s, (w, log)) =
      copies test (redis.waiting topic s)
      + copies test (redis.waiting (dead_letters topic) s)
      + noted test log

  module _ (b : RedisStreamBus (World × List (List ℕ))) where
    unfoldable pub run_events :
        List (Option (List ℕ))
        → String
        → redis.State × (World × List (List ℕ))
        → redis.State × (World × List (List ℕ))
    run_events [] topic sw = sw
    run_events (none ∷ es) topic sw = run_events es topic (round redis b topic sw)
    run_events (some payload ∷ es) topic (s, w) =
        run_events es topic ((publish redis topic payload s).1, w)

    -- The payloads that the events publish and that pass the test.
    abbrev pub published : (List ℕ → Bool) → List (Option (List ℕ)) → ℕ
    published test [] = 0
    published test (none ∷ es) = published test es
    published test (some payload ∷ es) = one_if (test payload) + published test es

module _ (redis : Streams)
    (up : (stream : String) (v : _) (s : redis.State) → (redis.xadd stream v s).0 ≡ true)
    {World : Type 0} (b : RedisStreamBus (World × List (List ℕ))) (test : List ℕ → Bool)
    (topic : String) where
  copies-xadd :
      (stream other : String) (v : Values) (s : redis.State)
      → copies test (redis.waiting other (redis.xadd stream v s).1)
        ≡ (if str_eq stream other then one_if (test (payload_bytes (redis.kept v.payload))) else 0)
          + copies test (redis.waiting other s)
  copies-xadd stream other v s = elim (Bool-cases (str_eq stream other)) [
    | inl e ↦
        rw (redis.waiting-xadd stream other v s (up stream v s), e)
          (omega (
            arith,
            copies-append test (redis.waiting other s) (
                (record {
                  id = redis.next_id stream s;
                  values = record {
                    payload = redis.kept v.payload;
                    attempts = redis.kept v.attempts;
                    source_id = v.source_id;
                  };
                })
                ∷ []),
          ))
    | inr e ↦ rw (redis.waiting-xadd stream other v s (up stream v s), e) (omega arith)
  ]

  -- A letter that is added to the stream of the topic, or to that of its dead letters.
  total-xadd :
      (dead : Bool) (payload : List ℕ) (v : Values) (s : redis.State) (w : World)
      (log : List (List ℕ))
      → v.payload ≡ Value.bytes payload
      → total redis test topic
          ((redis.xadd (if dead then dead_letters topic else topic) v s).1, (w, log))
        ≡ one_if (test payload) + total redis test topic (s, (w, log))
  total-xadd true payload v s w log h =
      let dl = dead_letters topic in
      let k : payload_bytes (redis.kept v.payload) ≡ payload =
        ap (λ x. payload_bytes (redis.kept x)) h ∙ redis.payload-kept payload in
      let a = copies-xadd dl topic v s in
      let c = copies-xadd dl dl v s in
      rw (a, c, k, (dead_letters_other topic).1, eq_refl dl) (omega arith)
  total-xadd false payload v s w log h =
      let dl = dead_letters topic in
      let k : payload_bytes (redis.kept v.payload) ≡ payload =
        ap (λ x. payload_bytes (redis.kept x)) h ∙ redis.payload-kept payload in
      let a = copies-xadd topic topic v s in
      let c = copies-xadd topic dl v s in
      rw (a, c, k, (dead_letters_other topic).0, eq_refl topic) (omega arith)

  total-give_back :
      (msg : XMessage) (s : redis.State) (w : World) (log : List (List ℕ))
      → total redis test topic (give_back redis b topic msg s, (w, log))
        ≡ one_if (test (payload_bytes msg.values.payload)) + total redis test topic (s, (w, log))
  unfolding give_back
  total-give_back msg s w log =
      let payload = payload_bytes msg.values.payload in
      let next = add_one (int64_value redis.sscan msg.values.attempts) in
      elim (Bool-cases (leb_ℤ b.max_retry next)) [
        | inl e ↦ rw e (total-xadd true payload _ s w log refl)
        | inr e ↦ rw e (total-xadd false payload _ s w log refl)
      ]

  total-xack :
      (id : String) (s : redis.State) (w : World × List (List ℕ))
      → total redis test topic ((redis.xack topic id s).1, w) ≡ total redis test topic (s, w)
  total-xack id s w =
      rw (redis.waiting-xack topic id topic s, redis.waiting-xack topic id (dead_letters topic) s)
        refl

  total-handle_with :
      (h : Handler World) (msg : XMessage) (sw : redis.State × (World × List (List ℕ)))
      → total redis test topic (handle_with redis b (some (noting h)) topic msg sw)
        ≡ one_if (test (payload_bytes msg.values.payload)) + total redis test topic sw
  unfolding handle_with noting
  total-handle_with h msg (s, (w, log)) =
      let payload = payload_bytes msg.values.payload in
      elim (Bool-cases (h payload w).0) [
        | inl e ↦ rw e (rw (total-xack msg.id s ((h payload w).1, payload ∷ log)) (omega arith))
        | inr e ↦ rw e (
            total-xack msg.id (give_back redis b topic msg s) ((h payload w).1, log)
            ∙ total-give_back msg s (h payload w).1 log)
      ]

  module _ (h : Handler World) (known : lookup topic b.handlers ≡ some (noting h)) where
    total-handle_message :
        (m : XMessage) (sw : redis.State × (World × List (List ℕ)))
        → total redis test topic (handle_message redis b topic m sw)
          ≡ one_if (test (payload_bytes m.values.payload)) + total redis test topic sw
    unfolding handle_message
    total-handle_message m sw =
        subst⁻¹
          (λ o.
            total redis test topic (handle_with redis b o topic m sw)
            ≡ one_if (test (payload_bytes m.values.payload)) + total redis test topic sw)
          known (total-handle_with h m sw)

    total-handle_all :
        (msgs : List XMessage) (sw : redis.State × (World × List (List ℕ)))
        → total redis test topic (handle_all redis b topic msgs sw)
          ≡ copies test msgs + total redis test topic sw
    unfolding handle_all
    total-handle_all [] sw = omega arith
    total-handle_all (m ∷ ms) sw =
        omega (
          arith,
          total-handle_message m sw,
          total-handle_all ms (handle_message redis b topic m sw),
        )

    -- `s'` is the state after the read.
    total-handle_read :
        (answer : Read) (s s' : redis.State) (w : World × List (List ℕ))
        → ((other : String)
            → redis.waiting other s ≡ (elim answer [
              | Read.nothing ↦ redis.waiting other s'
              | Read.failed ↦ redis.waiting other s'
              | Read.got m ms ↦
                  if str_eq topic other
                  then (m ∷ ms) ++ redis.waiting other s'
                  else redis.waiting other s'
            ]))
        → total redis test topic (handle_read redis b topic answer (s', w))
          ≡ total redis test topic (s, w)
    unfolding handle_read
    total-handle_read Read.nothing s s' w law = rw (law topic, law (dead_letters topic)) refl
    total-handle_read Read.failed s s' w law = rw (law topic, law (dead_letters topic)) refl
    total-handle_read (Read.got m ms) s s' w law =
        let here : redis.waiting topic s ≡ (m ∷ ms) ++ redis.waiting topic s' =
          law topic
          ∙ ap (λ t. if t then (m ∷ ms) ++ redis.waiting topic s' else redis.waiting topic s')
              (eq_refl topic) in
        let there : redis.waiting (dead_letters topic) s ≡ redis.waiting (dead_letters topic) s' =
          law (dead_letters topic)
          ∙ ap
              (λ t.
                if t
                then (m ∷ ms) ++ redis.waiting (dead_letters topic) s'
                else redis.waiting (dead_letters topic) s')
              (dead_letters_other topic).0 in
        rw (here, there)
          (omega (
            arith,
            total-handle_all (m ∷ ms) (s', w),
            copies-append test (m ∷ ms) (redis.waiting topic s'),
          ))

    pub total-round :
        (sw : redis.State × (World × List (List ℕ)))
        → total redis test topic (round redis b topic sw) ≡ total redis test topic sw
    unfolding round
    total-round (s, w) =
        let (answer, s') = redis.xread_group 10 topic s in
        total-handle_read answer s s' w (λ other. redis.waiting-xread_group 10 topic other s)

    -- Redis takes every entry, and the topic has a handler. Whatever is published and read, in any
    -- order, every payload is afterwards in the stream, among the dead letters, or dealt with by
    -- the handler: what was there before and what was published adds up to what is there then,
    -- counted with any test on payloads.
    pub total-run_events :
        (es : List (Option (List ℕ))) (sw : redis.State × (World × List (List ℕ)))
        → total redis test topic (run_events redis b es topic sw)
          ≡ published redis b test es + total redis test topic sw
    unfolding run_events publish
    total-run_events [] sw = omega arith
    total-run_events (none ∷ es) sw =
        omega (arith, total-run_events es (round redis b topic sw), total-round sw)
    total-run_events (some payload ∷ es) (s, (w, log)) =
        let v : Values = record {
          payload = Value.bytes payload;
          attempts = Value.int64 (pos 0);
          source_id = none;
        } in
        omega (
          arith,
          total-run_events es ((redis.xadd topic v s).1, (w, log)),
          total-xadd false payload v s w log refl,
        )
