-- ===== src/Mq/Settle.antt =====
-- What the loop of one topic of the bus over Redis streams comes to when nobody publishes more.
use mathlib.Core.Path.{subst}
use go_shortvideo.Prelude.{
  ℕ, zero, suc, ◌+◌, ◌-◌, ◌^◌, ◌<◌, ◌≤◌, ◌≡◌, ◌≢◌, refl, ap, ◌∙◌, Bool, true, String, some, List,
  [], ◌∷◌, arith, All,
}
use go_shortvideo.Prelude.Int.{pos}
use go_shortvideo.TextDict.{lookup}
use go_shortvideo.Mq.Streams.{Streams, Read, Values}
use go_shortvideo.Mq.Bus.{RedisStreamBus, Handler, dead_letters, round, run_topic}
use go_shortvideo.Mq.Conserve.{noting, noted, copies, total, total-round}
use go_shortvideo.Mq.Drain.{Countable, attempts, budget, Fits, Fits-run_topic}
use go_shortvideo.Mq.Ack.{pending-run_topic}

module _ (redis : Streams) (max : ℕ) where
  Fits-nothing : (ms : _) → Fits redis max 0 ms → ms ≡ []
  Fits-nothing [] f = refl
  Fits-nothing (m ∷ ms) f = absurd (omega (arith, f.0))

module _ (redis : Streams)
    (takes : (stream : String) (v : Values) (s : redis.State) → (redis.xadd stream v s).0 ≡ true)
    (acks : (stream id : String) (s : redis.State) → (redis.xack stream id s).0 ≡ true)
    {World : Type 0} (b : RedisStreamBus (World × List (List ℕ))) (topic : String)
    (reads : (n : ℕ) (s : redis.State) → (redis.xread_group n topic s).0 ≢ Read.failed)
    (h : Handler World) (known : lookup topic b.handlers ≡ some (noting h)) where
  total-run_topic :
      (test : List ℕ → Bool) (n : ℕ) (sw : redis.State × (World × List (List ℕ)))
      → total redis test topic (run_topic redis b n topic sw) ≡ total redis test topic sw
  unfolding run_topic
  total-run_topic test zero sw = refl
  total-run_topic test (suc n) sw =
      total-run_topic test n (round redis b topic sw)
      ∙ total-round redis takes b test topic h known sw

  -- Redis answers every command, and the topic has a handler, which may refuse any message. When
  -- nobody publishes more, `runTopic` empties the stream: after as many rounds as there are
  -- deliveries left for its messages, nothing waits, nothing is unacknowledged, and every payload
  -- that waited was dealt with by the handler or is among the dead letters, counted with any test.
  pub run_topic-settles :
      (max n : ℕ) (test : List ℕ → Bool) (sw : redis.State × (World × List (List ℕ)))
      → b.max_retry ≡ pos max
      → max < 2 ^ 63
      → All (λ m. Countable (attempts redis m)) (redis.waiting topic sw.0)
      → redis.pending topic sw.0 ≡ []
      → budget redis max (redis.waiting topic sw.0) ≤ n
      → let sw' = run_topic redis b n topic sw in
        (redis.waiting topic sw'.0 ≡ [])
        × (redis.pending topic sw'.0 ≡ [])
        × (copies test (redis.waiting (dead_letters topic) sw'.0) + noted test sw'.1.1
            ≡ copies test (redis.waiting topic sw.0)
              + copies test (redis.waiting (dead_letters topic) sw.0)
              + noted test sw.1.1)
  run_topic-settles max n test sw limit small counts acked enough =
      let cost = budget redis max (redis.waiting topic sw.0) in
      let zero_left : cost - n ≡ 0 = omega (arith, enough) in
      let fits =
        Fits-run_topic redis takes acks max small b limit topic (noting h) known reads n sw cost
          (omega arith, counts) in
      let empty = Fits-nothing redis max _ (
        subst (λ c. Fits redis max c (redis.waiting topic (run_topic redis b n topic sw).0))
          zero_left fits) in
      let kept = total-run_topic test n sw in
      (
        empty,
        pending-run_topic redis acks b topic n sw acked,
        omega (arith, kept, ap (copies test) empty),
      )
