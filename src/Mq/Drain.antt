-- ===== src/Mq/Drain.antt =====
-- The loop of one topic of the bus over Redis streams empties the stream: a message that its handler
-- refuses again and again goes to the dead letters in the end.
use text.Mathlib.Text.{◌==◌ as str_eq}
use text.Mathlib.TextPositions.{eq_refl}
use mathlib.Core.Path.{subst, subst⁻¹}
use go_shortvideo.Prelude.{
  ℕ, zero, suc, ◌+◌, ◌-◌, ◌^◌, ◌<◌, ◌≤◌, ◌≡◌, ◌≢◌, refl, ap, sym, ◌∙◌, true, false, String, some,
  List, [], ◌∷◌, ◌++◌, arith, if◌then◌else◌, Bool-cases, inl, inr, All, All-append, length,
}
use go_shortvideo.Prelude.Int.{ℤ, pos, pos_part, neg_part, leb_ℤ}
use go_shortvideo.TextDict.{lookup}
use go_shortvideo.Mq.Streams.{Streams, Read, Value, Values, XMessage, payload_bytes, int64_value}
use go_shortvideo.Mq.Bus.{
  RedisStreamBus, Handler, dead_letters, add_one, give_back, handle_with, handle_message,
  handle_all, handle_read, round, run_topic,
}
use go_shortvideo.Mq.Conserve.{dead_letters_other}

All-split {ℓ κ} :
    {A : Type ℓ} (P : A → Type κ) (xs ys : List A) → All P (xs ++ ys) → All P xs × All P ys
All-split P [] ys h = (tt, h)
All-split P (x ∷ xs) ys (h, hs) = let (left, right) = All-split P xs ys hs in ((h, left), right)

-- A number of attempts that an int64 can still count on.
abbrev pub Countable : ℤ → Type 0
Countable n = (neg_part n ≡ 0) × (pos_part n + 1 < 2 ^ 63)

add_one_lem : (n : ℤ) → Countable n → add_one n ≡ pos (pos_part n + 1)
unfolding add_one
add_one_lem n h = ground arith

below_limit : (max n : ℕ) (r a : ℤ) → r ≡ pos max → a ≡ pos n → leb_ℤ r a ≡ false → n < max
below_limit max n r a e f h = ground arith

module _ (redis : Streams) where
  abbrev pub attempts : XMessage → ℤ
  attempts m = int64_value redis.sscan m.values.attempts

  -- How often a message is delivered at most, from here on.
  abbrev pub left : ℕ → XMessage → ℕ
  left max m = suc (max - (pos_part (attempts m) + 1))

  abbrev pub budget : ℕ → List XMessage → ℕ
  budget max [] = 0
  budget max (m ∷ ms) = left max m + budget max ms

  budget-append :
      (max : ℕ) (xs ys : List XMessage) → budget max (xs ++ ys) ≡ budget max xs + budget max ys
  budget-append max [] ys = omega arith
  budget-append max (x ∷ xs) ys = omega (arith, budget-append max xs ys)

  length-budget : (max : ℕ) (ms : List XMessage) → length ms ≤ budget max ms
  length-budget max [] = omega arith
  length-budget max (m ∷ ms) = omega (arith, length-budget max ms)

  -- The messages can be counted on, and need no more deliveries than `cost`.
  abbrev pub Fits : (max cost : ℕ) → List XMessage → Type 0
  Fits max cost ms = (budget max ms ≤ cost) × All (λ m. Countable (attempts m)) ms

  Fits-more :
      (max cost more : ℕ) (ms : List XMessage) → cost ≤ more → Fits max cost ms → Fits max more ms
  Fits-more max cost more ms le h = (omega (arith, h.0), h.1)

  Fits-snoc :
      (max cost : ℕ) (ms : List XMessage) (m : XMessage)
      → Fits max cost ms
      → Countable (attempts m)
      → Fits max (cost + left max m) (ms ++ (m ∷ []))
  Fits-snoc max cost ms m h c = (
    omega (arith, h.0, budget-append max ms (m ∷ [])),
    All-append (λ x. Countable (attempts x)) ms (m ∷ []) h.1 (c, tt),
  )

module _ (redis : Streams)
    (takes : (stream : String) (v : Values) (s : redis.State) → (redis.xadd stream v s).0 ≡ true)
    (acks : (stream id : String) (s : redis.State) → (redis.xack stream id s).0 ≡ true) (max : ℕ)
    (small : max < 2 ^ 63) {World : Type 0} (b : RedisStreamBus World)
    (limit : b.max_retry ≡ pos max) (topic : String) where
  entry : String → Values → XMessage
  entry id v = record {
    id = id;
    values = record {
      payload = redis.kept v.payload;
      attempts = redis.kept v.attempts;
      source_id = v.source_id;
    };
  }

  waiting-dead_letter :
      (v : Values) (s : redis.State)
      → redis.waiting topic (redis.xadd (dead_letters topic) v s).1 ≡ redis.waiting topic s
  waiting-dead_letter v s =
      let dl = dead_letters topic in
      rw (redis.waiting-xadd dl topic v s (takes dl v s), (dead_letters_other topic).1) refl

  Fits-retry :
      (v : Values) (s : redis.State) (cost n : ℕ)
      → v.attempts ≡ Value.int64 (pos n)
      → n < max
      → Fits redis max cost (redis.waiting topic s)
      → Fits redis max (cost + (max - n)) (redis.waiting topic (redis.xadd topic v s).1)
  unfolding entry
  Fits-retry v s cost n e lt h =
      let m = entry (redis.next_id topic s) v in
      let a : attempts redis m ≡ pos n =
        ap (λ x. int64_value redis.sscan (redis.kept x)) e ∙ redis.attempts-kept n (omega arith) in
      let c : Countable (attempts redis m) = subst⁻¹ Countable a (refl, omega arith) in
      let k : left redis max m ≡ max - n = rw a (omega arith) in
      let w : redis.waiting topic (redis.xadd topic v s).1 ≡ redis.waiting topic s ++ (m ∷ []) =
        redis.waiting-xadd topic topic v s (takes topic v s)
        ∙ ap (λ t. if t then redis.waiting topic s ++ (m ∷ []) else redis.waiting topic s)
            (eq_refl topic) in
      subst⁻¹ (Fits redis max (cost + (max - n))) w (
        subst (λ k. Fits redis max (cost + k) (redis.waiting topic s ++ (m ∷ []))) k
          (Fits-snoc redis max cost (redis.waiting topic s) m h c))

  Fits-give_back :
      (msg : XMessage) (s : redis.State) (cost : ℕ)
      → Countable (attempts redis msg)
      → Fits redis max cost (redis.waiting topic s)
      → Fits redis max
          (cost + (left redis max msg - 1))
          (redis.waiting topic (give_back redis b topic msg s))
  unfolding give_back
  Fits-give_back msg s cost c h =
      let n = attempts redis msg in
      let next : add_one n ≡ pos (pos_part n + 1) = add_one_lem n c in
      elim (Bool-cases (leb_ℤ b.max_retry (add_one n))) [
        | inl e ↦ rw e (
            subst⁻¹ (Fits redis max (cost + (left redis max msg - 1))) (waiting-dead_letter _ s)
              (Fits-more redis max cost _ (redis.waiting topic s) (omega arith) h))
        | inr e ↦
            let lt : pos_part n + 1 < max =
              below_limit max (pos_part n + 1) b.max_retry (add_one n) limit next e in
            rw e (
              Fits-more redis max (cost + (max - (pos_part n + 1))) _ _ (omega arith)
                (Fits-retry _ s cost (pos_part n + 1) (ap Value.int64 next) lt h))
      ]

  Fits-xack :
      (id : String) (s : redis.State) (cost : ℕ)
      → Fits redis max cost (redis.waiting topic s)
      → Fits redis max cost (redis.waiting topic (redis.xack topic id s).1)
  Fits-xack id s cost h = subst⁻¹ (Fits redis max cost) (redis.waiting-xack topic id topic s) h

  module _ (h : Handler World) (known : lookup topic b.handlers ≡ some h) where
    Fits-handle_message :
        (m : XMessage) (sw : redis.State × World) (cost : ℕ)
        → Countable (attempts redis m)
        → Fits redis max cost (redis.waiting topic sw.0)
        → Fits redis max
            (cost + (left redis max m - 1))
            (redis.waiting topic (handle_message redis b topic m sw).0)
    unfolding handle_message handle_with
    Fits-handle_message m (s, w) cost c f =
        subst⁻¹
          (λ o.
            Fits redis max (cost + (left redis max m - 1))
              (redis.waiting topic (handle_with redis b o topic m (s, w)).0))
          known
          (elim (Bool-cases (h (payload_bytes m.values.payload) w).0) [
            | inl e ↦ rw e (
                Fits-xack m.id s _
                  (Fits-more redis max cost _ (redis.waiting topic s) (omega arith) f))
            | inr e ↦
                rw e (Fits-xack m.id (give_back redis b topic m s) _ (Fits-give_back m s cost c f))
          ])

    Fits-handle_all :
        (ms : List XMessage) (sw : redis.State × World) (cost : ℕ)
        → All (λ m. Countable (attempts redis m)) ms
        → Fits redis max cost (redis.waiting topic sw.0)
        → Fits redis max
            (cost + (budget redis max ms - length ms))
            (redis.waiting topic (handle_all redis b topic ms sw).0)
    unfolding handle_all
    Fits-handle_all [] sw cost cs f =
        Fits-more redis max cost _ (redis.waiting topic sw.0) (omega arith) f
    Fits-handle_all (m ∷ ms) sw cost (c, cs) f =
        let sw' = handle_message redis b topic m sw in
        Fits-more redis max (cost + (left redis max m - 1) + (budget redis max ms - length ms)) _ _
          (omega (arith, length-budget redis max ms))
          (Fits-handle_all ms sw' _ cs (Fits-handle_message m sw cost c f))

    -- A batch is taken off the front of the stream, and handled.
    Fits-handle_read :
        (answer : Read) (s s' : redis.State) (w : World) (cost : ℕ)
        → answer ≢ Read.failed
        → (answer ≡ Read.nothing → redis.waiting topic s ≡ [])
        → redis.waiting topic s ≡ (elim answer [
          | Read.nothing ↦ redis.waiting topic s'
          | Read.failed ↦ redis.waiting topic s'
          | Read.got m ms ↦
              if str_eq topic topic
              then (m ∷ ms) ++ redis.waiting topic s'
              else redis.waiting topic s'
        ])
        → Fits redis max cost (redis.waiting topic s)
        → Fits redis max
            (cost - 1)
            (redis.waiting topic (handle_read redis b topic answer (s', w)).0)
    unfolding handle_read
    Fits-handle_read Read.nothing s s' w cost ok empty law f =
        subst⁻¹ (Fits redis max (cost - 1)) (sym law ∙ empty refl) (omega arith, tt)
    Fits-handle_read Read.failed s s' w cost ok empty law f = absurd (ok refl)
    Fits-handle_read (Read.got m ms) s s' w cost ok empty law f =
        let here : redis.waiting topic s ≡ (m ∷ ms) ++ redis.waiting topic s' =
          law
          ∙ ap (λ t. if t then (m ∷ ms) ++ redis.waiting topic s' else redis.waiting topic s')
              (eq_refl topic) in
        let all = subst (Fits redis max cost) here f in
        let parts =
          All-split (λ x. Countable (attempts redis x)) (m ∷ ms) (redis.waiting topic s') all.1 in
        let sum = budget-append redis max (m ∷ ms) (redis.waiting topic s') in
        Fits-more redis max
          (cost - budget redis max (m ∷ ms) + (budget redis max (m ∷ ms) - length (m ∷ ms))) _ _
          (omega (arith, all.0, sum, length-budget redis max (m ∷ ms)))
          (Fits-handle_all (m ∷ ms) (s', w) _ parts.0 (omega (arith, all.0, sum), parts.1))

    module _
        (reads : (n : ℕ) (s : redis.State) → (redis.xread_group n topic s).0 ≢ Read.failed) where
      pub Fits-run_topic :
          (n : ℕ) (sw : redis.State × World) (cost : ℕ)
          → Fits redis max cost (redis.waiting topic sw.0)
          → Fits redis max (cost - n) (redis.waiting topic (run_topic redis b n topic sw).0)
      unfolding run_topic round
      Fits-run_topic zero sw cost f = Fits-more redis max cost _ _ (omega arith) f
      Fits-run_topic (suc n) (s, w) cost f =
          let (answer, s') = redis.xread_group 10 topic s in
          Fits-more redis max (cost - 1 - n) _ _ (omega arith) (
            Fits-run_topic n (handle_read redis b topic answer (s', w)) (cost - 1) (
              Fits-handle_read answer s s' w cost (reads 10 s)
                (redis.nothing-xread_group 10 topic s) (redis.waiting-xread_group 10 topic topic s)
                f))
