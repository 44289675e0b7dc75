-- ===== src/Mq/Ack.antt =====
-- Every message that the bus over Redis streams reads is acknowledged, whatever becomes of it.
use text.Mathlib.Text.{◌==◌ as str_eq}
use text.Mathlib.TextPositions.{eq_refl}
use mathlib.Core.Path.{subst⁻¹}
use go_shortvideo.Prelude.{
  ℕ, zero, suc, ◌≡◌, refl, ap, sym, ◌∙◌, Bool, true, false, not, ◌||◌, String, Option, none, some,
  List, [], ◌∷◌, ◌++◌, arith, Bool-cases, inl, inr, All, keep, map,
}
use go_shortvideo.Prelude.Int.{leb_ℤ}
use go_shortvideo.TextDict.{lookup}
use go_shortvideo.Mq.Streams.{Streams, Read, XMessage, payload_bytes, int64_value}
use go_shortvideo.Mq.Bus.{
  RedisStreamBus, Handler, add_one, give_back, handle_with, handle_message, handle_all, handle_read,
  round, run_topic,
}

abbrev among : String → List String → Bool
among j [] = false
among j (i ∷ ids) = str_eq i j || among j ids

abbrev pub ids : List XMessage → List String
ids msgs = map (λ (m : XMessage). m.id) msgs

among-keep :
    (id : String) (rest pending : List String)
    → All (λ j. among j (id ∷ rest) ≡ true) pending
    → All (λ j. among j rest ≡ true) (keep (λ j. not (str_eq id j)) pending)
among-keep id rest [] h = tt
among-keep id rest (j ∷ js) (h, hs) = elim (Bool-cases (str_eq id j)) [
  | inl e ↦ rw e (among-keep id rest js hs)
  | inr e ↦ rw e (sym (ap (λ t. t || among j rest) e) ∙ h, among-keep id rest js hs)
]

among-more :
    (i : String) (rest js : List String)
    → All (λ j. among j rest ≡ true) js
    → All (λ j. among j (i ∷ rest) ≡ true) js
among-more i rest [] h = tt
among-more i rest (j ∷ js) (h, hs) =
    (elim (Bool-cases (str_eq i j)) [ inl e ↦ rw e refl | inr e ↦ rw e h ], among-more i rest js hs)

among-All : (js : List String) → All (λ j. among j js ≡ true) js
among-All [] = tt
among-All (j ∷ js) = (rw (eq_refl j) refl, among-more j js js (among-All js))

nothing_among : (pending : List String) → All (λ j. among j [] ≡ true) pending → pending ≡ []
nothing_among [] h = refl
nothing_among (j ∷ js) h = ground arith

module _ (redis : Streams)
    (acks : (stream id : String) (s : redis.State) → (redis.xack stream id s).0 ≡ true)
    {World : Type 0} (b : RedisStreamBus World) (topic : String) where
  -- The unacknowledged messages in state `s` are among the given ones.
  abbrev Left : List String → redis.State → Type 0
  Left rest s = All (λ j. among j rest ≡ true) (redis.pending topic s)

  Left-give_back :
      (m : XMessage) (ids : List String) (s : redis.State)
      → Left ids s
      → Left ids (give_back redis b topic m s)
  unfolding give_back
  Left-give_back m ids s h =
      elim (Bool-cases (leb_ℤ b.max_retry (add_one (int64_value redis.sscan m.values.attempts)))) [
        | inl e ↦ rw e (subst⁻¹ (All (λ j. among j ids ≡ true)) (redis.pending-xadd _ topic _ s) h)
        | inr e ↦ rw e (subst⁻¹ (All (λ j. among j ids ≡ true)) (redis.pending-xadd _ topic _ s) h)
      ]

  Left-xack :
      (id : String) (rest : List String) (s : redis.State)
      → Left (id ∷ rest) s
      → Left rest (redis.xack topic id s).1
  Left-xack id rest s h =
      subst⁻¹ (All (λ j. among j rest ≡ true)) (redis.pending-xack topic id s (acks topic id s))
        (among-keep id rest (redis.pending topic s) h)

  Left-handle_with :
      (o : Option (Handler World)) (m : XMessage) (rest : List String) (sw : redis.State × World)
      → Left (m.id ∷ rest) sw.0
      → Left rest (handle_with redis b o topic m sw).0
  unfolding handle_with
  Left-handle_with none m rest (s, w) p = Left-xack m.id rest s p
  Left-handle_with (some h) m rest (s, w) p =
      elim (Bool-cases (h (payload_bytes m.values.payload) w).0) [
        | inl e ↦ rw e (Left-xack m.id rest s p)
        | inr e ↦
            rw e (
              Left-xack m.id rest (give_back redis b topic m s)
                (Left-give_back m (m.id ∷ rest) s p))
      ]

  Left-handle_all :
      (ms : List XMessage) (sw : redis.State × World)
      → Left (ids ms) sw.0
      → Left [] (handle_all redis b topic ms sw).0
  unfolding handle_all handle_message
  Left-handle_all [] sw p = p
  Left-handle_all (m ∷ ms) sw p =
      Left-handle_all ms (handle_message redis b topic m sw)
        (Left-handle_with (lookup topic b.handlers) m (ids ms) sw p)

  -- `before` are the ids that are unacknowledged when the answer comes.
  Left-handle_read :
      (answer : Read) (before : List String) (s' : redis.State) (w : World)
      → before ≡ []
      → redis.pending topic s' ≡ (elim answer [
        | Read.nothing ↦ before
        | Read.failed ↦ before
        | Read.got m ms ↦ before ++ ids (m ∷ ms)
      ])
      → Left [] (handle_read redis b topic answer (s', w)).0
  unfolding handle_read
  Left-handle_read Read.nothing before s' w none_yet e =
      subst⁻¹ (All (λ j. among j [] ≡ true)) (e ∙ none_yet) tt
  Left-handle_read Read.failed before s' w none_yet e =
      subst⁻¹ (All (λ j. among j [] ≡ true)) (e ∙ none_yet) tt
  Left-handle_read (Read.got m ms) before s' w none_yet e =
      Left-handle_all (m ∷ ms) (s', w)
        (subst⁻¹ (All (λ j. among j (ids (m ∷ ms)) ≡ true))
          (e ∙ ap (λ l. l ++ ids (m ∷ ms)) none_yet) (among-All (ids (m ∷ ms))))

  pub pending-run_topic :
      (n : ℕ) (sw : redis.State × World)
      → redis.pending topic sw.0 ≡ []
      → redis.pending topic (run_topic redis b n topic sw).0 ≡ []
  unfolding run_topic round
  pending-run_topic zero sw e = e
  pending-run_topic (suc n) (s, w) e =
      let (answer, s') = redis.xread_group 10 topic s in
      pending-run_topic n (handle_read redis b topic answer (s', w)) (
        nothing_among _ (
          Left-handle_read answer (redis.pending topic s) s' w e
            (redis.pending-xread_group 10 topic s)))
