-- ===== src/Like/Arrival.antt =====
-- From the like service to the records behind its events: what is on record once they have arrived.
use mathlib.Core.Path.{subst}
use go_shortvideo.Prelude.{
  ℕ, suc, ◌≤◌, ◌<◌, ◌≡◌, ◌↔◌, ◌⊎◌, refl, ap, sym, ◌∙◌, Bool, true, false, Option, none, some, List,
  [], ◌∷◌, ◌++◌, arith, if◌then◌else◌, ltb, Bool-cases, Option-cases, inl, inr,
}
use go_shortvideo.Like.Redis.{Redis}
use go_shortvideo.Like.Service.{Service, LikeEvent, liked, unliked, like_event}
use go_shortvideo.Like.Calls.{Call, step, run}
use go_shortvideo.Like.Count.{start}
use go_shortvideo.Like.Consumer.{is_liked}
use go_shortvideo.Like.Effect.{Injected, Quiet, Tells, Effect-step, Injected-step}
use go_shortvideo.Like.MemRepo.{LikeRecord, new_mem_like_repo, record_of, deliver}
use go_shortvideo.Like.Latest.{
  Among, all_events, about, settle, IsClear, after, after-append, after-from, after_same, after-new,
}

-- The times of likes and unlikes rise, from a time on.
abbrev pub Rising : ℕ → List Call → Type 0
Rising t [] = Unit
Rising t (Call.like now u v ∷ cs) = (t ≤ now) × Rising (suc now) cs
Rising t (Call.unlike now u v ∷ cs) = (t ≤ now) × Rising (suc now) cs
Rising t (Call.take_batch ∷ cs) = Rising t cs
Rising t (Call.send_batch ∷ cs) = Rising t cs

-- Whether a record says that the user likes the video.
abbrev pub on_record : Option LikeRecord → Bool
on_record none = false
on_record (some r) = r.liked

Among-snoc : (d e : LikeEvent) (es : List LikeEvent) → Among d (es ++ e ∷ []) → Among d es ⊎ (d ≡ e)
Among-snoc d e [] (inl same) = inr same
Among-snoc d e [] (inr there) = absurd there
Among-snoc d e (x ∷ es) (inl same) = inl (inl same)
Among-snoc d e (x ∷ es) (inr there) = elim (Among-snoc d e es there) [
  | inl old ↦ inl (inr old)
  | inr new ↦ inr new
]

module _ (u v : ℕ) where
  -- The events are before a time, those of one time agree, and together they say what is so.
  abbrev Recorded : ℕ → List LikeEvent → Bool → Type 0
  Recorded t es now =
      ((e : LikeEvent) → Among e es → e.ts_milli < t)
      × (IsClear u v es × (on_record (after u v es none) ≡ now))

  IsClear-snoc :
      (t : ℕ) (e : LikeEvent) (es : List LikeEvent)
      → t ≤ e.ts_milli
      → ((d : LikeEvent) → Among d es → d.ts_milli < t)
      → IsClear u v es
      → IsClear u v (es ++ e ∷ [])
  IsClear-snoc t e es late early clear a b ma mb pa pb time = elim (Among-snoc a e es ma) [
    | inl olda ↦ elim (Among-snoc b e es mb) [
      | inl oldb ↦ clear a b olda oldb pa pb time
      | inr newb ↦
          let before = early a olda in
          absurd (omega (arith, ap (λ (x : LikeEvent). x.ts_milli) newb))
    ]
    | inr newa ↦ elim (Among-snoc b e es mb) [
      | inl oldb ↦
          let before = early b oldb in
          absurd (omega (arith, ap (λ (x : LikeEvent). x.ts_milli) newa))
      | inr newb ↦ ap (λ (x : LikeEvent). x.action) (newa ∙ sym newb)
    ]
  ]

  on_record-settle :
      (t : ℕ) (e : LikeEvent) (es : List LikeEvent)
      → t ≤ e.ts_milli
      → ((d : LikeEvent) → Among d es → d.ts_milli < t)
      → on_record (settle u v e (after u v es none))
        ≡ (if about u v e then is_liked e.action else on_record (after u v es none))
  on_record-settle t e es late early = elim (Bool-cases (about u v e)) [
    | inr other ↦ rw other refl
    | inl of_pair ↦ elim (Option-cases (after u v es none)) [
      | inl none_yet ↦ rw (of_pair, none_yet) refl
      | inr (r, found) ↦ elim (after-from u v es none r found) [
        | inl before ↦ absurd (ground arith)
        | inr (d, there, d_of_pair, is_d) ↦
            let older = early d there in
            let time = ap (λ (x : LikeRecord). x.updated_at) is_d in
            let newer : ltb r.updated_at e.ts_milli ≡ true = ground arith in
            rw (of_pair, found, newer) refl
      ]
    ]
  ]

  Recorded-snoc :
      (t : ℕ) (e : LikeEvent) (es : List LikeEvent) (now : Bool)
      → t ≤ e.ts_milli
      → Recorded t es now
      → Recorded (suc e.ts_milli) (es ++ e ∷ []) (if about u v e then is_liked e.action else now)
  unfolding after
  Recorded-snoc t e es now late (early, (clear, so)) = (
    λ d m. elim (Among-snoc d e es m) [
      | inl old ↦ let before = early d old in omega arith
      | inr new ↦ omega (arith, ap (λ (x : LikeEvent). x.ts_milli) new)
    ],
    (
      IsClear-snoc t e es late early clear,
      ap on_record (after-append u v es (e ∷ []) none)
          ∙ on_record-settle t e es late early
          ∙ ap (λ (b : Bool). if about u v e then is_liked e.action else b) so,
    ),
  )

module _ (redis : Redis) (u v : ℕ) where
  abbrev Kept : ℕ → Service redis → Type 0
  Kept t s = Recorded u v t s.published (redis.member u v s.rdb)

  Kept-Quiet : (t t' : ℕ) (s s' : Service redis) → t ≤ t' → Quiet redis s s' → Kept t s → Kept t' s'
  Kept-Quiet t t' s s' le (members, same) (early, rest) =
      subst (λ (es : List LikeEvent). Recorded u v t' es (redis.member u v s'.rdb)) (sym same)
        (subst (λ (b : Bool). Recorded u v t' s.published b) (sym (members u v))
          ((λ e m. let before = early e m in omega arith), rest))

  Kept-Tells :
      (t : ℕ) (e : LikeEvent) (s s' : Service redis)
      → t ≤ e.ts_milli
      → Tells redis e s s'
      → Kept t s
      → Kept (suc e.ts_milli) s'
  Kept-Tells t e s s' late (members, (more, old)) kept =
      subst (λ (es : List LikeEvent). Recorded u v (suc e.ts_milli) es (redis.member u v s'.rdb))
        (sym more)
        (subst (λ (b : Bool). Recorded u v (suc e.ts_milli) (s.published ++ e ∷ []) b)
          (sym (members u v)) (Recorded-snoc u v t e s.published _ late kept))

  -- Every event was told before some time.
  Kept-run :
      (t : ℕ) (cs : List Call) (s : Service redis)
      → Rising t cs
      → Injected redis s
      → Kept t s
      → (t' : ℕ) × Kept t' (run redis cs s)
  unfolding run like_event
  Kept-run t [] s rising injected kept = (t, kept)
  Kept-run t (Call.like now a b ∷ cs) s (late, rising) injected kept =
      let c = Call.like now a b in
      let s' = step redis c s in
      Kept-run (suc now) cs s' rising (Injected-step redis c s injected)
        (elim (Effect-step redis c s injected) [
          | inl quiet ↦ Kept-Quiet t (suc now) s s' (omega arith) quiet kept
          | inr tells ↦ Kept-Tells t (like_event redis now a b liked) s s' late tells kept
        ])
  Kept-run t (Call.unlike now a b ∷ cs) s (late, rising) injected kept =
      let c = Call.unlike now a b in
      let s' = step redis c s in
      Kept-run (suc now) cs s' rising (Injected-step redis c s injected)
        (elim (Effect-step redis c s injected) [
          | inl quiet ↦ Kept-Quiet t (suc now) s s' (omega arith) quiet kept
          | inr tells ↦ Kept-Tells t (like_event redis now a b unliked) s s' late tells kept
        ])
  Kept-run t (Call.take_batch ∷ cs) s rising injected kept =
      let c = Call.take_batch in
      Kept-run t cs (step redis c s) rising (Injected-step redis c s injected)
        (Kept-Quiet t t s (step redis c s) (omega arith) (Effect-step redis c s injected) kept)
  Kept-run t (Call.send_batch ∷ cs) s rising injected kept =
      let c = Call.send_batch in
      Kept-run t cs (step redis c s) rising (Injected-step redis c s injected)
        (Kept-Quiet t t s (step redis c s) (omega arith) (Effect-step redis c s injected) kept)

  -- From a Redis where the user does not like the video, through any history of likes, unlikes and
  -- flushes at rising times, whatever commands fail on the way: when the events that were published
  -- have been handled, in any order, each once or more, and in any batches, the record of the user
  -- and the video in the repository says exactly whether the set of the user in Redis holds the video.
  pub on_record-deliver :
      (cs : List Call) (r : redis.State) (bs : List (List LikeEvent))
      → redis.member u v r ≡ false
      → Rising 0 cs
      → ((e : LikeEvent)
          → Among e (run redis cs (start redis r)).published ↔ Among e (all_events bs))
      → on_record (record_of u v (deliver bs new_mem_like_repo).records)
        ≡ redis.member u v (run redis cs (start redis r)).rdb
  unfolding after
  on_record-deliver cs r bs not_yet rising same =
      let s = start redis r in
      let (t, (early, (clear, so))) =
        Kept-run 0 cs s rising ([], refl)
          (λ e m. absurd m, ((λ d e m n p q w. absurd m), sym not_yet)) in
      ap on_record (
        after-new u v bs
        ∙ sym (after_same u v (run redis cs s).published (all_events bs) same clear))
      ∙ so
