-- ===== src/Like/Latest.antt =====
-- The records of cmd/server/main.go's `memLikeRepo` under events that come late, twice or in another
-- order.
use go_shortvideo.Prelude.{
  ℕ, ◌≤◌, ◌≡◌, refl, sym, ap, ◌∙◌, ◌⊎◌, ◌↔◌, inl, inr, Bool, true, false, ◌&&◌, Option, none, some,
  List, [], ◌∷◌, ◌++◌, ltb, ◌==◌, if◌then◌else◌, arith, Bool-cases, Option-cases,
}
use go_shortvideo.Prelude.Int.{ℤ}
use go_shortvideo.Dict.{Dict}
use go_shortvideo.Like.Service.{LikeEvent, add_delta}
use go_shortvideo.Like.Consumer.{is_liked, change, write_events, handle_batch}
use go_shortvideo.Like.MemRepo.{
  LikeRecord, Records, MemLikeRepo, new_mem_like_repo, record_of, set_record, upsert_like,
  apply_count_deltas, mem_like_repo, deliver,
}

abbrev pub Among : LikeEvent → List LikeEvent → Type 0
Among e [] = ⊥
Among e (x ∷ xs) = (e ≡ x) ⊎ Among e xs

abbrev pub all_events : List (List LikeEvent) → List LikeEvent
all_events [] = []
all_events (batch ∷ batches) = batch ++ all_events batches

pub record_of-set_record :
    (a b u v : ℕ) (r : LikeRecord) (m : Records)
    → record_of u v (set_record a b r m) ≡ (if a == u && b == v then some r else record_of u v m)
unfolding record_of set_record
record_of-set_record a b u v r [] = ground arith
record_of-set_record a b u v r (e ∷ m) = ground (arith, record_of-set_record a b u v r m)

abbrev pub record_for : LikeEvent → LikeRecord
record_for e = record { liked = is_liked e.action; updated_at = e.ts_milli }

pub upsert_like-true :
    (e : LikeEvent) (repo : MemLikeRepo)
    → (upsert_like e.user_id e.video_id e.ts_milli (is_liked e.action) repo).0 ≡ true
unfolding upsert_like
upsert_like-true e repo = ground arith

module _ (u v : ℕ) where
  abbrev pub about : LikeEvent → Bool
  about e = e.user_id == u && e.video_id == v

  abbrev pub newer_of : LikeEvent → Option LikeRecord → Option LikeRecord
  newer_of e none = some (record_for e)
  newer_of e (some r) = if ltb r.updated_at e.ts_milli then some (record_for e) else some r

  abbrev pub settle : LikeEvent → Option LikeRecord → Option LikeRecord
  settle e o = if about e then newer_of e o else o

  settle-from :
      (e : LikeEvent) (o : Option LikeRecord) (r : LikeRecord)
      → settle e o ≡ some r
      → (o ≡ some r) ⊎ ((about e ≡ true) × (r ≡ record_for e))
  settle-from e none r h = elim (Bool-cases (about e)) [
    | inl t ↦ inr (t, ground arith)
    | inr f ↦ absurd (ground arith)
  ]
  settle-from e (some r0) r h = elim (Bool-cases (about e)) [
    | inr f ↦ inl (ground arith)
    | inl t ↦ elim (Bool-cases (ltb r0.updated_at e.ts_milli)) [
      | inl newer ↦ inr (t, ground arith)
      | inr older ↦ inl (ground arith)
    ]
  ]

  -- A record never goes away, and its time never falls.
  settle-some :
      (e : LikeEvent) (r : LikeRecord)
      → (r' : LikeRecord) × (settle e (some r) ≡ some r') × (r.updated_at ≤ r'.updated_at)
  settle-some e r = elim (Bool-cases (about e)) [
    | inr f ↦ (r, rw f, omega arith)
    | inl t ↦ elim (Bool-cases (ltb r.updated_at e.ts_milli)) [
      | inl newer ↦ (record_for e, ground arith, ground arith)
      | inr older ↦ (r, ground arith, omega arith)
    ]
  ]

  settle-about :
      (e : LikeEvent) (o : Option LikeRecord)
      → about e ≡ true
      → (r : LikeRecord) × (settle e o ≡ some r) × (e.ts_milli ≤ r.updated_at)
  settle-about e none h = (record_for e, rw h, omega arith)
  settle-about e (some r) h = elim (Bool-cases (ltb r.updated_at e.ts_milli)) [
    | inl newer ↦ (record_for e, ground arith, omega arith)
    | inr older ↦ (r, ground arith, ground arith)
  ]

  -- What the events make of the record of one pair.
  unfoldable pub after : List LikeEvent → Option LikeRecord → Option LikeRecord
  after [] o = o
  after (e ∷ es) o = after es (settle e o)

  pub after-append :
      (es fs : List LikeEvent) (o : Option LikeRecord) → after (es ++ fs) o ≡ after fs (after es o)
  unfolding after
  after-append [] fs o = refl
  after-append (e ∷ es) fs o = after-append es fs (settle e o)

  record_of-same :
      (e : LikeEvent) (m : Records)
      → about e ≡ true
      → record_of e.user_id e.video_id m ≡ record_of u v m
  record_of-same e m h =
      let us : e.user_id ≡ u = ground arith in
      let vs : e.video_id ≡ v = ground arith in
      ap (λ (x : ℕ). record_of x e.video_id m) us ∙ ap (λ (x : ℕ). record_of u x m) vs

  record_of-upsert_like :
      (e : LikeEvent) (repo : MemLikeRepo)
      → record_of u v
          (upsert_like e.user_id e.video_id e.ts_milli (is_liked e.action) repo).1.records
        ≡ settle e (record_of u v repo.records)
  unfolding upsert_like
  record_of-upsert_like e repo =
      let m = repo.records in
      let written = record_of-set_record e.user_id e.video_id u v (record_for e) m in
      elim (Bool-cases (about e)) [
        | inl same ↦
            let there = record_of-same e m same in
            elim (Option-cases (record_of u v m)) [
              | inl new ↦ ground (arith, written, there)
              | inr (r, old) ↦ ground (arith, written, there)
            ]
        | inr other ↦ ground (arith, written)
      ]

  record_of-write_events :
      (es : List LikeEvent) (deltas : Dict ℤ) (repo : MemLikeRepo)
      → let (answer, repo') = write_events mem_like_repo es deltas repo in
        ((m : Dict ℤ) × (answer ≡ some m))
        × (record_of u v repo'.records ≡ after es (record_of u v repo.records))
  unfolding write_events after
  record_of-write_events [] deltas repo = ((deltas, refl), refl)
  record_of-write_events (e ∷ es) deltas repo =
      let step = upsert_like e.user_id e.video_id e.ts_milli (is_liked e.action) repo in
      let ih = record_of-write_events es (add_delta e.video_id (change e.action) deltas) step.1 in
      rw (upsert_like-true e repo, write_events)
        (ih.0, ih.1 ∙ ap (after es) (record_of-upsert_like e repo))

  record_of-handle_batch :
      (es : List LikeEvent) (repo : MemLikeRepo)
      → record_of u v (handle_batch mem_like_repo es repo).1.records
        ≡ after es (record_of u v repo.records)
  unfolding handle_batch apply_count_deltas
  record_of-handle_batch es repo =
      let ((m, e), same) = record_of-write_events es [] repo in rw (e, handle_batch) same

  record_of-deliver :
      (bs : List (List LikeEvent)) (repo : MemLikeRepo)
      → record_of u v (deliver bs repo).records ≡ after (all_events bs) (record_of u v repo.records)
  unfolding deliver after
  record_of-deliver [] repo = refl
  record_of-deliver (b ∷ bs) repo =
      record_of-deliver bs (handle_batch mem_like_repo b repo).1
      ∙ ap (after (all_events bs)) (record_of-handle_batch b repo)
      ∙ sym (after-append b (all_events bs) (record_of u v repo.records))

  -- What the record of a pair is after events of which the latest was not in doubt.
  after-none :
      (es : List LikeEvent) (o : Option LikeRecord) (e : LikeEvent)
      → after es o ≡ none
      → (o ≡ none) × (Among e es → about e ≡ false)
  unfolding after
  after-none [] o e h = (h, λ m. absurd m)
  after-none (x ∷ es) o e h =
      let ih = after-none es (settle x o) e h in
      (
        ground arith,
        λ m. elim m [
          | inl same ↦ elim (Bool-cases (about x)) [
            | inl t ↦ absurd (ground arith)
            | inr f ↦ rw same f
          ]
          | inr later ↦ ih.1 later
        ],
      )

  after-le :
      (es : List LikeEvent) (o : Option LikeRecord) (r : LikeRecord)
      → after es o ≡ some r
      → ((r0 : LikeRecord) → o ≡ some r0 → r0.updated_at ≤ r.updated_at)
        × ((e : LikeEvent) → Among e es → about e ≡ true → e.ts_milli ≤ r.updated_at)
  unfolding after
  after-le [] o r h = (λ r0 e. ground arith, λ e m. absurd m)
  after-le (x ∷ es) o r h =
      let ih = after-le es (settle x o) r h in
      (
        λ r0 e.
            let (r1, step, le) = settle-some x r0 in
            let rest = ih.0 r1 (ap (settle x) e ∙ step) in omega arith,
        λ e m t. elim m [
          | inl same ↦
              let (r1, step, le) = settle-about x o (rw (← same) t) in
              let rest = ih.0 r1 step in omega (arith, ap (λ (y : LikeEvent). y.ts_milli) same)
          | inr later ↦ ih.1 e later t
        ],
      )

  pub after-from :
      (es : List LikeEvent) (o : Option LikeRecord) (r : LikeRecord)
      → after es o ≡ some r
      → (o ≡ some r) ⊎ ((e : LikeEvent) × Among e es × (about e ≡ true) × (r ≡ record_for e))
  unfolding after
  after-from [] o r h = inl h
  after-from (x ∷ es) o r h = elim (after-from es (settle x o) r h) [
    | inl e ↦ elim (settle-from x o r e) [
      | inl old ↦ inl old
      | inr (same, here) ↦ inr (x, inl refl, same, here)
    ]
    | inr (e, m, same, here) ↦ inr (e, inr m, same, here)
  ]

  pub after-new :
      (bs : List (List LikeEvent))
      → record_of u v (deliver bs new_mem_like_repo).records ≡ after (all_events bs) none
  unfolding record_of
  after-new bs = record_of-deliver bs new_mem_like_repo

  -- No event of the pair is later, and those of the same time agree.
  abbrev IsLatest : LikeEvent → List LikeEvent → Type 0
  IsLatest e es =
      Among e es
      × ((about e ≡ true)
          × ((d : LikeEvent)
              → Among d es
              → about d ≡ true
              → (d.ts_milli ≤ e.ts_milli) × (d.ts_milli ≡ e.ts_milli → d.action ≡ e.action)))

  after_latest :
      (es : List LikeEvent) (e : LikeEvent) → IsLatest e es → after es none ≡ some (record_for e)
  after_latest es e (here, (of_pair, last)) = elim (Option-cases (after es none)) [
    | inl gone ↦ absurd (ground (arith, (after-none es none e gone).1 here))
    | inr (r, found) ↦ elim (after-from es none r found) [
      | inl before ↦ absurd (ground arith)
      | inr (d, there, d_of_pair, is_d) ↦
          let le = (after-le es none r found).1 e here of_pair in
          let (ge, agree) = last d there d_of_pair in
          let time : d.ts_milli ≡ e.ts_milli =
            omega (arith, ap (λ (x : LikeRecord). x.updated_at) is_d) in
          let action = agree time in found ∙ ap some (is_d ∙ (ground arith))
    ]
  ]

  -- Of the events of the pair, those of one time agree.
  abbrev pub IsClear : List LikeEvent → Type 0
  IsClear es =
      (d e : LikeEvent)
      → Among d es
      → Among e es
      → about d ≡ true
      → about e ≡ true
      → d.ts_milli ≡ e.ts_milli
      → d.action ≡ e.action

  pub after_same :
      (es fs : List LikeEvent)
      → ((e : LikeEvent) → Among e es ↔ Among e fs)
      → IsClear es
      → after es none ≡ after fs none
  after_same es fs same clear = elim (Option-cases (after es none)) [
    | inl gone ↦ elim (Option-cases (after fs none)) [
      | inl too ↦ gone ∙ sym too
      | inr (r, found) ↦ elim (after-from fs none r found) [
        | inl before ↦ absurd (ground arith)
        | inr (d, there, of_pair, is_d) ↦
            absurd (ground (arith, (after-none es none d gone).1 ((same d).1 there)))
      ]
    ]
    | inr (r, found) ↦ elim (after-from es none r found) [
      | inl before ↦ absurd (ground arith)
      | inr (d, here, of_pair, is_d) ↦
          let last = (after-le es none r found).1 in
          found
          ∙ ap some is_d
          ∙ sym (
              after_latest fs d (
                (same d).0 here,
                (
                  of_pair,
                  λ e there e_of_pair.
                      let e_here = (same e).1 there in
                      let le = last e e_here e_of_pair in
                      (
                        omega (arith, ap (λ (x : LikeRecord). x.updated_at) is_d),
                        clear e d e_here here e_of_pair of_pair,
                      ),
                ),
              ))
    ]
  ]

-- The same events, in any order, any number of times and in any batches, leave the same records, if
-- of the events of one user and one video those of one time agree.
pub record_of-deliver_same :
    (user video : ℕ) (bs cs : List (List LikeEvent))
    → ((e : LikeEvent) → Among e (all_events bs) ↔ Among e (all_events cs))
    → IsClear user video (all_events bs)
    → record_of user video (deliver bs new_mem_like_repo).records
      ≡ record_of user video (deliver cs new_mem_like_repo).records
unfolding record_of
record_of-deliver_same user video bs cs same clear =
    after-new user video bs
    ∙ after_same user video (all_events bs) (all_events cs) same clear
    ∙ sym (after-new user video cs)
