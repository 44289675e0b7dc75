-- ===== src/Feed/Fanout/Complete.antt =====
-- The pages of the fan-out, put together.
use mathlib.Core.List.{append_assoc}
use go_shortvideo.Prelude.{
  ℕ, zero, suc, ◌≤◌, ◌<◌, ◌≡◌, refl, sym, ◌∙◌, ap, Bool, true, false, arith, ◌∷◌, [], List, ◌++◌,
  Bool-cases, inl, inr, All, All-append, length, ltb, ◌==◌, take, drop, take-append-drop,
  length-drop, if◌then◌else◌, ltb→lt,
}
use go_shortvideo.IdSet.{contains, Distinct}
use go_shortvideo.Sort.{sort_slice, sort_slice-perm, perm_contains, perm_Distinct}
use go_shortvideo.Store.State.{Store, ids_of, new}
use go_shortvideo.Store.Users.{Bcrypt}
use go_shortvideo.Store.Calls.{Call, run}
use go_shortvideo.Store.Follows.{list_followers, followers_page}
use go_shortvideo.Store.Follows.Pages.{
  lt, Increasing, sort_slice-Increasing, last_of-take, next_page, followers_page_lem,
  next_page_last, next_page_more, cursor-lt, All-le_trans, drop-Increasing,
}
use go_shortvideo.Store.Invariant.Mirror.{followed_by, run-Mirrored, new-Mirrored}
use go_shortvideo.Feed.Timeline.{Redis, Command, batch_push_to_inbox, batch_push-append}
use go_shortvideo.Feed.Fanout.{
  FanoutTask, listed, to_listed, Outcome, done, mem_lister, push, handle_from, handle,
}

-- One pipeline for all these users.
abbrev pub push_all : (redis : Redis) → List ℕ → FanoutTask → redis.State → redis.State
push_all redis ids t st = (redis.exec (batch_push_to_inbox ids t.video_id t.ts_milli) st).1

-- What `ListFollowers` of the in-memory store answers.
mem_lister_lem :
    (s : Store) (author cursor n : ℕ) (front rest : List ℕ)
    → sort_slice lt (ids_of author s.followers) ≡ front ++ rest
    → All (λ x. x ≤ cursor) front
    → All (λ x. cursor < x) rest
    → (cursor ≡ 0 → front ≡ [])
    → mem_lister s author cursor (suc n) ≡ to_listed (next_page n rest)
unfolding mem_lister list_followers
mem_lister_lem s author cursor n front rest e low high first = ap to_listed (
    ap (λ (l : List ℕ). followers_page l cursor (suc n)) e
    ∙ followers_page_lem front rest cursor n low high first)

module _ (redis : Redis)
    (healthy : (cs : List Command) (st : redis.State) → (redis.exec cs st).0 ≡ true) where
  push-push_all :
      (ids : List ℕ) (t : FanoutTask) (st : redis.State)
      → push redis ids t st ≡ (true, push_all redis ids t st)
  unfolding push batch_push_to_inbox
  push-push_all [] t st = ap (λ (p : Bool × redis.State). (true, p.1)) (sym (redis.exec-nil st))
  push-push_all (x ∷ ids) t st =
      let cs = batch_push_to_inbox (x ∷ ids) t.video_id t.ts_milli in
      let some_ids : ltb 0 (suc (length ids)) ≡ true = ground arith in
      ap (λ (b : Bool). if b then redis.exec cs st else (true, st)) some_ids
      ∙ ap (λ (b : Bool). (b, push_all redis (x ∷ ids) t st)) (healthy cs st)

  push_all-append :
      (xs ys : List ℕ) (t : FanoutTask) (st : redis.State)
      → push_all redis ys t (push_all redis xs t st) ≡ push_all redis (xs ++ ys) t st
  push_all-append xs ys t st =
      rw (batch_push-append xs ys t.video_id t.ts_milli, push_all)
        (ap (λ (p : Bool × redis.State). p.1)
          (sym (
            redis.exec-append (batch_push_to_inbox xs t.video_id t.ts_milli)
              (batch_push_to_inbox ys t.video_id t.ts_milli) st (healthy _ st))))

  module _ (s : Store) (t : FanoutTask) (n : ℕ) where
    abbrev loop : (fuel cursor : ℕ) → redis.State → Outcome × redis.State
    loop = handle_from redis (mem_lister s) (suc n) t

    loop_last :
        (f cursor : ℕ) (ids : List ℕ) (st : redis.State)
        → mem_lister s t.author_id cursor (suc n) ≡ listed ids 0
        → loop (suc f) cursor st ≡ (done, push_all redis ids t st)
    unfolding handle_from
    loop_last f cursor ids st e = rw (e, handle_from, push-push_all ids t st)

    loop_more :
        (f cursor x : ℕ) (ids : List ℕ) (st : redis.State)
        → mem_lister s t.author_id cursor (suc n) ≡ listed ids x
        → 0 < x
        → loop (suc f) cursor st ≡ loop f x (push_all redis ids t st)
    unfolding handle_from
    loop_more f cursor x ids st e h =
        let not_last : (x == 0) ≡ false = ground arith in
        rw (e, handle_from, push-push_all ids t st) (rw not_last)

    loop_complete :
        (f cursor : ℕ) (front rest : List ℕ) (st : redis.State)
        → length rest < f
        → sort_slice lt (ids_of t.author_id s.followers) ≡ front ++ rest
        → All (λ x. x ≤ cursor) front
        → All (λ x. cursor < x) rest
        → (cursor ≡ 0 → front ≡ [])
        → Increasing rest
        → loop f cursor st ≡ (done, push_all redis rest t st)
    loop_complete zero cursor front rest st enough e low high first inc = elim enough [ ]
    loop_complete (suc f) cursor front rest st enough e low high first inc =
        let page = mem_lister_lem s t.author_id cursor n front rest e low high first in
        elim (Bool-cases (ltb (suc n) (length rest))) [
          | inr last ↦ loop_last f cursor rest st (page ∙ ap to_listed (next_page_last n rest last))
          | inl more ↦
              let longer = ltb→lt (suc n) (length rest) more in
              let (x, found, below, above) = last_of-take n rest longer inc in
              let up = cursor-lt cursor n x rest longer high below in
              let both = take-append-drop (suc n) rest in
              loop_more f cursor x (take (suc n) rest) st
                (page ∙ ap to_listed (next_page_more n x rest more found)) (omega arith)
              ∙ loop_complete f x (front ++ take (suc n) rest) (drop (suc n) rest)
                  (push_all redis (take (suc n) rest) t st)
                  (omega (arith, length-drop (suc n) rest))
                  (e ∙ ap (λ (l : List ℕ). front ++ l) (sym both) ∙ sym (append_assoc front _ _))
                  (All-append (λ y. y ≤ x) front (take (suc n) rest)
                    (All-le_trans cursor x front (omega arith) low) below)
                  above (λ z. absurd (omega arith)) (drop-Increasing (suc n) rest inc)
              ∙ ap (λ (st' : redis.State). (done, st'))
                  (push_all-append (take (suc n) rest) (drop (suc n) rest) t st
                    ∙ ap (λ (l : List ℕ). push_all redis l t st) both)
        ]

no_zero_pos : (xs : List ℕ) → contains 0 xs ≡ false → All (λ x. 0 < x) xs
unfolding contains
no_zero_pos [] h = tt
no_zero_pos (x ∷ xs) h = (ground arith, no_zero_pos xs (ground arith))

-- For any task, and in every state that the store's operations reach: when no pipeline fails, the
-- worker ends within one round more than the author has followers, and has done what a single
-- pipeline over all those followers does, each of them once.
pub handle_complete :
    (redis : Redis)
    → ((cs : List Command) (st : redis.State) → (redis.exec cs st).0 ≡ true)
    → (bcrypt : Bcrypt) (calls : List Call) (t : FanoutTask) (st : redis.State)
    → let s = run bcrypt calls new in
      (ids : List ℕ) × (handle redis (mem_lister s) (suc (length ids)) t st
        ≡ (done, push_all redis ids t st))
      × ((k : ℕ) → contains k ids ≡ followed_by t.author_id k s)
      × Distinct ids
unfolding handle followed_by
handle_complete redis healthy bcrypt calls t st =
    let s = run bcrypt calls new in
    let i = run-Mirrored bcrypt calls new new-Mirrored in
    let set = ids_of t.author_id s.followers in
    let ids = sort_slice lt set in
    let inc = sort_slice-Increasing set (i.followers_distinct t.author_id) in
    (
      ids,
      loop_complete redis healthy s t 499 (suc (length ids)) 0 [] ids st (omega arith) refl tt
          (no_zero_pos ids (perm_contains 0 (sort_slice-perm lt set) ∙ i.positive t.author_id))
          (λ z. refl) inc,
      λ k. perm_contains k (sort_slice-perm lt set),
      perm_Distinct (sort_slice-perm lt set) (i.followers_distinct t.author_id),
    )
