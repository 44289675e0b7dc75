-- ===== src/Like/Told.antt =====
-- What the like service tells the consumer of its events, against the sets in Redis.

use go_shortvideo.Prelude.{
  ℕ, ◌≡◌, ◌<◌, ap, sym, ◌∙◌, Bool, true, false, not, ◌&&◌, List, [], ◌∷◌, ◌++◌, ◌==◌, arith,
  if◌then◌else◌, inl, inr, All,
}
use go_shortvideo.Prelude.Int.{ℤ, pos, negsuc, ◌+ℤ◌, +ℤ_parts, eq_of_parts}
use go_shortvideo.Like.Redis.{Redis, flag}
use go_shortvideo.Like.Service.{Service, Action, LikeEvent, liked, unliked, like_event}
use go_shortvideo.Like.Calls.{Call, Below, step, run}
use go_shortvideo.Like.Sums.{fans, fans-same, fans-change, pos_0-+ℤ, +ℤ-pos_0, +ℤ_assoc}
use go_shortvideo.Like.Consumer.{change, is_liked}
use go_shortvideo.Like.Effect.{Injected, Effect, Effect-step, Injected-step}

-- What the events say of one video.
abbrev pub net : ℕ → List LikeEvent → ℤ
net k [] = pos 0
net k (e ∷ es) = let rest = net k es in if e.video_id == k then change e.action +ℤ rest else rest

net-snoc :
    (k : ℕ) (es : List LikeEvent) (e : LikeEvent)
    → net k (es ++ (e ∷ [])) ≡ (if e.video_id == k then net k es +ℤ change e.action else net k es)
net-snoc k [] e = ground (arith, +ℤ-pos_0 (change e.action), pos_0-+ℤ (change e.action))
net-snoc k (d ∷ es) e =
    ground (arith, net-snoc k es e, +ℤ_assoc (change d.action) (net k es) (change e.action))

change-exact :
    (a : Action) (old : Bool)
    → old ≡ not (is_liked a)
    → pos (flag old) +ℤ change a ≡ pos (flag (is_liked a))
change-exact liked old h = ground (arith, pos_0-+ℤ (pos 1))
change-exact unliked old h = ground (arith, +ℤ_parts (pos 1) (negsuc 0))

module _ (redis : Redis) where
  -- The events that were published say of each video how many users like it.
  abbrev pub Told : ℕ → Service redis → Type 0
  Told n s = (k : ℕ) → net k s.published ≡ pos (fans redis n k s.rdb)

  Told-gated :
      (n : ℕ) (e : LikeEvent) (now : Bool) (s s' : Service redis)
      → e.user_id < n
      → ((a b : ℕ)
          → redis.member a b s'.rdb
            ≡ (if e.user_id == a && e.video_id == b then now else redis.member a b s.rdb))
      → s'.published ≡ s.published ++ (e ∷ [])
      → (pos (flag (redis.member e.user_id e.video_id s.rdb)) +ℤ change e.action ≡ pos (flag now))
      → Told n s
      → Told n s'
  Told-gated n e now s s' below members more exact i k =
      let f = fans redis n k s.rdb in
      let f' = fans redis n k s'.rdb in
      let old = flag (redis.member e.user_id e.video_id s.rdb) in
      let d = change e.action in
      let grown : net k s'.published
          ≡ (if e.video_id == k then net k s.published +ℤ d else net k s.published) =
        ap (net k) more ∙ net-snoc k s.published e in
      eq_of_parts (net k s'.published) (pos f') (
        ground (
          arith,
          grown,
          i k,
          exact,
          +ℤ_parts (pos f) d,
          +ℤ_parts (pos old) d,
          fans-change redis n k e.user_id e.video_id now s.rdb s'.rdb members,
        ))

  Told-same :
      (n : ℕ) (s s' : Service redis)
      → ((a b : ℕ) → redis.member a b s'.rdb ≡ redis.member a b s.rdb)
      → s'.published ≡ s.published
      → Told n s
      → Told n s'
  Told-same n s s' members same i k =
      ap (net k) same ∙ i k ∙ ap pos (sym (fans-same redis n k s.rdb s'.rdb members))

  Told-Effect :
      (n : ℕ) (c : Call) (s s' : Service redis)
      → Below n c
      → Effect redis c s s'
      → Told n s
      → Told n s'
  unfolding like_event
  Told-Effect n (Call.like now u v) s s' below (inl (members, same)) i =
      Told-same n s s' members same i
  Told-Effect n (Call.like now u v) s s' below (inr (members, (more, old))) i =
      Told-gated n (like_event redis now u v liked) true s s' below members more
        (change-exact liked _ old) i
  Told-Effect n (Call.unlike now u v) s s' below (inl (members, same)) i =
      Told-same n s s' members same i
  Told-Effect n (Call.unlike now u v) s s' below (inr (members, (more, old))) i =
      Told-gated n (like_event redis now u v unliked) false s s' below members more
        (change-exact unliked _ old) i
  Told-Effect n Call.take_batch s s' below (members, same) i = Told-same n s s' members same i
  Told-Effect n Call.send_batch s s' below (members, same) i = Told-same n s s' members same i

  pub Told-run :
      (n : ℕ) (cs : List Call) (s : Service redis)
      → All (Below n) cs
      → Injected redis s
      → Told n s
      → Told n (run redis cs s)
  unfolding run
  Told-run n [] s below injected i = i
  Told-run n (c ∷ cs) s (here, below) injected i =
      Told-run n cs (step redis c s) below (Injected-step redis c s injected)
        (Told-Effect n c s (step redis c s) here (Effect-step redis c s injected) i)
