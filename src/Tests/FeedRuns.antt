-- ===== src/Tests/FeedRuns.antt =====
-- The feed's theorems at sample inputs.
use mathlib.Core.List.Permᴰ
use mathlib.Core.Path.{subst}
use mathlib.Core.Option.{some-injective}
use go_shortvideo.Prelude.{
  ℕ, zero, suc, Bool-cases, inl, inr, ltb→lt, ◌≡◌, ◌<◌, ◌≤◌, refl, none, some, List, [], ◌∷◌, ◌++◌,
  arith, ltb, length, min, All, keep,
}
use go_shortvideo.IdSet.{contains, add, Distinct}
use go_shortvideo.Sort.{Ordered, Sorter, IsOrder, slice_sorter, sort_slice}
use go_shortvideo.Store.State.{new}
use go_shortvideo.Store.Calls.{run}
use go_shortvideo.Store.Invariant.Mirror.{followed_by}
use go_shortvideo.Feed.Fanout.{FanoutTask, done, mem_lister, handle}
use go_shortvideo.Feed.Fanout.Complete.{handle_complete, push_all}
use go_shortvideo.Feed.Merge.{Entry, newer, merge_dedupe, dedupe}
use go_shortvideo.Feed.Merge.Laws.{video_ids, merge_dedupe_lem}
use go_shortvideo.Feed.Read.{
  Bound, plus_inf, below, up_to, Within, Timelines, read_inbox, read_outbox, read_zset_by_score,
  max_of, entries,
}
use go_shortvideo.Feed.Service.{
  Sources, FeedPage, get_following_feed, build_page, read_outboxes, next_of, mark_liked,
}
use go_shortvideo.Feed.Service.Cursor.{get_following_feed-cursor}
use go_shortvideo.Tests.Samples.{plain, calls, logging}

abbrev task : FanoutTask
task = record { author_id = 1; video_id = 1; ts_milli = 110 }

handle_complete_example :
    (ids : List ℕ) × (handle logging (mem_lister (run plain calls new)) (suc (length ids)) task []
      ≡ (done, push_all logging ids task []))
    × ((k : ℕ) → contains k ids ≡ followed_by 1 k (run plain calls new))
    × Distinct ids
handle_complete_example = handle_complete logging (λ cs st. refl) plain calls task []

newer-IsOrder : IsOrder newer
newer-IsOrder = record { asym = λ a b h. ground arith; ge_trans = λ a b c h k. ground arith }

abbrev by_time : Sorter newer
by_time = slice_sorter newer-IsOrder

abbrev inbox : List Entry
inbox = record { video_id = 1; score = 110 } ∷ record { video_id = 2; score = 111 } ∷ []

abbrev outbox : List Entry
outbox = record { video_id = 2; score = 111 } ∷ record { video_id = 3; score = 90 } ∷ []

merge_dedupe_lem_example :
    (left : List Entry) × Distinct (video_ids (merge_dedupe by_time inbox outbox 2 ++ left))
    × ((k : ℕ)
        → contains k (video_ids (merge_dedupe by_time inbox outbox 2 ++ left))
          ≡ contains k (video_ids (inbox ++ outbox)))
    × Ordered newer (merge_dedupe by_time inbox outbox 2 ++ left)
    × (length (merge_dedupe by_time inbox outbox 2)
        ≡ min 2 (length (merge_dedupe by_time inbox outbox 2 ++ left)))
merge_dedupe_lem_example = merge_dedupe_lem by_time inbox outbox 2

-- `n` scores and members, from `n` to 1, and what a query finds of them.
abbrev countdown : ℕ → List (ℕ × ℕ)
countdown zero = []
countdown (suc n) = (suc n, suc n) ∷ countdown n

abbrev found_in : Bound → List (ℕ × ℕ)
found_in plus_inf = countdown 12
found_in (below c) = keep (λ z. ltb z.0 c) (countdown 12)
found_in (up_to c) = keep (λ z. ltb z.0 (suc c)) (countdown 12)

any_score : (zs : List (ℕ × ℕ)) → All (λ z. Within plus_inf z.0) zs
unfolding Within
any_score [] = tt
any_score (z ∷ zs) = (tt, any_score zs)

keep_below : (c : ℕ) (zs : List (ℕ × ℕ)) → All (λ z. z.0 < c) (keep (λ z. ltb z.0 c) zs)
keep_below c [] = tt
keep_below c (z ∷ zs) = elim (Bool-cases (ltb z.0 c)) [
  | inl low ↦ rw low (ltb→lt z.0 c low, keep_below c zs)
  | inr high ↦ rw high (keep_below c zs)
]

keep_up_to : (c : ℕ) (zs : List (ℕ × ℕ)) → All (λ z. z.0 ≤ c) (keep (λ z. ltb z.0 (suc c)) zs)
keep_up_to c [] = tt
keep_up_to c (z ∷ zs) = elim (Bool-cases (ltb z.0 (suc c))) [
  | inl low ↦ rw low (ground (arith, low), keep_up_to c zs)
  | inr high ↦ rw high (keep_up_to c zs)
]

found_in-Within : (b : Bound) → All (λ z. Within b z.0) (found_in b)
unfolding Within
found_in-Within plus_inf = any_score (countdown 12)
found_in-Within (below c) = keep_below c (countdown 12)
found_in-Within (up_to c) = keep_up_to c (countdown 12)

-- One timeline serves as everybody's inbox and outbox.
abbrev timelines : Timelines
timelines = record {
  zrev_range_by_score = λ key b limit. some (found_in b);
  zrev_range_by_score-Within = λ key b limit zs e.
      subst (λ (l : List (ℕ × ℕ)). All (λ z. Within b z.0) l) (some-injective _ _ e)
        (found_in-Within b);
}

abbrev sources : Sources
sources = record {
  timelines = timelines;
  big_v_followees = λ u. some (7 ∷ []);
  arrivals = λ vs. vs;
  batch_get_visible = λ vs. some [];
  batch_is_liked = λ u vs. none;
  arrivals-perm = λ vs. Permᴰ.refl vs;
}

-- Of twelve entries below 13 a page shows ten, down to score 3.
abbrev full_page : FeedPage
full_page = record { videos = []; next_cursor = 3 }

full_page-read : get_following_feed sources by_time 1 13 ≡ some full_page
unfolding get_following_feed build_page read_outboxes read_inbox read_outbox read_zset_by_score
    max_of entries next_of mark_liked merge_dedupe dedupe sort_slice contains add
full_page-read = refl

get_following_feed-cursor_example : 3 < 13
get_following_feed-cursor_example =
    get_following_feed-cursor sources by_time 1 13 full_page (omega arith) full_page-read
