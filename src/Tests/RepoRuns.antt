-- ===== src/Tests/RepoRuns.antt =====
-- The records of the in-memory repository for likes, under events that come late and twice.
use go_shortvideo.Prelude.{◌≡◌, refl, ◌↔◌, false, some, List, [], ◌∷◌, arith, inl, inr}
use go_shortvideo.Like.Service.{LikeEvent, liked, unliked, add_delta}
use go_shortvideo.Like.Consumer.{handle_batch, write_events}
use go_shortvideo.Like.MemRepo.{
  new_mem_like_repo, record_of, set_record, upsert_like, apply_count_deltas, deliver,
}
use go_shortvideo.Like.Latest.{Among, IsClear, all_events, record_of-deliver_same}

-- A like that is handled late and twice, and the later unlike.
abbrev pub first_like : LikeEvent
first_like = record { user_id = 1; video_id = 7; action = liked; ts_milli = 5 }

abbrev pub later_unlike : LikeEvent
later_unlike = record { user_id = 1; video_id = 7; action = unliked; ts_milli = 9 }

abbrev pub in_order : List (List LikeEvent)
in_order = (first_like ∷ []) ∷ (later_unlike ∷ []) ∷ []

abbrev pub shuffled : List (List LikeEvent)
shuffled = (later_unlike ∷ first_like ∷ []) ∷ (first_like ∷ []) ∷ []

pub events_agree : (e : LikeEvent) → Among e (all_events in_order) ↔ Among e (all_events shuffled)
events_agree e = (
  λ h. elim h [
    | inl a ↦ inr (inl a)
    | inr (inl b) ↦ inl b
    | inr (inr none_left) ↦ absurd none_left
  ],
  λ h. elim h [
    | inl b ↦ inr (inl b)
    | inr (inl a) ↦ inl a
    | inr (inr (inl a)) ↦ inl a
    | inr (inr (inr none_left)) ↦ absurd none_left
  ],
)

events-IsClear : IsClear 1 7 (all_events in_order)
events-IsClear d e (inl a) (inl b) p q t = ground arith
events-IsClear d e (inl a) (inr (inl b)) p q t = absurd (ground arith)
events-IsClear d e (inr (inl a)) (inl b) p q t = absurd (ground arith)
events-IsClear d e (inr (inl a)) (inr (inl b)) p q t = ground arith
events-IsClear d e (inl a) (inr (inr none_left)) p q t = absurd none_left
events-IsClear d e (inr (inl a)) (inr (inr none_left)) p q t = absurd none_left
events-IsClear d e (inr (inr none_left)) h p q t = absurd none_left

record_of-deliver_same_example :
    record_of 1 7 (deliver in_order new_mem_like_repo).records
    ≡ record_of 1 7 (deliver shuffled new_mem_like_repo).records
record_of-deliver_same_example =
    record_of-deliver_same 1 7 in_order shuffled events_agree events-IsClear

latest_wins :
    record_of 1 7 (deliver shuffled new_mem_like_repo).records
    ≡ some (record { liked = false; updated_at = 9 })
unfolding deliver handle_batch write_events upsert_like set_record record_of add_delta
    apply_count_deltas
latest_wins = refl
