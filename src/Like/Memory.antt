-- ===== src/Like/Memory.antt =====
-- internal/like/mem_adapter.go: the store as the service for likes of the handlers.
use go_shortvideo.Prelude.{ℕ, ◌≡◌, refl, Bool, true, Option, none, some, List, arith}
use go_shortvideo.Prelude.Int.{ℤ, pos, negsuc}
use go_shortvideo.Dict.{Dict}
use go_shortvideo.Store.State.{Store, Result, ok, err, not_found}
use go_shortvideo.Store.Likes.{like as store_like, unlike as store_unlike, batch_has_liked}
use go_shortvideo.Store.Videos.{get_video}
use go_shortvideo.Api.Service.{Services, refused}

-- No video has a negative id.
unfoldable pub mem_like : ℕ → ℤ → Store → Result Bool × Store
mem_like uid (pos vid) s = store_like uid vid s
mem_like uid (negsuc n) s = (err not_found, s)

unfoldable pub mem_unlike : ℕ → ℤ → Store → Result Bool × Store
mem_unlike uid (pos vid) s = store_unlike uid vid s
mem_unlike uid (negsuc n) s = (err not_found, s)

unfoldable pub mem_count : ℤ → Store → Option ℕ
mem_count (pos vid) s = elim (get_video vid s) [ err e ↦ none | ok v ↦ some v.like_count ]
mem_count (negsuc n) s = none

unfoldable pub mem_batch_is_liked : ℕ → List ℕ → Store → Dict Bool
mem_batch_is_liked uid vids s = batch_has_liked uid vids s

pub mem_like-refused :
    (u : ℕ) (v : ℤ) (s : Store) → refused (some (mem_like u v s).0) ≡ true → (mem_like u v s).1 ≡ s
unfolding mem_like store_like
mem_like-refused u (pos v) s e = ground arith
mem_like-refused u (negsuc n) s e = refl

pub mem_unlike-refused :
    (u : ℕ) (v : ℤ) (s : Store)
    → refused (some (mem_unlike u v s).0) ≡ true
    → (mem_unlike u v s).1 ≡ s
unfolding mem_unlike store_unlike
mem_unlike-refused u (pos v) s e = ground arith
mem_unlike-refused u (negsuc n) s e = refl

-- `NewMemLikeService`, with no feed service and no recommender: the set-up without Redis.
abbrev pub mem_services : Services
mem_services = record {
  Ext = Unit;
  FeedItem = Unit;
  RecPage = Unit;
  like = λ u v s. (some (mem_like u v s.0).0, ((mem_like u v s.0).1, s.1));
  unlike = λ u v s. (some (mem_unlike u v s.0).0, ((mem_unlike u v s.0).1, s.1));
  count = λ v s. mem_count v s.0;
  batch_is_liked = λ u vs s. mem_batch_is_liked u vs s.0;
  feed_svc = none;
  rec_svc = none;
}
