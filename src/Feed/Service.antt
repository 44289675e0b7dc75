-- ===== src/Feed/Service.antt =====
-- `GetFollowingFeed` of internal/feed/service.go and `readBigVOutboxesConcurrently` of
-- internal/feed/pull.go. Redis, the relation service, the video and the like providers are
-- parameters; `none` is an error.
pub mod Cursor
use go_shortvideo.Prelude.{
  ℕ, Bool, true, false, String, Option, none, some, List, [], ◌∷◌, ◌++◌, ◌≡◌, ◌<◌, ◌==◌, map,
  length, All, if◌then◌else◌, ◌*◌,
}
use mathlib.Core.List.{Permᴰ}
use go_shortvideo.Dict.{Dict, lookup_or}
use go_shortvideo.Sort.{Sorter}
use go_shortvideo.Feed.Merge.{Entry, newer, merge_dedupe}
use go_shortvideo.Feed.Read.{Timelines, read_inbox, read_outbox}

abbrev pub page_size : ℕ
page_size = 10

pub record VideoVo : Type 0 where
  pub video_id : ℕ
  pub author_id : ℕ
  pub title : String
  pub play_url : String
  pub cover_url : String
  pub created_at : ℕ
  pub like_count : ℕ
  pub liked : Bool

pub record FeedPage : Type 0 where
  pub videos : List VideoVo
  pub next_cursor : ℕ

-- What the service is given. `arrivals` is the order in which the goroutines of one read add their
-- entries.
pub record Sources : Type 0 where
  pub timelines : Timelines
  pub big_v_followees : ℕ → Option (List ℕ)
  pub arrivals : List ℕ → List ℕ
  pub batch_get_visible : List ℕ → Option (List VideoVo)
  pub batch_is_liked : ℕ → List ℕ → Option (Dict Bool)
  pub arrivals-perm : (vs : List ℕ) → Permᴰ (arrivals vs) vs

-- The score of the last entry of a full page, else 0.
unfoldable pub last_score : List Entry → ℕ
last_score [] = 0
last_score (e ∷ []) = e.score
last_score (e ∷ f ∷ es) = last_score (f ∷ es)

unfoldable pub next_of : List Entry → ℕ
unfolding last_score
next_of merged = if length merged == page_size then last_score merged else 0

-- A look-up that failed likes nothing.
unfoldable pub mark : Option (Dict Bool) → VideoVo → VideoVo
mark liked v = record v {
  liked = elim liked [ none ↦ false | some m ↦ lookup_or false v.video_id m ];
}

-- The loop that marks the videos which the user likes.
unfoldable pub mark_liked : Option (Dict Bool) → List VideoVo → List VideoVo
unfolding mark
mark_liked liked vs = map (mark liked) vs

module _ (src : Sources) where
  -- The outboxes in the order of arrival; one that cannot be read is passed over.
  unfoldable pub read_outboxes : List ℕ → (cursor limit : ℕ) → List Entry
  read_outboxes [] cursor limit = []
  read_outboxes (author ∷ authors) cursor limit =
      let rest = read_outboxes authors cursor limit in
      elim (read_outbox src.timelines author cursor limit) [ none ↦ rest | some es ↦ es ++ rest ]

  module _ (sorter : Sorter newer) where
    -- Steps 3 to 6, behind the reads.
    unfoldable pub build_page : (user cursor : ℕ) → (inbox pulled : List Entry) → Option FeedPage
    build_page user cursor inbox pulled =
        let merged = merge_dedupe sorter inbox pulled page_size in
        let ids = map (λ e. e.video_id) merged in
        elim (src.batch_get_visible ids) [
          | none ↦ none
          | some videos ↦ some (record {
            videos = mark_liked (src.batch_is_liked user ids) videos;
            next_cursor = next_of merged;
          })
        ]

    unfoldable pub get_following_feed : (user cursor : ℕ) → Option FeedPage
    get_following_feed user cursor =
        let fetch = page_size * 3 in
        elim (read_inbox src.timelines user cursor fetch) [
          | none ↦ none
          | some inbox ↦ elim (src.big_v_followees user) [
            | none ↦ none
            | some big_vs ↦
                build_page user cursor inbox (read_outboxes (src.arrivals big_vs) cursor fetch)
          ]
        ]
