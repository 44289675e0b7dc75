-- ===== src/Feed/Service/Cursor.antt =====
-- The cursor of the following feed.
use go_shortvideo.Prelude.{
  ℕ, ◌≡◌, ◌<◌, some, List, [], ◌∷◌, arith, All, All-append, Option-cases, inl, inr,
}
use go_shortvideo.Sort.{Sorter}
use go_shortvideo.Feed.Merge.{Entry, newer, merge_dedupe}
use go_shortvideo.Feed.Merge.Laws.{All-merge_dedupe}
use go_shortvideo.Feed.Timeline.{inbox, outbox}
use go_shortvideo.Feed.Read.{read_inbox, read_outbox, read_zset_by_score-below}
use go_shortvideo.Feed.Service.{
  Sources, FeedPage, last_score, next_of, read_outboxes, build_page, get_following_feed,
}

last_score-lt : (c : ℕ) (es : List Entry) → 0 < c → All (λ e. e.score < c) es → last_score es < c
unfolding last_score
last_score-lt c [] h k = h
last_score-lt c (e ∷ []) h k = k.0
last_score-lt c (e ∷ f ∷ es) h k = last_score-lt c (f ∷ es) h k.1

module _ (src : Sources) where
  inbox_below :
      (user cursor limit : ℕ) (es : List Entry)
      → 0 < cursor
      → read_inbox src.timelines user cursor limit ≡ some es
      → All (λ e. e.score < cursor) es
  unfolding read_inbox
  inbox_below user cursor limit es h e =
      read_zset_by_score-below src.timelines (inbox user) cursor limit es h e

  outbox_below :
      (author cursor limit : ℕ) (es : List Entry)
      → 0 < cursor
      → read_outbox src.timelines author cursor limit ≡ some es
      → All (λ e. e.score < cursor) es
  unfolding read_outbox
  outbox_below author cursor limit es h e =
      read_zset_by_score-below src.timelines (outbox author) cursor limit es h e

  outboxes_below :
      (authors : List ℕ) (cursor limit : ℕ)
      → 0 < cursor
      → All (λ e. e.score < cursor) (read_outboxes src authors cursor limit)
  unfolding read_outboxes
  outboxes_below [] cursor limit h = tt
  outboxes_below (a ∷ others) cursor limit h =
      elim (Option-cases (read_outbox src.timelines a cursor limit)) [
        | inl failed ↦ rw (failed, read_outboxes) (outboxes_below others cursor limit h)
        | inr (es, e) ↦
            rw (e, read_outboxes)
              (All-append (λ e. e.score < cursor) es (read_outboxes src others cursor limit)
                (outbox_below a cursor limit es h e) (outboxes_below others cursor limit h))
      ]

  -- A page that is asked for with a positive cursor gives back a cursor strictly below it.
  pub get_following_feed-cursor :
      (sorter : Sorter newer) (user cursor : ℕ) (page : FeedPage)
      → 0 < cursor
      → get_following_feed src sorter user cursor ≡ some page
      → page.next_cursor < cursor
  unfolding get_following_feed build_page next_of
  get_following_feed-cursor sorter user cursor page h e =
      elim (Option-cases (read_inbox src.timelines user cursor 30)) [
        | inl failed ↦ absurd (ground arith)
        | inr (pushed, i) ↦ elim (Option-cases (src.big_v_followees user)) [
          | inl failed ↦ absurd (ground arith)
          | inr (vs, b) ↦
              let pulled = read_outboxes src (src.arrivals vs) cursor 30 in
              let merged = merge_dedupe sorter pushed pulled 10 in
              let low = last_score-lt cursor merged h (
                All-merge_dedupe (λ e. e.score < cursor) sorter pushed pulled 10
                  (inbox_below user cursor 30 pushed h i)
                  (outboxes_below (src.arrivals vs) cursor 30 h)) in
              ground (arith, i, b, low, h)
        ]
      ]
