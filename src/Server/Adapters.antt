-- ===== src/Server/Adapters.antt =====
-- The adapters of cmd/server/main.go: what publishes tasks, and what reads the store for a feed.
use go_shortvideo.Prelude.{ℕ, Bool, false, String, List, [], ◌∷◌, ◌==◌, if◌then◌else◌}
use go_shortvideo.Prelude.Int.{ℤ, pos, negsuc}
use go_shortvideo.Model.{Video}
use go_shortvideo.Store.State.{Store, ok, err}
use go_shortvideo.Store.Videos.{get_video}
use go_shortvideo.Feed.Timeline.{Redis, append_to_outbox}
use go_shortvideo.Feed.Fanout.{FanoutTask}
use go_shortvideo.Feed.Service as FeedService
use go_shortvideo.Rec.Service as RecService
use go_shortvideo.Transcode.Worker.{Task}
use go_shortvideo.Like.Service.{LikeEvent}

-- `mq.Producer`: what a bus does with a payload; `true` for a nil error. A payload is what
-- `json.Marshal` writes.
pub record Producer : Type 1 where
  pub State : Type 0
  pub publish : (topic : String) → (payload : List ℕ) → State → Bool × State
  pub marshal_event : LikeEvent → List ℕ
  pub marshal_fanout : FanoutTask → List ℕ
  pub marshal_task : Task → List ℕ

module _ (bus : Producer) where
  -- `busProducer.Publish`
  unfoldable pub publish_event : (topic : String) → LikeEvent → bus.State → Bool × bus.State
  publish_event topic e s = bus.publish topic (bus.marshal_event e) s

  -- `PublishFanout` without a store of feeds.
  unfoldable pub send_fanout : (topic : String) → (author video ts : ℕ) → bus.State → bus.State
  send_fanout topic author video ts s =
      (bus.publish topic
        (bus.marshal_fanout (record { author_id = author; video_id = video; ts_milli = ts })) s).1

  abbrev pub stamp : (now : ℕ) → ℤ → ℕ
  stamp now (pos n) = if n == 0 then now else n
  stamp now (negsuc n) = now

  -- `PublishFanout` with one: nothing is sent where the outbox cannot be written.
  unfoldable pub publish_fanout :
      (redis : Redis)
      → (topic : String) → (now author video : ℕ) → (ts : ℤ) → redis.State × bus.State
      → redis.State × bus.State
  unfolding send_fanout
  publish_fanout redis topic now author video ts (feeds, s) =
      let (written, feeds') = redis.exec (append_to_outbox author video (stamp now ts)) feeds in
      if written then (feeds', send_fanout topic author video (stamp now ts) s) else (feeds', s)

  -- `PublishTranscode`; `available` says whether there is ffmpeg.
  unfoldable pub publish_transcode :
      (available : Bool)
      → (video author : ℕ) → (source_path filename : String) → bus.State
      → bus.State
  publish_transcode available video author source_path filename s =
      if available
      then (bus.publish "transcode"
          (bus.marshal_task (record {
            video_id = video;
            author_id = author;
            source_path = source_path;
            filename = filename;
            ts_milli = 0;
          }))
          s).1
      else s

abbrev pub to_feed_vo : Video → FeedService.VideoVo
to_feed_vo v = record {
  video_id = v.id;
  author_id = v.author_id;
  title = v.title;
  play_url = v.play_url;
  cover_url = v.cover_url;
  created_at = v.created_at;
  like_count = v.like_count;
  liked = false;
}

-- `storeHydrator.BatchGetVisible`: a video that is not stored is passed over.
unfoldable pub batch_get_visible : Store → List ℕ → List FeedService.VideoVo
batch_get_visible s [] = []
batch_get_visible s (id ∷ ids) =
    let rest = batch_get_visible s ids in
    elim (get_video id s) [ err e ↦ rest | ok v ↦ to_feed_vo v ∷ rest ]

abbrev pub to_rec_vo : Video → RecService.VideoVo
to_rec_vo v = record {
  video_id = v.id;
  author_id = v.author_id;
  title = v.title;
  play_url = v.play_url;
  cover_url = v.cover_url;
  created_at = v.created_at;
  like_count = v.like_count;
  comment_count = v.comment_count;
  liked = false;
}

-- `recHydrator.BatchGet`
unfoldable pub batch_get : Store → List ℕ → List RecService.VideoVo
batch_get s [] = []
batch_get s (id ∷ ids) =
    let rest = batch_get s ids in elim (get_video id s) [ err e ↦ rest | ok v ↦ to_rec_vo v ∷ rest ]
