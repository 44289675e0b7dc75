-- ===== src/Api/Videos.antt =====
-- internal/api/video.go and internal/api/rec.go. `body` is what `ShouldBindJSON` reads, or `none`
-- for an error.
use go_shortvideo.Prelude.{
  ℕ, Bool, false, String, Option, none, some, List, [], ◌∷◌, ◌++◌, map, if◌then◌else◌,
}
use go_shortvideo.Prelude.Int.{ℤ, pos, negsuc}
use go_shortvideo.Strconv.{parse_int}
use go_shortvideo.Dict.{Dict, lookup_or}
use go_shortvideo.Model.{Video, VideoStatus, uploading, transcoding, ready, failed}
use go_shortvideo.Store.State.{Store, Result, ok, err, not_found}
use go_shortvideo.Store.Videos.{Draft, create_video, get_video as stored_video}
use go_shortvideo.Store.Lists.{
  list_videos as stored_videos, list_user_videos as videos_of, next_cursor,
}
use go_shortvideo.Auth.Token.{user_id_from_context}
use go_shortvideo.Api.Service.{Services, App, Handler, Request}
use go_shortvideo.Api.Answer.{
  Response, VideoItem, success, fail, video, video_status, item, feed, rec_page, store_err_status,
  query_int, current_user_id,
}

unfoldable pub status_text : VideoStatus → String
status_text uploading = "上传中"
status_text transcoding = "转码中"
status_text ready = "已完成"
status_text failed = "失败"

abbrev pub video_at : ℤ → Store → Result Video
video_at (pos id) s = stored_video id s
video_at (negsuc n) s = err not_found

module _ (services : Services) where
  -- `h.fanoutPub.PublishFanout`, where there is a publisher.
  unfoldable pub announce : Handler → ℕ → Video → App services → App services
  announce h author v a =
      if h.fanout
      then record a {
        jobs =
            a.jobs
            ++ (record { author_id = author; video_id = v.id; ts_milli = v.created_at } ∷ []);
      }
      else a

  unfoldable pub publish_video :
      Handler → (now : ℕ) → Option Draft → Request → App services → Response services × App services
  publish_video h now body r a = elim (user_id_from_context r.context) [
    | none ↦ (fail 401, a)
    | some uid ↦ elim body [
      | none ↦ (fail 400, a)
      | some d ↦
          let (res, store) = create_video now uid d a.store in
          let a' : App services = record a { store = store } in
          elim res [
            | err e ↦ (fail (store_err_status e), a')
            | ok v ↦ (success (video v), announce h uid v a')
          ]
    ]
  ]

  unfoldable pub show_status : Request → App services → Response services × App services
  show_status r a = elim (parse_int r.id) [
    | none ↦ (fail 400, a)
    | some id ↦ elim (video_at id a.store) [
      | err e ↦ (fail (store_err_status e), a)
      | ok v ↦ (success (video_status v (status_text v.status)), a)
    ]
  ]

  abbrev pub counted : Option ℕ → Video → Video
  counted none v = v
  counted (some cnt) v = record v { like_count = cnt }

  -- What the current user likes, of the given videos; nothing where there is no user.
  unfoldable pub liked_map : Request → List ℕ → App services → Dict Bool
  liked_map r ids a = elim (current_user_id r.context) [
    | none ↦ []
    | some uid ↦ services.batch_is_liked uid ids (a.store, a.ext)
  ]

  unfoldable pub item_of : Dict Bool → App services → Video → VideoItem
  item_of liked a v = record {
    video = counted (services.count (pos v.id) (a.store, a.ext)) v;
    liked = lookup_or false v.id liked;
  }

  unfoldable pub get_video : Request → App services → Response services × App services
  get_video r a = elim (parse_int r.id) [
    | none ↦ (fail 400, a)
    | some id ↦ elim (video_at id a.store) [
      | err e ↦ (fail (store_err_status e), a)
      | ok v ↦ (success (item (item_of (liked_map r (v.id ∷ []) a) a v)), a)
    ]
  ]

  unfoldable pub write_feed : List Video → Request → App services → Response services
  write_feed videos r a =
      let liked = liked_map r (map (λ (v : Video). v.id) videos) a in
      success (feed (map (item_of liked a) videos) (next_cursor videos))

  unfoldable pub list_videos : Request → App services → Response services × App services
  list_videos r a =
      let max_id = query_int r.max_id (pos 0) in
      let limit = query_int r.limit (pos 10) in
      (write_feed (stored_videos max_id limit a.store) r a, a)

  abbrev pub user_videos_at : ℤ → ℤ → ℤ → Store → Result (List Video)
  user_videos_at (pos id) max_id limit s = videos_of id max_id limit s
  user_videos_at (negsuc n) max_id limit s = err not_found

  unfoldable pub list_user_videos : Request → App services → Response services × App services
  list_user_videos r a = elim (parse_int r.id) [
    | none ↦ (fail 400, a)
    | some id ↦
        elim (user_videos_at id (query_int r.max_id (pos 0)) (query_int r.limit (pos 10)) a.store) [
          | err e ↦ (fail (store_err_status e), a)
          | ok videos ↦ (write_feed videos r a, a)
        ]
  ]

  unfoldable pub recommend_feed : Request → App services → Response services × App services
  recommend_feed r a = elim (user_id_from_context r.context) [
    | none ↦ (fail 401, a)
    | some uid ↦ elim services.rec_svc [
      | none ↦ (write_feed (stored_videos (pos 0) (pos 10) a.store) r a, a)
      | some get ↦ elim (get uid (query_int r.cursor (pos 0)) (a.store, a.ext)) [
        | none ↦ (fail 500, a)
        | some page ↦ (success (rec_page page), a)
      ]
    ]
  ]
