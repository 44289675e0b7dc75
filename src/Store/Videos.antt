-- ===== src/Store/Videos.antt =====
-- Videos: `CreateVideo`, `GetVideo`, `UpdateVideoStatus`, `UpdateVideoPlaybackURLs`.
use text.Mathlib.Text.{◌==◌ as str_eq}
use go_shortvideo.Prelude.{ℕ, ◌+◌, String, none, some, ◌||◌, List, [], if◌then◌else◌, ◌∷◌}
use go_shortvideo.Prelude.Int.{ℤ}
use go_shortvideo.Dict.{lookup, insert, has_key}
use go_shortvideo.Model.{Video, VideoStatus, ready}
use go_shortvideo.Store.State.{Store, not_found, invalid, Result, ok, err}

-- What a client sends with a video.
pub record Draft : Type 0 where
  pub title : String
  pub play_url : String
  pub cover_url : String
  pub duration : ℤ
  pub width : ℤ
  pub height : ℤ
  pub file_size : ℤ

-- The record that `CreateVideo` builds.
unfoldable pub make_video : (id now author : ℕ) → Draft → Video
make_video id now author d = record {
  id = id;
  author_id = author;
  title = d.title;
  play_url = d.play_url;
  play_urls = [];
  cover_url = d.cover_url;
  duration = d.duration;
  status = ready;
  width = d.width;
  height = d.height;
  file_size = d.file_size;
  created_at = now;
  like_count = 0;
  comment_count = 0;
  view_count = 0;
}

unfoldable pub create_video : (now author : ℕ) → Draft → Store → Result Video × Store
create_video now author d s =
    if str_eq d.title "" || str_eq d.play_url ""
    then (err invalid, s)
    else if has_key author s.users
    then (let id = s.video_seq + 1 in
        let v = make_video id now author d in
        (ok v, record s { video_seq = id; videos = insert id v s.videos }))
    else (err not_found, s)

unfoldable pub get_video : ℕ → Store → Result Video
get_video id s = elim (lookup id s.videos) [ none ↦ err not_found | some v ↦ ok v ]

unfoldable pub update_video_status : ℕ → VideoStatus → Store → Result (Unit {0}) × Store
update_video_status id status s = elim (lookup id s.videos) [
  | none ↦ (err not_found, s)
  | some v ↦ (ok tt, record s { videos = insert id (record v { status = status }) s.videos })
]

-- An empty address or an empty table of addresses leaves the field as it is.
abbrev pub or_keep : String → String → String
or_keep fresh old = if str_eq fresh "" then old else fresh

abbrev pub urls_or_keep : List (String × String) → List (String × String) → List (String × String)
urls_or_keep [] old = old
urls_or_keep (u ∷ us) old = u ∷ us

unfoldable pub update_video_playback_urls :
    ℕ → String → String → List (String × String) → Store → Result (Unit {0}) × Store
update_video_playback_urls id play_url cover_url play_urls s = elim (lookup id s.videos) [
  | none ↦ (err not_found, s)
  | some v ↦ (
    ok tt,
    record s {
      videos =
          insert id
            (record v {
              play_url = or_keep play_url v.play_url;
              play_urls = urls_or_keep play_urls v.play_urls;
              cover_url = or_keep cover_url v.cover_url;
            })
            s.videos;
    },
  )
]

unfoldable pub update_video_playback : ℕ → String → String → Store → Result (Unit {0}) × Store
update_video_playback id play_url cover_url = update_video_playback_urls id play_url cover_url []
