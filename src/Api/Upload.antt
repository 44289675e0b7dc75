-- ===== src/Api/Upload.antt =====
-- internal/api/upload.go. The files, ffprobe and ffmpeg, and the texts of names and paths are given.
use text.Mathlib.Text.{starts_with, ◌==◌ as str_eq}
use go_shortvideo.Prelude.{
  ℕ, Bool, false, ◌||◌, not, String, Option, none, some, [], ◌∷◌, if◌then◌else◌,
}
use go_shortvideo.Prelude.Int.{ℤ, pos}
use go_shortvideo.Store.State.{ok, err}
use go_shortvideo.Store.Videos.{Draft, create_video, update_video_playback_urls}
use go_shortvideo.Auth.Token.{user_id_from_context}
use go_shortvideo.Api.Service.{Services, App, Handler, Request}
use go_shortvideo.Api.Answer.{Response, success, fail, uploaded}
use go_shortvideo.Api.Videos.{announce}

-- What `http.DetectContentType` says of the first bytes; `unreadable` where they cannot be read, or
-- the file cannot be set back to its start.
pub data Sniffed : Type 0 where
  unreadable : Sniffed
  mime : String → Sniffed

-- A file of a form: its name, the extension of the name in lower case, and the name without this
-- extension, which is the whole name where it stands there in upper case.
pub record FormFile : Type 0 where
  pub filename : String
  pub ext : String
  pub stem : String
  pub sniffed : Sniffed

-- What the handler finds on its machine. `probe` is duration, width and height.
pub record UploadTools : Type 0 where
  pub make_dir : Bool
  pub create_file : Bool
  pub file_size : ℤ
  pub probe : Option (ℤ × (ℤ × ℤ))
  pub cover_made : Bool
  pub dst_path : String
  pub play_url : String
  pub made_cover_url : String

-- What `PublishTranscode` is called with.
pub record TranscodeJob : Type 0 where
  pub video_id : ℕ
  pub author_id : ℕ
  pub source_path : String
  pub filename : String

unfoldable pub allowed_video_ext : String → Bool
allowed_video_ext ext =
    str_eq ext ".mp4"
    || str_eq ext ".mov"
    || str_eq ext ".webm"
    || str_eq ext ".m4v"
    || str_eq ext ".avi"
    || str_eq ext ".mkv"

-- Whether there is no error.
unfoldable pub validate_video_mime : Sniffed → Bool
validate_video_mime unreadable = false
validate_video_mime (mime m) = starts_with m "video/" || str_eq m "application/octet-stream"

abbrev pub size_or_zero : Option (ℤ × (ℤ × ℤ)) → ℤ × (ℤ × ℤ)
size_or_zero none = (pos 0, (pos 0, pos 0))
size_or_zero (some size) = size

-- The user, or 0 behind an answer with 401.
abbrev pub user_or_zero : Option ℕ → ℕ
user_or_zero none = 0
user_or_zero (some uid) = uid

-- The video that is created for a file.
abbrev pub draft_of : UploadTools → FormFile → Draft
draft_of tools file =
    let (duration, (width, height)) = size_or_zero tools.probe in
    record {
      title = file.stem;
      play_url = tools.play_url;
      cover_url = if tools.cover_made then tools.made_cover_url else "";
      duration = duration;
      width = width;
      height = height;
      file_size = tools.file_size;
    }

module _ (services : Services) where
  -- The status that is written first stays.
  abbrev pub answer_first : Option ℕ → Response services → Response services
  answer_first none r = record r { status = 401 }
  answer_first (some uid) r = r

  -- The last part of `Upload`, behind the file. `transcode` says whether there is a publisher.
  unfoldable pub publish_upload :
      Handler
      → (transcode : Bool) → (now : ℕ) → UploadTools
      → FormFile
      → Request
      → App services
      → Response services × (App services × Option TranscodeJob)
  publish_upload h transcode now tools file r a =
      let user = user_id_from_context r.context in
      let uid = user_or_zero user in
      let cover = if tools.cover_made then tools.made_cover_url else "" in
      let (res, store) = create_video now uid (draft_of tools file) a.store in
      elim res [
        | err e ↦ (answer_first user (fail 500), (record a { store = store }, none))
        | ok v ↦
            let (done, store') =
              update_video_playback_urls v.id tools.play_url cover
                (("original", tools.play_url) ∷ []) store in
            let a' = announce services h uid v (record a { store = store' }) in
            (
              answer_first user (success (uploaded v tools.play_url cover file.filename)),
              (
                a',
                if transcode
                    then some (record {
                      video_id = v.id;
                      author_id = uid;
                      source_path = tools.dst_path;
                      filename = file.filename;
                    })
                    else none,
              ),
            )
      ]

  unfoldable pub upload :
      Handler
      → (transcode : Bool) → (now : ℕ) → UploadTools
      → Option FormFile
      → Request
      → App services
      → Response services × (App services × Option TranscodeJob)
  unfolding publish_upload allowed_video_ext validate_video_mime
  upload h transcode now tools form r a = elim form [
    | none ↦ (fail 400, (a, none))
    | some file ↦
        if not (allowed_video_ext file.ext)
        then (fail 400, (a, none))
        else if not (validate_video_mime file.sniffed)
        then (fail 400, (a, none))
        else if not tools.make_dir
        then (fail 500, (a, none))
        else if not tools.create_file
        then (fail 500, (a, none))
        else publish_upload h transcode now tools file r a
  ]
