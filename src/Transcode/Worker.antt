-- ===== src/Transcode/Worker.antt =====
-- `Worker` of internal/transcode/worker.go. The texts of paths, addresses and keys, the files, ffmpeg
-- and the object storage are parameters.
use go_shortvideo.Prelude.{
  ℕ, Bool, true, false, String, Option, none, some, List, [], ◌∷◌, if◌then◌else◌,
}
use go_shortvideo.Prelude.Int.{ℤ, pos}
use go_shortvideo.TextDict.{insert}
use go_shortvideo.Model.{VideoStatus, transcoding, ready, failed}
use go_shortvideo.Transcode.Profiles.{
  Resolution, TranscodeResult, default_resolutions, batch_transcode_with_resize,
}

pub record Task : Type 0 where
  pub video_id : ℕ
  pub author_id : ℕ
  pub source_path : String
  pub filename : String
  pub ts_milli : ℕ

-- `StatusUpdater`, with what its errors leave; the worker ignores the errors themselves.
pub record StatusUpdater (U : Type 0) : Type 0 where
  pub update_status : ℕ → VideoStatus → U → U
  pub update_play_urls : ℕ → String → List (String × String) → U → U

-- An object storage that is not local.
pub record Storage : Type 0 where
  pub put_object : (key path : String) → Bool
  pub object_url : (key : String) → String

-- What a task finds on its machine. `cover` is the path and the address of the cover, if one is made.
pub record Tools : Type 0 where
  pub exists : (path : String) → Bool
  pub probe : (path : String) → Option (ℤ × ℤ)
  pub make_dir : (video : ℕ) → Bool
  pub output : Task → Resolution → String
  pub transcode : Task → Resolution → String → Bool
  pub cover : Task → Option (String × String)
  pub play_url : (video : ℕ) → (output_path : String) → String
  pub video_key : (video : ℕ) → (resolution : String) → String
  pub cover_key : (video : ℕ) → String
  pub storage : Option Storage

-- The loop that collects the addresses and the paths of what worked, by the name of the resolution.
unfoldable pub collect :
    Tools
    → Task
    → List TranscodeResult
    → List (String × String)
    → List (String × String)
    → List (String × String) × List (String × String)
collect tools task [] urls paths = (urls, paths)
collect tools task (r ∷ rs) urls paths = elim r.worked [
  | false ↦ collect tools task rs urls paths
  | true ↦
      collect tools task rs
        (insert r.resolution.name (tools.play_url task.video_id r.output_path) urls)
        (insert r.resolution.name r.output_path paths)
]

-- The loop of `uploadToOSS`: `none` is an error.
unfoldable pub upload_all :
    Tools
    → Storage
    → ℕ
    → List (String × String)
    → List (String × String)
    → Option (List (String × String))
upload_all tools oss video [] urls = some urls
upload_all tools oss video ((res, path) ∷ paths) urls =
    elim (oss.put_object (tools.video_key video res) path) [
      | false ↦ none
      | true ↦
          upload_all tools oss video paths
            (insert res (oss.object_url (tools.video_key video res)) urls)
    ]

-- The cover at the end of `uploadToOSS`: its address.
unfoldable pub upload_cover : Tools → Storage → ℕ → Option (String × String) → Option String
upload_cover tools oss video none = some ""
upload_cover tools oss video (some (path, url)) =
    if oss.put_object (tools.cover_key video) path
    then some (oss.object_url (tools.cover_key video))
    else none

unfoldable pub upload_to_oss :
    Tools
    → Storage
    → ℕ
    → List (String × String)
    → List (String × String)
    → Option (String × String)
    → Option (List (String × String) × String)
upload_to_oss tools oss video paths urls cover = elim (upload_all tools oss video paths urls) [
  | none ↦ none
  | some urls' ↦ elim (upload_cover tools oss video cover) [
    | none ↦ none
    | some cover_url ↦ some (urls', cover_url)
  ]
]

abbrev pub cover_address : Option (String × String) → String
cover_address none = ""
cover_address (some (path, url)) = url

-- The size where ffprobe finds none.
abbrev pub size_or_default : Option (ℤ × ℤ) → ℤ × ℤ
size_or_default none = (pos 1920, pos 1080)
size_or_default (some size) = size

-- The end of a task: nil, an error, or the panic of a call on a nil updater.
pub data Outcome : Type 0 where
  done refused panicked : Outcome

module _ {U : Type 0} (updater : Option (StatusUpdater U)) (tools : Tools) where
  unfoldable pub mark_if : ℕ → VideoStatus → U → U
  mark_if video status u = elim updater [ none ↦ u | some up ↦ up.update_status video status u ]

  -- A failure is marked without a look whether there is an updater.
  unfoldable pub fail : ℕ → U → Outcome × U
  fail video u = elim updater [
    | none ↦ (panicked, u)
    | some up ↦ (refused, up.update_status video failed u)
  ]

  unfoldable pub finish : ℕ → String → List (String × String) → U → Outcome × U
  finish video cover_url urls u = elim updater [
    | none ↦ (done, u)
    | some up ↦ (done, up.update_status video ready (up.update_play_urls video cover_url urls u))
  ]

  -- What follows the transcoding, for what has worked.
  unfoldable pub publish :
      ℕ
      → Option (String × String)
      → List (String × String) × List (String × String)
      → U
      → Outcome × U
  publish video cover ([], paths) u = fail video u
  publish video cover (url ∷ urls, paths) u = elim tools.storage [
    | none ↦ finish video (cover_address cover) (url ∷ urls) u
    | some oss ↦ elim (upload_to_oss tools oss video paths (url ∷ urls) cover) [
      | none ↦ fail video u
      | some (urls', cover_url) ↦ finish video cover_url urls' u
    ]
  ]

  unfoldable pub handle : Task → U → Outcome × U
  handle task u =
      if tools.exists task.source_path
      then (let u' = mark_if task.video_id transcoding u in
          let (w, h) = size_or_default (tools.probe task.source_path) in
          if tools.make_dir task.video_id
          then (let results =
                batch_transcode_with_resize (tools.output task) (tools.transcode task) w h
                  default_resolutions in
              publish task.video_id (tools.cover task) (collect tools task results [] []) u')
          else (refused, u'))
      else (refused, u)
