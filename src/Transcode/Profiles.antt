-- ===== src/Transcode/Profiles.antt =====
-- pkg/media/transcode.go: the resolutions, and which of them a video is transcoded to. What ffmpeg
-- answers is a parameter.
use go_shortvideo.Prelude.{Bool, ◌||◌, String, List, [], ◌∷◌, if◌then◌else◌}
use go_shortvideo.Prelude.Int.{ℤ, pos, ltb_ℤ}

pub record Resolution : Type 0 where
  pub name : String
  pub width : ℤ
  pub height : ℤ
  pub bitrate : String

unfoldable pub default_resolutions : List Resolution
default_resolutions =
    record { name = "360p"; width = pos 640; height = pos 360; bitrate = "500k" }
    ∷ record { name = "540p"; width = pos 960; height = pos 540; bitrate = "1000k" }
    ∷ record { name = "720p"; width = pos 1280; height = pos 720; bitrate = "2000k" }
    ∷ record { name = "1080p"; width = pos 1920; height = pos 1080; bitrate = "4000k" }
    ∷ []

-- `TranscodeResult`; `worked` where its error is nil.
pub record TranscodeResult : Type 0 where
  pub resolution : Resolution
  pub output_path : String
  pub worked : Bool

-- `output` names the file for a resolution, and `transcode` makes it.
unfoldable pub batch_transcode_with_resize :
    (output : Resolution → String)
    → (transcode : Resolution → String → Bool) → (source_width source_height : ℤ) → List Resolution
    → List TranscodeResult
batch_transcode_with_resize output transcode w h [] = []
batch_transcode_with_resize output transcode w h (res ∷ rs) =
    let rest = batch_transcode_with_resize output transcode w h rs in
    if ltb_ℤ w res.width || ltb_ℤ h res.height
    then rest
    else record { resolution = res; output_path = output res; worked = transcode res (output res) }
      ∷ rest
