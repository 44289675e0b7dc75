-- ===== src/Tests/TranscodeRuns.antt =====
-- A transcoding task for a video of the samples, from a source of 1280 by 720.
use go_shortvideo.Prelude.{◌≡◌, refl, true, none, some, [], ◌∷◌}
use go_shortvideo.Prelude.Int.{pos}
use go_shortvideo.Dict.{insert}
use go_shortvideo.TextDict
use go_shortvideo.Store.State.{Store, new}
use go_shortvideo.Store.Calls.{run}
use go_shortvideo.Tests.Samples.{plain, calls}
use go_shortvideo.Transcode.Profiles.{default_resolutions, batch_transcode_with_resize}
use go_shortvideo.Transcode.Worker.{Task, Tools, collect}

abbrev tools : Tools
tools = record {
  exists = λ path. true;
  probe = λ path. some (pos 1280, pos 720);
  make_dir = λ video. true;
  output = λ task res. res.name;
  transcode = λ task res path. true;
  cover = λ task. none;
  play_url = λ video path. path;
  video_key = λ video res. res;
  cover_key = λ video. "cover.jpg";
  storage = none;
}

abbrev task : Task
task = record {
  video_id = 1;
  author_id = 1;
  source_path = "/tmp/cat.mp4";
  filename = "cat.mp4";
  ts_milli = 5;
}

abbrev world : Store
world = run plain calls new

-- Three resolutions, and 360p is played.
profiles :
    (collect tools task
      (batch_transcode_with_resize
        (tools.output task)
        (tools.transcode task)
        (pos 1280)
        (pos 720)
        default_resolutions)
      []
      []).0
    ≡ ("360p", "360p") ∷ ("540p", "540p") ∷ ("720p", "720p") ∷ []
unfolding collect batch_transcode_with_resize default_resolutions TextDict.insert
profiles = refl

-- A source below the smallest resolution is not transcoded at all.
too_small :
    batch_transcode_with_resize
      (tools.output task)
      (tools.transcode task)
      (pos 480)
      (pos 854)
      default_resolutions
    ≡ []
unfolding batch_transcode_with_resize default_resolutions
too_small = refl
