-- ===== src/Tests/Samples.antt =====
-- A small world: three users, two videos, a like, a comment and two follows; a bcrypt that keeps
-- the password and a Redis that keeps the log of its commands.
use mathlib.Core.List.{append-nil, append_assoc}
use text.Mathlib.Text.{◌==◌ as str_eq}
use text.Mathlib.TextPositions.{eq_refl}
use go_shortvideo.Prelude.{ℕ, ◌≡◌, sym, ap, true, String, some, List, [], ◌∷◌, ◌++◌}
use go_shortvideo.Prelude.Int.{pos}
use go_shortvideo.Model.{Video, ready}
use go_shortvideo.Store.Users.{Bcrypt}
use go_shortvideo.Store.Videos.{Draft}
use go_shortvideo.Store.Calls.{Call}
use go_shortvideo.Feed.Timeline.{Redis, Command}

pub plain_accepts-generate : (salt : ℕ) (p h : String) → some p ≡ some h → str_eq h p ≡ true
plain_accepts-generate salt p h e = let same : p ≡ h = cc in rw same (eq_refl h)

abbrev pub plain : Bcrypt
plain = record {
  generate = λ salt p. some p;
  accepts = λ h p. str_eq h p;
  accepts-generate = plain_accepts-generate;
}

-- It never fails, and its state is every command that it was sent.
abbrev pub logging : Redis
logging = record {
  State = List Command;
  exec = λ cs s. (true, s ++ cs);
  exec-nil = λ s. ap (λ (l : List Command). (true, l)) (append-nil s);
  exec-append = λ xs ys s h. ap (λ (l : List Command). (true, l)) (sym (append_assoc s xs ys));
}

abbrev pub draft : String → Draft
draft title = record {
  title = title;
  play_url = "/uploads/1.mp4";
  cover_url = "";
  duration = pos 30;
  width = pos 1920;
  height = pos 1080;
  file_size = pos 0;
}

-- Users 1, 2 and 3; videos 1 and 2 of users 1 and 2; 3 follows 1 and 2, likes video 1 and comments
-- on it.
abbrev pub calls : List Call
calls =
    Call.create_user 0 100 "alice" "password123"
    ∷ Call.create_user 0 101 "bob" "password123"
    ∷ Call.create_user 0 102 "carol" "password123"
    ∷ Call.create_video 110 1 (draft "cat")
    ∷ Call.create_video 111 2 (draft "sea")
    ∷ Call.follow 3 1
    ∷ Call.follow 3 2
    ∷ Call.like 3 1
    ∷ Call.like 3 1
    ∷ Call.add_comment 120 1 3 "nice"
    ∷ []

-- Video 1 after these calls.
abbrev pub video_1 : Video
video_1 = record {
  id = 1;
  author_id = 1;
  title = "cat";
  play_url = "/uploads/1.mp4";
  play_urls = [];
  cover_url = "";
  duration = pos 30;
  status = ready;
  width = pos 1920;
  height = pos 1080;
  file_size = pos 0;
  created_at = 110;
  like_count = 1;
  comment_count = 1;
  view_count = 0;
}
