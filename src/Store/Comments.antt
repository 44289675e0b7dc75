-- ===== src/Store/Comments.antt =====
-- Comments: `AddComment` and `ListComments` of the in-memory store.
use text.Mathlib.Text.{◌==◌ as str_eq}
use go_shortvideo.Prelude.{ℕ, ◌+◌, String, none, some, List, [], ◌∷◌, ◌++◌, if◌then◌else◌}
use go_shortvideo.Dict.{Dict, lookup, insert, has_key}
use go_shortvideo.Model.{Video, Comment}
use go_shortvideo.Store.State.{Store, not_found, invalid, Result, ok, err, ids_of}

-- The part of `AddComment` behind its two look-ups: `v` is the record that `s.videos` holds at
-- `video`.
unfoldable pub comment_on : (now video user : ℕ) → String → Video → Store → Comment × Store
comment_on now video user content v s =
    let id = s.comment_seq + 1 in
    let c : Comment = record {
      id = id;
      video_id = video;
      user_id = user;
      content = content;
      created_at = now;
    } in
    (
      c,
      record s {
        comment_seq = id;
        comments = insert id c s.comments;
        video_comments = insert video (ids_of video s.video_comments ++ id ∷ []) s.video_comments;
        videos = insert video (record v { comment_count = v.comment_count + 1 }) s.videos;
      },
    )

unfoldable pub add_comment : (now video user : ℕ) → String → Store → Result Comment × Store
add_comment now video user content s =
    if str_eq content ""
    then (err invalid, s)
    else if has_key user s.users
    then elim (lookup video s.videos) [
      | none ↦ (err not_found, s)
      | some v ↦ let (c, s') = comment_on now video user content v s in (ok c, s')
    ]
    else (err not_found, s)

-- The loop of `ListComments`: an id that is not stored is passed over.
unfoldable pub comments_of : Dict Comment → List ℕ → List Comment
comments_of m [] = []
comments_of m (id ∷ ids) =
    let rest = comments_of m ids in elim (lookup id m) [ none ↦ rest | some c ↦ c ∷ rest ]

unfoldable pub list_comments : ℕ → Store → Result (List Comment)
list_comments video s =
    if has_key video s.videos
    then ok (comments_of s.comments (ids_of video s.video_comments))
    else err not_found
