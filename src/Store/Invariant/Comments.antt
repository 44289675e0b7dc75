-- ===== src/Store/Invariant/Comments.antt =====
-- The comment lists of the videos: their counts, their order, and what `ListComments` returns.
use mathlib.Core.Path.{subst}
use go_shortvideo.Prelude.{
  ℕ, ◌+◌, ◌≤◌, ◌≡◌, refl, ==_iff, sym, ap, ◌∙◌, some, none, true, false, arith, ◌∷◌, [], List, ◌++◌,
  Bool, Bool-cases, inl, inr, Option-cases, All, All-append, length, length-append, map, ◌==◌,
  String, ltb, length-map,
}
use go_shortvideo.Dict.{Dict, lookup, insert, lookup-insert}
use go_shortvideo.Sort.{Ordered}
use go_shortvideo.Store.State.{Store, new, ids_of, ids_of-insert, ok}
use go_shortvideo.Store.Users.{Bcrypt, create_user, store_user}
use go_shortvideo.Store.Videos.{
  create_video, make_video, update_video_status, update_video_playback_urls,
}
use go_shortvideo.Store.Likes.{like, like_video, unlike, unlike_video}
use go_shortvideo.Store.Comments.{add_comment, comment_on, comments_of, list_comments}
use go_shortvideo.Store.Follows.{follow, unfollow}
use go_shortvideo.Store.Calls.{Call, step, run}
use go_shortvideo.Store.Invariant.Keys.{Keyed, new-Keyed, step-Keyed, run-Keyed}
use go_shortvideo.Model.{Video, Comment}

-- The id names a stored comment on the video.
abbrev pub is_on : Dict Comment → ℕ → ℕ → Bool
is_on m vid id = elim (lookup id m) [ none ↦ false | some c ↦ c.video_id == vid ]

abbrev AllOn : Dict Comment → ℕ → List ℕ → Type 0
AllOn m vid ids = All (λ id. is_on m vid id ≡ true) ids

abbrev pub before : ℕ → ℕ → Bool
before a b = ltb a b

pub record CommentsListed (s : Store) : Type 0 where
  pub counted :
      (k : ℕ) (v : Video)
      → lookup k s.videos ≡ some v
      → v.comment_count ≡ length (ids_of k s.video_comments)
  pub known : (k : ℕ) → lookup k s.videos ≡ none → ids_of k s.video_comments ≡ []
  pub stored : (k : ℕ) → AllOn s.comments k (ids_of k s.video_comments)
  pub below : (k : ℕ) → All (λ id. id ≤ s.comment_seq) (ids_of k s.video_comments)
  pub ordered : (k : ℕ) → Ordered before (ids_of k s.video_comments)

new-CommentsListed : CommentsListed new
unfolding new lookup
new-CommentsListed = record {
  counted = λ k v h. cc;
  known = λ k h. refl;
  stored = λ k. tt;
  below = λ k. tt;
  ordered = λ k. tt;
}

-- A comment stored under a new id changes nothing of the old ones.
AllOn-insert :
    (n : ℕ) (c : Comment) (m : Dict Comment) (vid : ℕ) (ids : List ℕ)
    → lookup n m ≡ none
    → AllOn m vid ids
    → AllOn (insert n c m) vid ids
AllOn-insert n c m vid [] new h = tt
AllOn-insert n c m vid (id ∷ ids) new h =
    (ground (arith, h.0, lookup-insert n id c m), AllOn-insert n c m vid ids new h.1)

All-le-suc : (n : ℕ) (ids : List ℕ) → All (λ id. id ≤ n) ids → All (λ id. id ≤ n + 1) ids
All-le-suc n [] h = tt
All-le-suc n (id ∷ ids) h = (omega arith, All-le-suc n ids h.1)

Ordered-snoc :
    (n : ℕ) (ids : List ℕ)
    → All (λ id. id ≤ n) ids
    → Ordered before ids
    → Ordered before (ids ++ (n + 1) ∷ [])
Ordered-snoc n [] h o = (tt, tt)
Ordered-snoc n (id ∷ ids) h o = (
  All-append (λ y. before y id ≡ false) ids ((n + 1) ∷ []) o.0 (ground arith, tt),
  Ordered-snoc n ids h.1 o.1,
)

module _ (now video user : ℕ) (content : String) (v : Video) (s : Store) (keyed : Keyed s)
    (i : CommentsListed s) (found : lookup video s.videos ≡ some v) where
  abbrev made : Comment
  made = (comment_on now video user content v s).0

  old_stored :
      (k : ℕ) → AllOn (insert (s.comment_seq + 1) made s.comments) k (ids_of k s.video_comments)
  old_stored k =
      AllOn-insert (s.comment_seq + 1) made s.comments k (ids_of k s.video_comments)
        (keyed.comments.fresh (s.comment_seq + 1) (omega arith)) (i.stored k)

  new_stored :
      AllOn
        (insert (s.comment_seq + 1) made s.comments)
        video
        (ids_of video s.video_comments ++ (s.comment_seq + 1) ∷ [])
  unfolding comment_on
  new_stored =
      All-append (λ id. is_on (insert (s.comment_seq + 1) made s.comments) video id ≡ true)
        (ids_of video s.video_comments) ((s.comment_seq + 1) ∷ []) (old_stored video)
        (ground (arith, lookup-insert (s.comment_seq + 1) (s.comment_seq + 1) made s.comments), tt)

  comment_on-stored :
      (k : ℕ)
      → let s' = (comment_on now video user content v s).1 in
        AllOn s'.comments k (ids_of k s'.video_comments)
  unfolding comment_on
  comment_on-stored k = elim (Bool-cases (video == k)) [
    | inl e ↦
        rw (ids_of-insert video k, e)
          (subst
            (λ j.
              AllOn (insert (s.comment_seq + 1) made s.comments) j
                (ids_of video s.video_comments ++ (s.comment_seq + 1) ∷ []))
            ((==_iff video k).0 e) new_stored)
    | inr e ↦ rw (ids_of-insert video k, e) (old_stored k)
  ]

  comment_on-below :
      (k : ℕ)
      → let s' = (comment_on now video user content v s).1 in
        All (λ id. id ≤ s'.comment_seq) (ids_of k s'.video_comments)
  unfolding comment_on
  comment_on-below k =
      let old = λ (j : ℕ). All-le-suc s.comment_seq (ids_of j s.video_comments) (i.below j) in
      elim (Bool-cases (video == k)) [
        | inl e ↦
            rw (ids_of-insert video k, e)
              (All-append (λ id. id ≤ s.comment_seq + 1) (ids_of video s.video_comments)
                ((s.comment_seq + 1) ∷ []) (old video) (omega arith, tt))
        | inr e ↦ rw (ids_of-insert video k, e) (old k)
      ]

  comment_on-CommentsListed : CommentsListed (comment_on now video user content v s).1
  unfolding comment_on
  comment_on-CommentsListed = record {
    counted =
        λ k v h. grind (arith, i.counted, lookup-insert, length-append (ids_of k s.video_comments));
    known = λ k h. grind (arith, i.known, lookup-insert);
    stored = comment_on-stored;
    below = comment_on-below;
    ordered = λ k. grind (arith, i.ordered, i.below, Ordered-snoc, lookup-insert);
  }

-- A step that leaves the comments alone.
record SameComments (s s' : Store) : Type 0 where
  comments : s'.comments ≡ s.comments
  video_comments : s'.video_comments ≡ s.video_comments
  comment_seq : s'.comment_seq ≡ s.comment_seq

abbrev is_comment : Call → Bool
is_comment (Call.add_comment now video user content) = true
is_comment call = false

module _ (bcrypt : Bcrypt) where
  same_comments :
      (call : Call) (s : Store) → is_comment call ≡ false → SameComments s (step bcrypt call s)
  unfolding step create_user store_user create_video update_video_status update_video_playback_urls
      like like_video unlike unlike_video follow unfollow
  same_comments (Call.add_comment now video user content) s h = absurd (cc)
  same_comments call s h = ground arith

  same-CommentsListed :
      (s s' : Store)
      → SameComments s s'
      → CommentsListed s
      → ((k : ℕ) (v : Video)
          → lookup k s'.videos ≡ some v
          → v.comment_count ≡ length (ids_of k s.video_comments))
      → ((k : ℕ) → lookup k s'.videos ≡ none → ids_of k s.video_comments ≡ [])
      → CommentsListed s'
  same-CommentsListed s s' e i counted known = record {
    counted = λ k v h. rw e.video_comments (counted k v h);
    known = λ k h. rw e.video_comments (known k h);
    stored = λ k. rw (e.comments, e.video_comments) (i.stored k);
    below = λ k. rw (e.comment_seq, e.video_comments) (i.below k);
    ordered = λ k. rw e.video_comments (i.ordered k);
  }

  step-CommentsListed :
      (call : Call) (s : Store) → Keyed s → CommentsListed s → CommentsListed (step bcrypt call s)
  unfolding step create_user store_user create_video make_video update_video_status
      update_video_playback_urls like like_video unlike unlike_video follow unfollow add_comment
  step-CommentsListed (Call.add_comment now video user content) s keyed i =
      grind (arith, comment_on-CommentsListed now video user content)
  step-CommentsListed (Call.create_video now author d) s keyed i =
      same-CommentsListed s (step bcrypt (Call.create_video now author d) s)
        (same_comments (Call.create_video now author d) s refl) i
        (λ k v h. grind (arith, i.counted, i.known, lookup-insert, keyed.videos.fresh))
        (λ k h. grind (arith, i.known, lookup-insert))
  step-CommentsListed call s keyed i =
      same-CommentsListed s (step bcrypt call s) (same_comments call s refl) i
        (λ k v h. grind (arith, i.counted, lookup-insert))
        (λ k h. grind (arith, i.known, lookup-insert))

  run-CommentsListed :
      (cs : List Call) (s : Store) → Keyed s → CommentsListed s → CommentsListed (run bcrypt cs s)
  unfolding run
  run-CommentsListed [] s keyed i = i
  run-CommentsListed (call ∷ cs) s keyed i =
      run-CommentsListed cs (step bcrypt call s) (step-Keyed bcrypt call s keyed)
        (step-CommentsListed call s keyed i)

-- The loop of `ListComments` finds a comment for every id.
comments_of-ids :
    (m : Dict Comment) (vid : ℕ) (ids : List ℕ)
    → ((k : ℕ) (c : Comment) → lookup k m ≡ some c → c.id ≡ k)
    → AllOn m vid ids
    → (map (λ c. c.id) (comments_of m ids) ≡ ids) × All (λ c. c.video_id ≡ vid) (comments_of m ids)
unfolding comments_of
comments_of-ids m vid [] at h = (refl, tt)
comments_of-ids m vid (id ∷ ids) at h =
    let (same, on) = comments_of-ids m vid ids at h.1 in
    elim (Option-cases (lookup id m)) [
      | inl none_there ↦ absurd (ground (arith, h.0))
      | inr (c, e) ↦ rw (e, comments_of) (ground (arith, at id c e), (ground (arith, h.0), on))
    ]

-- In every state that the operations reach, `ListComments` of a stored video returns only
-- comments on that video, in increasing order of their ids, and as many as the video's comment
-- count says.
pub list_comments-run :
    (bcrypt : Bcrypt) (cs : List Call) (id : ℕ) (v : Video)
    → lookup id (run bcrypt cs new).videos ≡ some v
    → (list : List Comment) × (list_comments id (run bcrypt cs new) ≡ ok list)
      × (length list ≡ v.comment_count)
      × All (λ c. c.video_id ≡ id) list
      × Ordered before (map (λ c. c.id) list)
unfolding list_comments
list_comments-run bcrypt cs id v h =
    let s = run bcrypt cs new in
    let i = run-CommentsListed bcrypt cs new new-Keyed new-CommentsListed in
    let keyed = run-Keyed bcrypt cs new new-Keyed in
    let ids = ids_of id s.video_comments in
    let (same, on) = comments_of-ids s.comments id ids keyed.comments.at (i.stored id) in
    (
      comments_of s.comments ids,
      ground arith,
      sym (length-map (comments_of s.comments ids) (λ c. c.id))
          ∙ ap length same
          ∙ sym (i.counted id v h),
      on,
      rw same (i.ordered id),
    )
