-- ===== src/Api/Safety.antt =====
-- A request that is answered with an error changes nothing in the store.
use go_shortvideo.Prelude.{
  ℕ, ◌≤◌, ◌≡◌, refl, Bool, true, false, String, Option, none, some, arith, Option-cases, inl, inr,
}
use go_shortvideo.Prelude.Int.{ℤ, pos, negsuc}
use go_shortvideo.Strconv.{parse_int}
use go_shortvideo.Store.State.{Store, Result, ok, err}
use go_shortvideo.Store.Users.{Bcrypt, create_user as store_user}
use go_shortvideo.Store.Videos.{Draft, create_video}
use go_shortvideo.Store.Comments.{add_comment as store_comment}
use go_shortvideo.Store.Follows.{follow as store_follow, unfollow as store_unfollow}
use go_shortvideo.Auth.Token.{user_id_from_context}
use go_shortvideo.Api.Service.{Services, App, Handler, Request}
use go_shortvideo.Api.Answer.{Response, fail}
use go_shortvideo.Api.Likes
use go_shortvideo.Api.Comments
use go_shortvideo.Api.Comments.{comment_at}
use go_shortvideo.Api.Follows
use go_shortvideo.Api.Users
use go_shortvideo.Api.Videos
use go_shortvideo.Api.Upload.{UploadTools, FormFile, draft_of, publish_upload, upload}
use go_shortvideo.Like.Memory.{mem_services, mem_like-refused, mem_unlike-refused}
use go_shortvideo.Dict.{has_key}
use go_shortvideo.Api.Follows.{follow_at, unfollow_at}

abbrev is_err {ℓ} : {A : Type ℓ} → Result A → Bool
is_err (ok a) = false
is_err (err e) = true

follow_at-err :
    (uid : ℕ) (id : ℤ) (s : Store)
    → is_err (follow_at uid id s).0 ≡ true
    → (follow_at uid id s).1 ≡ s
unfolding store_follow
follow_at-err uid (pos id) s e = ground arith
follow_at-err uid (negsuc n) s e = refl

comment_at-err :
    (now : ℕ) (id : ℤ) (uid : ℕ) (content : String) (s : Store)
    → is_err (comment_at now id uid content s).0 ≡ true
    → (comment_at now id uid content s).1 ≡ s
unfolding store_comment
comment_at-err now (pos id) uid content s e = ground arith
comment_at-err now (negsuc n) uid content s e = ground arith

create_video-err :
    (now uid : ℕ) (d : Draft) (s : Store)
    → is_err (create_video now uid d s).0 ≡ true
    → (create_video now uid d s).1 ≡ s
unfolding create_video
create_video-err now uid d s e = ground arith

create_user-err :
    (bcrypt : Bcrypt) (salt now : ℕ) (name password : String) (s : Store)
    → is_err (store_user bcrypt salt now name password s).0 ≡ true
    → (store_user bcrypt salt now name password s).1 ≡ s
unfolding store_user
create_user-err bcrypt salt now name password s e = ground arith

create_video-no_author :
    (now uid : ℕ) (d : Draft) (s : Store)
    → has_key uid s.users ≡ false
    → is_err (create_video now uid d s).0 ≡ true
unfolding create_video
create_video-no_author now uid d s missing = ground (arith, missing)

module _ (services : Services) where
  abbrev pub Kept : Store → Response services × App services → Type 0
  Kept s p = 400 ≤ p.0.status → p.1.store ≡ s

  -- A handler that asks for a value and fails where there is none.
  Kept-elim :
      {X : Type 0} (o : Option X) (code : ℕ) (a : App services)
      (f : X → Response services × App services)
      → ((x : X) → Kept a.store (f x))
      → Kept a.store (elim o [ none ↦ (fail code, a) | some x ↦ f x ])
  Kept-elim none code a f all h = refl
  Kept-elim (some x) code a f all h = all x h

  pub Kept-follow : (r : Request) (a : App services) → Kept a.store (Follows.follow services r a)
  unfolding Follows.follow
  Kept-follow r a = Kept-elim (user_id_from_context r.context) 401 a _ λ uid.
      Kept-elim (parse_int r.id) 400 a _ λ id. λ h. ground (arith, follow_at-err uid id a.store)

  pub Kept-unfollow :
      (r : Request) (a : App services) → Kept a.store (Follows.unfollow services r a)
  unfolding Follows.unfollow store_unfollow
  Kept-unfollow r a =
      Kept-elim (user_id_from_context r.context) 401 a _
        λ uid. Kept-elim (parse_int r.id) 400 a _ λ id. λ h. ground arith

  pub Kept-add_comment :
      (now : ℕ) (body : Option String) (r : Request) (a : App services)
      → Kept a.store (Comments.add_comment services now body r a)
  unfolding Comments.add_comment
  Kept-add_comment now body r a = Kept-elim (user_id_from_context r.context) 401 a _ λ uid.
      Kept-elim (parse_int r.id) 400 a _ λ id.
        Kept-elim body 400 a _
          λ content. λ h. ground (arith, comment_at-err now id uid content a.store)

  pub Kept-publish_video :
      (handler : Handler) (now : ℕ) (body : Option Draft) (r : Request) (a : App services)
      → Kept a.store (Videos.publish_video services handler now body r a)
  unfolding Videos.publish_video
  Kept-publish_video handler now body r a =
      Kept-elim (user_id_from_context r.context) 401 a _
        λ uid. Kept-elim body 400 a _ λ d. λ h. ground (arith, create_video-err now uid d a.store)

  pub Kept-create_user :
      (bcrypt : Bcrypt) (salt now : ℕ) (body : Option (String × String)) (a : App services)
      → Kept a.store (Users.create_user services bcrypt salt now body a)
  unfolding Users.create_user
  Kept-create_user bcrypt salt now none a h = refl
  Kept-create_user bcrypt salt now (some (name, password)) a h =
      ground (arith, create_user-err bcrypt salt now name password a.store)

  Kept-publish_upload :
      (h : Handler) (transcode : Bool) (now : ℕ) (tools : UploadTools) (file : FormFile)
      (r : Request) (a : App services)
      → has_key 0 a.store.users ≡ false
      → let out = publish_upload services h transcode now tools file r a in
        Kept a.store (out.0, out.1.0)
  unfolding publish_upload
  Kept-publish_upload h transcode now tools file r a missing error =
      let d = draft_of tools file in
      let none_made = create_video-no_author now 0 d a.store missing in
      elim (Option-cases (user_id_from_context r.context)) [
        | inl e ↦ ground (arith, e, none_made, create_video-err now 0 d a.store)
        | inr (uid, e) ↦ ground (arith, e, create_video-err now uid d a.store)
      ]

  pub Kept-upload :
      (h : Handler) (transcode : Bool) (now : ℕ) (tools : UploadTools) (form : Option FormFile)
      (r : Request) (a : App services)
      → has_key 0 a.store.users ≡ false
      → let out = upload services h transcode now tools form r a in Kept a.store (out.0, out.1.0)
  unfolding upload
  Kept-upload h transcode now tools none r a missing error = refl
  Kept-upload h transcode now tools (some file) r a missing error =
      ground (arith, Kept-publish_upload h transcode now tools file r a missing)

-- The likes of the store in memory.
Kept-like_as :
    (uid : ℕ) (id : ℤ) (a : App mem_services)
    → Kept mem_services a.store (Likes.like_as mem_services uid id a)
unfolding Likes.like_as
Kept-like_as uid id a h = ground (arith, mem_like-refused uid id a.store)

Kept-unlike_as :
    (uid : ℕ) (id : ℤ) (a : App mem_services)
    → Kept mem_services a.store (Likes.unlike_as mem_services uid id a)
unfolding Likes.unlike_as
Kept-unlike_as uid id a h = ground (arith, mem_unlike-refused uid id a.store)

pub Kept-like :
    (r : Request) (a : App mem_services) → Kept mem_services a.store (Likes.like mem_services r a)
unfolding Likes.like
Kept-like r a =
    Kept-elim mem_services (user_id_from_context r.context) 401 a _
      λ uid. Kept-elim mem_services (parse_int r.id) 400 a _ λ id. Kept-like_as uid id a

pub Kept-unlike :
    (r : Request) (a : App mem_services) → Kept mem_services a.store (Likes.unlike mem_services r a)
unfolding Likes.unlike
Kept-unlike r a =
    Kept-elim mem_services (user_id_from_context r.context) 401 a _
      λ uid. Kept-elim mem_services (parse_int r.id) 400 a _ λ id. Kept-unlike_as uid id a
