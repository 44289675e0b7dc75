-- ===== src/Store/Spec.antt =====
-- What the store promises, without its maps: how many accounts and videos there are, who likes what
-- and who follows whom.
use Prim.Native.String.{len}
use text.Mathlib.Text.{◌==◌ as str_eq}
use go_shortvideo.Prelude.{
  ℕ, ◌+◌, Bool, true, false, not, ◌&&◌, ◌||◌, String, none, some, List, [], ◌∷◌, ltb, leb, ◌==◌,
  if◌then◌else◌,
}
use go_shortvideo.Store.Users.{Bcrypt}
use go_shortvideo.Store.Videos.{Draft}
use go_shortvideo.Store.Calls.{Call}

-- Accounts and videos have the ids from 1 on.
pub record Spec : Type 0 where
  pub users : ℕ
  pub videos : ℕ
  pub liked : ℕ → ℕ → Bool
  pub follows : ℕ → ℕ → Bool

abbrev pub nothing_yet : Spec
nothing_yet = record { users = 0; videos = 0; liked = λ u v. false; follows = λ a b. false }

abbrev pub up_to : ℕ → ℕ → Bool
up_to n id = ltb 0 id && leb id n

-- A relation with one pair set.
abbrev pub set_pair : ℕ → ℕ → Bool → (ℕ → ℕ → Bool) → ℕ → ℕ → Bool
set_pair a b now rel c d = if a == c && b == d then now else rel c d

module _ (bcrypt : Bcrypt) where
  abbrev pub account_accepted : (salt : ℕ) → (username password : String) → Bool
  account_accepted salt username password =
      not (str_eq username "" || str_eq password "")
      && (not (ltb (len password) 6)
          && elim (bcrypt.generate salt password) [ none ↦ false | some h ↦ true ])

  abbrev pub draft_accepted : Draft → Bool
  draft_accepted d = not (str_eq d.title "" || str_eq d.play_url "")

  unfoldable pub promised : Call → Spec → Spec
  promised (Call.create_user salt now name password) t =
      if account_accepted salt name password then record t { users = t.users + 1 } else t
  promised (Call.create_video now author d) t =
      if draft_accepted d && up_to t.users author then record t { videos = t.videos + 1 } else t
  promised (Call.like u v) t =
      if up_to t.users u && up_to t.videos v
      then record t { liked = set_pair u v true t.liked }
      else t
  promised (Call.unlike u v) t =
      if up_to t.users u && up_to t.videos v
      then record t { liked = set_pair u v false t.liked }
      else t
  promised (Call.follow a b) t =
      if not (a == b) && (up_to t.users a && up_to t.users b)
      then record t { follows = set_pair a b true t.follows }
      else t
  promised (Call.unfollow a b) t = record t { follows = set_pair a b false t.follows }
  promised (Call.update_video_status id st) t = t
  promised (Call.update_video_playback_urls id p c us) t = t
  promised (Call.add_comment now video user content) t = t

  unfoldable pub promised_all : List Call → Spec → Spec
  promised_all [] t = t
  promised_all (c ∷ cs) t = promised_all cs (promised c t)
