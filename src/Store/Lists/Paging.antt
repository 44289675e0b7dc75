-- ===== src/Store/Lists/Paging.antt =====
-- Pages of videos: what one call returns of the whole list, which is sorted before it is cut.

use mathlib.Core.List.Permᴰ
use go_shortvideo.Prelude.{
  ℕ, ◌<◌, ◌≡◌, refl, sym, ap, ◌∙◌, Bool, false, not, some, List, [], ◌∷◌, arith, ltb, map, All,
  keep, take, length, take_of_length-le, Bool-cases, inl, inr,
}
use go_shortvideo.Prelude.Int.{ℤ}
use go_shortvideo.Dict.{Dict, lookup, keys, values}
use go_shortvideo.Dict.Keys.{lookup_entries, values-keys}
use go_shortvideo.IdSet.{contains, Distinct}
use go_shortvideo.Sort.{
  Ordered, IsOrder, sort_slice, sort_slice-perm, sort_slice-Ordered, perm_Distinct,
}
use go_shortvideo.Sort.Keep.{keep-keep, sort_slice-keep}
use go_shortvideo.Model.{Video}
use go_shortvideo.Store.Lists.{beyond, later, sort_by_id_desc, truncate, page_of}

pub later-IsOrder : IsOrder later
later-IsOrder = record { asym = λ a b h. ground arith; ge_trans = λ a b c h k. ground arith }

-- Strictly falling ids.
abbrev pub Decreasing : List Video → Type 0
Decreasing [] = Unit
Decreasing (v ∷ vs) = All (λ w. w.id < v.id) vs × Decreasing vs

abbrev pub ids : List Video → List ℕ
ids vs = map (λ v. v.id) vs

-- The whole list that is cut into pages.
unfoldable pub feed_of : (Video → Bool) → Dict Video → List Video
feed_of wanted m = sort_by_id_desc (keep wanted (values m))

below :
    (v : Video) (vs : List Video)
    → All (λ w. later w v ≡ false) vs
    → contains v.id (ids vs) ≡ false
    → All (λ w. w.id < v.id) vs
unfolding contains
below v [] h d = tt
below v (w ∷ vs) h d = (ground (arith, h.0), below v vs h.1 (ground arith))

Ordered-Decreasing : (vs : List Video) → Ordered later vs → Distinct (ids vs) → Decreasing vs
Ordered-Decreasing [] o d = tt
Ordered-Decreasing (v ∷ vs) o d = (below v vs o.0 d.0, Ordered-Decreasing vs o.1 d.1)

contains-keep :
    (k : ℕ) (p : Video → Bool) (vs : List Video)
    → contains k (ids vs) ≡ false
    → contains k (ids (keep p vs)) ≡ false
unfolding contains
contains-keep k p [] h = refl
contains-keep k p (v ∷ vs) h = ground (arith, contains-keep k p vs)

keep-Distinct :
    (p : Video → Bool) (vs : List Video) → Distinct (ids vs) → Distinct (ids (keep p vs))
keep-Distinct p [] d = tt
keep-Distinct p (v ∷ vs) d = ground (arith, contains-keep v.id p vs, keep-Distinct p vs d.1)

-- In a table keyed by ids, the list falls strictly.
pub feed_of-Decreasing :
    (wanted : Video → Bool) (m : Dict Video)
    → Distinct (keys m)
    → ((k : ℕ) (v : Video) → lookup k m ≡ some v → v.id ≡ k)
    → Decreasing (feed_of wanted m)
unfolding feed_of sort_by_id_desc
feed_of-Decreasing wanted m d at =
    let entries = lookup_entries m d in
    let same = values-keys (λ v. v.id) m at m entries in
    let kept = keep-Distinct wanted (values m) (rw same d) in
    Ordered-Decreasing (sort_slice later (keep wanted (values m)))
      (sort_slice-Ordered later-IsOrder (keep wanted (values m)))
      (perm_Distinct
        (Permᴰ.map (λ (v : Video). v.id) (sort_slice-perm later (keep wanted (values m)))) kept)

-- `truncate` is `take`.
truncate-take : (vs : List Video) (n : ℕ) → truncate vs n ≡ take n vs
unfolding truncate
truncate-take vs n = elim (Bool-cases (ltb n (length vs))) [
  | inl long ↦ rw long
  | inr short ↦ rw short (sym (take_of_length-le n vs (ground arith)))
]

-- A page is cut from the part of the list below the cursor.
pub page_of-feed_of :
    (wanted : Video → Bool) (max_id : ℤ) (limit : ℕ) (m : Dict Video)
    → page_of wanted max_id limit m
      ≡ take limit (keep (λ v. not (beyond max_id v.id)) (feed_of wanted m))
unfolding page_of feed_of
page_of-feed_of wanted max_id limit m =
    truncate-take _ limit
    ∙ ap (take limit) (
        ap (sort_slice later) (sym (keep-keep wanted (λ v. not (beyond max_id v.id)) (values m)))
        ∙ sort_slice-keep later-IsOrder (λ v. not (beyond max_id v.id)) (keep wanted (values m)))
