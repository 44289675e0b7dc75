-- ===== src/Like/Scan.antt =====
-- `reconcile` of internal/like/reconcile.go: the scan over the counters in Redis. The calls on a video
-- that a key names are parameters, since a key may name any int64.
use go_shortvideo.Prelude.{
  ℕ, zero, suc, ◌+◌, ◌-◌, ◌*◌, ◌%◌, ◌^◌, Bool, true, false, ◌&&◌, Option, none, some, List, [], ◌∷◌,
  ltb, leb, ◌==◌, if◌then◌else◌, length, drop,
}
use go_shortvideo.Prelude.Int.{ℤ, pos, negsuc, ◌-ℤ◌, ltb_ℤ}
use go_shortvideo.Strconv.{codes, negated}

-- The int64 of a bit pattern.
abbrev pub signed64 : ℕ → ℤ
signed64 n = if ltb n (2 ^ 63) then pos n else negated (2 ^ 64 - n)

-- The loop of `parseVidFromKey`: what is no digit is passed over, up to a colon.
unfoldable pub vid_from : List ℕ → (vid : ℕ) → ℕ
vid_from [] vid = vid
vid_from (c ∷ s) vid =
    let rest =
      vid_from s (if leb b'0' c && leb c b'9' then (vid * 10 + (c - b'0')) % 2 ^ 64 else vid) in
    if c == b':' then vid else rest

abbrev like_count_key_prefix : List ℕ
like_count_key_prefix = codes "likecnt:"

unfoldable pub parse_vid_from_key : List ℕ → ℤ
unfolding vid_from
parse_vid_from_key key =
    if leb (length key) (length like_count_key_prefix)
    then pos 0
    else signed64 (vid_from (drop (length like_count_key_prefix) key) 0)

unfoldable pub abs : ℤ → ℤ
abs (pos n) = pos n
abs (negsuc n) = pos (suc n)

-- The numbers of repairs and of errors.
pub record Tally : Type 0 where
  pub reconciled : ℕ
  pub errors : ℕ

abbrev is_zero : ℤ → Bool
is_zero (pos n) = n == 0
is_zero (negsuc n) = false

-- `scan` is `SCAN` with a cursor, `count` is `Service.Count`, `db_count` is `GetLikeCount` and `sync`
-- is `syncVideo`.
module _ {S : Type 0} (scan : (cursor : ℕ) → S → Option (List (List ℕ) × ℕ))
    (count : ℤ → S → Option ℤ) (db_count : ℤ → Option ℤ) (sync : ℤ → ℤ → S → Bool × S)
    (threshold : ℤ) where
  abbrev failed : Tally → Tally
  failed t = record t { errors = t.errors + 1 }

  abbrev repaired : Bool → Tally → Tally
  repaired true t = record t { reconciled = t.reconciled + 1 }
  repaired false t = failed t

  unfoldable pub reconcile_video : ℤ → S → Tally → S × Tally
  unfolding abs
  reconcile_video vid s t = elim (count vid s) [
    | none ↦ (s, failed t)
    | some redis_cnt ↦ elim (db_count vid) [
      | none ↦ (s, failed t)
      | some db_cnt ↦
          if ltb_ℤ threshold (abs (redis_cnt -ℤ db_cnt))
          then (let (went, s') = sync vid db_cnt s in (s', repaired went t))
          else (s, t)
    ]
  ]

  -- The loop over the keys of one answer.
  unfoldable pub reconcile_keys : List (List ℕ) → S → Tally → S × Tally
  unfolding reconcile_video parse_vid_from_key
  reconcile_keys [] s t = (s, t)
  reconcile_keys (key ∷ keys) s t =
      let vid = parse_vid_from_key key in
      let (s', t') = if is_zero vid then (s, t) else reconcile_video vid s t in
      reconcile_keys keys s' t'

  -- The scan; the last part of the answer says whether it ran to its end. It stops at an error of
  -- `SCAN`, or where the fuel runs out, which only an endless scan does for every fuel.
  unfoldable pub reconcile_from : (fuel cursor : ℕ) → S → Tally → S × (Tally × Bool)
  unfolding reconcile_keys
  reconcile_from zero cursor s t = (s, (t, false))
  reconcile_from (suc fuel) cursor s t = elim (scan cursor s) [
    | none ↦ (s, (t, false))
    | some (keys, next) ↦
        let (s', t') = reconcile_keys keys s t in
        let rest = reconcile_from fuel next s' t' in if next == 0 then (s', (t', true)) else rest
  ]

  unfoldable pub reconcile : (fuel : ℕ) → S → S × (Tally × Bool)
  unfolding reconcile_from
  reconcile fuel s = reconcile_from fuel 0 s (record { reconciled = 0; errors = 0 })
