-- ===== src/Metrics/Keys.antt =====
-- The keys under which the vectors count a request, and which requests share one.
use go_shortvideo.Prelude.{
  ℕ, ◌≡◌, refl, ap, Bool, true, ◌&&◌, List, [], ◌∷◌, ◌++◌, ◌==◌, if◌then◌else◌, arith, length, inl,
  inr, Option-cases, ==_iff, Bool-ext,
}
use go_shortvideo.Strconv.{itoa}
use go_shortvideo.Strconv.Itoa.{itoa_injective, lacks-itoa, itoa-cons}
use go_shortvideo.Bytes.{
  same, same_iff, lookup, insert, lookup-insert, lacks, same-front, same-back, same→eq,
}
use go_shortvideo.Metrics.Vec.{
  CounterVec, add64, key_of, value, add_at, or_unknown, normalize_labels, join_labels,
  with_label_values,
}
use go_shortvideo.Metrics.Http.{Served, route_of}

pub value-add_at :
    (vals : List (List ℕ)) (n : ℕ) (k : List ℕ) (cv : CounterVec)
    → value k (add_at vals n cv)
      ≡ (if same (key_of vals cv) k then add64 (value k cv) n else value k cv)
unfolding add_at
value-add_at vals n k cv =
    let key = key_of vals cv in
    elim (Option-cases (lookup key cv.counts)) [
      | inl new ↦
          rw (new, with_label_values)
            (ground (
              arith,
              same_iff key k,
              lookup-insert key key 0 cv.counts,
              lookup-insert key k 0 cv.counts,
              lookup-insert key k (add64 0 n) (insert key 0 cv.counts),
            ))
      | inr (c, old) ↦
          rw (old, with_label_values)
            (ground (arith, same_iff key k, lookup-insert key k (add64 c n) cv.counts))
    ]

pub labels-add_at :
    (vals : List (List ℕ)) (n : ℕ) (cv : CounterVec) → (add_at vals n cv).labels ≡ cv.labels
unfolding add_at
labels-add_at vals n cv = ground arith

-- The keys under which the two vectors count a request.
abbrev pub latency_key : (method route : List ℕ) → List ℕ
latency_key method route = or_unknown method ++ b',' ∷ or_unknown route

abbrev pub request_key : (method route : List ℕ) → (status : ℕ) → List ℕ
request_key method route status =
    or_unknown method ++ b',' ∷ (or_unknown route ++ b',' ∷ itoa status)

pub key_of-three :
    (method route : List ℕ) (status : ℕ) (cv : CounterVec)
    → length cv.labels ≡ 3
    → key_of (method ∷ route ∷ itoa status ∷ []) cv ≡ request_key method route status
unfolding join_labels normalize_labels
key_of-three method route status cv h =
    let (c, s, e) = itoa-cons status in rw (h, normalize_labels) (rw e refl)

pub key_of-two :
    (method route : List ℕ) (cv : CounterVec)
    → length cv.labels ≡ 2
    → key_of (method ∷ route ∷ []) cv ≡ latency_key method route
unfolding join_labels normalize_labels
key_of-two method route cv h = rw (h, normalize_labels) refl

lacks-or_unknown : (s : List ℕ) → lacks b',' s ≡ true → lacks b',' (or_unknown s) ≡ true
lacks-or_unknown [] h = refl
lacks-or_unknown (c ∷ s) h = h

same-itoa : (m n : ℕ) → same (itoa m) (itoa n) ≡ (m == n)
same-itoa m n =
    Bool-ext (same (itoa m) (itoa n)) (m == n)
      (λ h. (==_iff m n).1 (itoa_injective m n (same→eq _ _ h)))
      (λ h. (same_iff (itoa m) (itoa n)).1 (ap itoa ((==_iff m n).0 h)))

module _ (method route : List ℕ) (plain : lacks b',' method ≡ true) where
  -- Whether a request has this method and this route, with empty ones read as `unknown`.
  abbrev pub on_route : Served → Bool
  on_route r =
      same (or_unknown r.method) (or_unknown method)
      && same (or_unknown (route_of r)) (or_unknown route)

  pub same-latency_key :
      (r : Served)
      → lacks b',' r.method ≡ true
      → same (latency_key r.method (route_of r)) (latency_key method route) ≡ on_route r
  same-latency_key r h =
      same-front b',' (or_unknown r.method) (or_unknown method) (or_unknown (route_of r))
        (or_unknown route) (lacks-or_unknown r.method h) (lacks-or_unknown method plain)

  pub same-request_key :
      (r : Served) (status : ℕ)
      → lacks b',' r.method ≡ true
      → same (request_key r.method (route_of r) r.status) (request_key method route status)
        ≡ (on_route r && r.status == status)
  same-request_key r status h =
      let head = or_unknown r.method in
      let back =
        same-back b',' (or_unknown (route_of r)) (or_unknown route) (itoa r.status) (itoa status)
          (lacks-itoa b',' r.status (omega arith)) (lacks-itoa b',' status (omega arith)) in
      let front =
        same-front b',' head (or_unknown method) (or_unknown (route_of r) ++ b',' ∷ itoa r.status)
          (or_unknown route ++ b',' ∷ itoa status) (lacks-or_unknown r.method h)
          (lacks-or_unknown method plain) in
      ground (arith, front, back, same-itoa r.status status)
