-- ===== src/RateLimit/Decimal.antt =====
-- `formatInt` of pkg/ratelimit/limiter.go, and how its output is read. A text is the list of its
-- bytes here, and an int64 an integer.
use go_shortvideo.Prelude.{
  ℕ, zero, suc, ◌+◌, ◌-◌, ◌*◌, ◌/◌, ◌%◌, ◌^◌, ◌<◌, ◌≤◌, ◌≡◌, refl, ap, sym, ◌∙◌, true, false,
  Option, none, some, List, [], ◌∷◌, ◌==◌, ltb, ◌||◌, arith, if◌then◌else◌, Bool-cases, inl, inr,
}
use go_shortvideo.Prelude.Int.{ℤ, pos, negsuc}
use go_shortvideo.Strconv.{parse_digits, in_range, in_range_below, unsigned, parse_int}

-- The loop that fills the buffer from its end: `room` cells in front of `out` are free. `none` is
-- the panic of a full buffer.
unfoldable pub fill : (room : ℕ) → ℕ → List ℕ → Option (ℕ × List ℕ)
fill zero n out = if n == 0 then some (zero, out) else none
fill (suc room) n out = elim (n == 0) [
  | true ↦ some (suc room, out)
  | false ↦ fill room (n / 10) ((b'0' + n % 10) ∷ out)
]

unfoldable pub sign : Option (ℕ × List ℕ) → Option (List ℕ)
sign none = none
sign (some (zero, out)) = none
sign (some (suc room, out)) = some (b'-' ∷ out)

unfoldable pub digits_only : Option (ℕ × List ℕ) → Option (List ℕ)
digits_only none = none
digits_only (some (room, out)) = some out

-- The least int64 is its own negative, so the loop makes no round for it.
unfoldable pub format_int : ℤ → Option (List ℕ)
format_int (pos n) = if n == 0 then some (b'0' ∷ []) else digits_only (fill 20 n [])
format_int (negsuc n) = sign (fill 20 (if n == 2 ^ 63 - 1 then 0 else suc n) [])

-- What an int64 can hold, but for the least.
abbrev pub Negatable : ℤ → Type 0
Negatable (pos n) = n < 2 ^ 63
Negatable (negsuc n) = suc n < 2 ^ 63

abbrev tens : ℕ → ℕ
tens zero = 1
tens (suc k) = 10 * tens k

-- A text that begins with a digit.
abbrev Plain : List ℕ → Type 0
Plain [] = ⊥
Plain (c ∷ s) = (b'0' ≤ c) × (c ≤ b'9')

-- What is left of the buffer when the loop ends for `n`.
abbrev Filled : (room n : ℕ) → List ℕ → Type 0
Filled room n out =
    (r : ℕ) × ((o : List ℕ) × ((fill room n out ≡ some (suc r, o))
        × ((parse_digits o 0 ≡ parse_digits out n) × Plain o)))

fill_end : (room n : ℕ) (out : List ℕ) → n ≡ 0 → (n ≡ 0 → Plain out) → Filled (suc room) n out
unfolding fill
fill_end room n out z plain =
    let e : (n == 0) ≡ true = ground arith in
    (room, (out, (rw (e, fill) refl, (ap (parse_digits out) (sym z), plain z))))

-- `n` has less digits than there is room, so a cell is free when the loop ends.
fill_lem :
    (room k n : ℕ) (out : List ℕ) → k < room → n < tens k → (n ≡ 0 → Plain out) → Filled room n out
unfolding fill
fill_lem zero k n out more lt plain = absurd (omega (arith, more))
fill_lem (suc room) zero n out more lt plain = fill_end room n out (omega (arith, lt)) plain
fill_lem (suc room) (suc k) n out more lt plain = elim (Bool-cases (n == 0)) [
  | inl e ↦ fill_end room n out (ground arith) plain
  | inr e ↦
      let c = b'0' + n % 10 in
      let (r, (o, (f, (v, digit)))) =
        fill_lem room k (n / 10) (c ∷ out) (omega arith) (omega (arith, lt))
          (λ z. (omega arith, omega arith)) in
      let whole : n / 10 * 10 + (c - b'0') ≡ n = omega arith in
      let plain_digit : (ltb c b'0' || ltb b'9' c) ≡ false = ground arith in
      let read : parse_digits (c ∷ out) (n / 10) ≡ parse_digits out n =
        rw plain_digit (ap (parse_digits out) whole) in
      (r, (o, (rw (e, fill) f, (v ∙ read, digit))))
]

parse-Plain : (o : List ℕ) → Plain o → parse_int o ≡ in_range (parse_digits o 0)
unfolding parse_int
parse-Plain [] d = absurd d
parse-Plain (c ∷ o) d =
    let minus : (c == b'-') ≡ false = ground arith in
    let plus : (c == b'+') ≡ false = ground arith in rw (minus, plus) refl

unsigned-Plain : (o : List ℕ) → Plain o → unsigned o ≡ parse_digits o 0
unsigned-Plain [] d = absurd d
unsigned-Plain (c ∷ o) d = refl

in_range_lem : (n : ℕ) → n < 2 ^ 63 → in_range (some n) ≡ some (pos n)
in_range_lem n h = ground arith

in_range_below_lem : (n : ℕ) → n < 2 ^ 63 → in_range_below (some (suc n)) ≡ some (negsuc n)
in_range_below_lem n h = ground arith

-- Every int64 but the least is printed, without a panic, and `ParseInt` reads it back from its print.
pub parse_int-format_int :
    (n : ℤ) → Negatable n → (out : List ℕ) × ((format_int n ≡ some out) × (parse_int out ≡ some n))
unfolding format_int digits_only sign parse_int
parse_int-format_int (pos n) h = elim (Bool-cases (n == 0)) [
  | inl e ↦ let z : 0 ≡ n = ground arith in rw e (b'0' ∷ [], (refl, ap (λ k. some (pos k)) z))
  | inr e ↦
      let (r, (o, (f, (v, d)))) =
        fill_lem 20 19 n [] (omega arith) (omega (arith, h)) (λ z. absurd (ground arith)) in
      rw (e, f) (o, (refl, parse-Plain o d ∙ ap in_range v ∙ in_range_lem n h))
]
parse_int-format_int (negsuc n) h =
    let small : (n == 2 ^ 63 - 1) ≡ false = ground arith in
    let (r, (o, (f, (v, d)))) =
      fill_lem 20 19 (suc n) [] (omega arith) (omega (arith, h)) (λ z. absurd (omega arith)) in
    rw (small, f)
      (
        b'-' ∷ o,
        (refl, ap in_range_below (unsigned-Plain o d ∙ v) ∙ in_range_below_lem n (omega arith)),
      )

least : format_int (negsuc (2 ^ 63 - 1)) ≡ some (b'-' ∷ [])
unfolding format_int sign fill
least = refl
