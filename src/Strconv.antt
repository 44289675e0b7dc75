-- ===== src/Strconv.antt =====
-- `ParseInt(s, 10, 64)` and `Itoa` of Go's strconv, which numbers are read and written with. A text is the list
-- of its bytes.
pub mod Itoa
use Prim.Native.Char.{code}
use go_shortvideo.Prelude.{
  ℕ, zero, suc, ◌+◌, ◌-◌, ◌*◌, ◌/◌, ◌%◌, ◌^◌, ◌||◌, String, Option, none, some, List, [], ◌∷◌, ◌++◌,
  ltb, leb, ◌==◌, if◌then◌else◌,
}
use go_shortvideo.Prelude.Int.{ℤ, pos, negsuc}

abbrev pub codes : String → List ℕ
codes String.[] = []
codes (String.◌∷◌ c s) = code c ∷ codes s

-- The digits `s`, after a number that was read already; `none` where one is no digit.
abbrev pub parse_digits : List ℕ → ℕ → Option ℕ
parse_digits [] n = some n
parse_digits (c ∷ s) n =
    let rest = parse_digits s (n * 10 + (c - b'0')) in
    if ltb c b'0' || ltb b'9' c then none else rest

abbrev pub in_range : Option ℕ → Option ℤ
in_range none = none
in_range (some n) = if ltb n (2 ^ 63) then some (pos n) else none

abbrev pub negated : ℕ → ℤ
negated zero = pos 0
negated (suc n) = negsuc n

abbrev pub in_range_below : Option ℕ → Option ℤ
in_range_below none = none
in_range_below (some n) = if leb n (2 ^ 63) then some (negated n) else none

abbrev pub unsigned : List ℕ → Option ℕ
unsigned [] = none
unsigned (c ∷ s) = parse_digits (c ∷ s) 0

unfoldable pub parse_int : List ℕ → Option ℤ
parse_int [] = none
parse_int (c ∷ s) =
    if c == b'-'
    then in_range_below (unsigned s)
    else if c == b'+'
    then in_range (unsigned s)
    else in_range (unsigned (c ∷ s))

-- The digits of `n`, which `suc n` rounds are enough for.
unfoldable pub digits_of : (rounds n : ℕ) → List ℕ
digits_of zero n = []
digits_of (suc rounds) n =
    let more = digits_of rounds (n / 10) ++ (n % 10 + b'0') ∷ [] in
    if ltb n 10 then (n + b'0') ∷ [] else more

-- `Itoa`, of a number that is not negative
unfoldable pub itoa : ℕ → List ℕ
unfolding digits_of
itoa n = digits_of (suc n) n

-- The digits behind `n`, up to the first at which the number does not fit into 64 bits.
unfoldable pub scan_digits : List ℕ → ℕ → Option ℕ
scan_digits [] n = some n
scan_digits (c ∷ s) n =
    let next = n * 10 + (c - b'0') in
    let rest = scan_digits s next in
    if ltb c b'0' || ltb b'9' c then none else if leb (2 ^ 64) next then some (2 ^ 64) else rest

abbrev pub scan : List ℕ → Option ℕ
scan [] = none
scan (c ∷ s) = scan_digits (c ∷ s) 0

abbrev pub or_greatest : Option ℕ → ℤ
or_greatest none = pos 0
or_greatest (some n) = if ltb n (2 ^ 63) then pos n else pos (2 ^ 63 - 1)

abbrev pub or_least : Option ℕ → ℤ
or_least none = pos 0
or_least (some n) = if leb n (2 ^ 63) then negated n else negsuc (2 ^ 63 - 1)

-- The number of `ParseInt`, where its error is ignored: 0 for what is no number, and the nearest one
-- for what is out of range.
unfoldable pub parse_int_value : List ℕ → ℤ
unfolding scan_digits
parse_int_value [] = pos 0
parse_int_value (c ∷ s) =
    if c == b'-'
    then or_least (scan s)
    else if c == b'+'
    then or_greatest (scan s)
    else or_greatest (scan (c ∷ s))
