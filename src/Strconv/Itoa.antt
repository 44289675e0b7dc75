-- ===== src/Strconv/Itoa.antt =====
-- What `Itoa` writes stands for its number, and is made of digits.
use go_shortvideo.Prelude.{
  ℕ, zero, suc, ◌+◌, ◌-◌, ◌*◌, ◌/◌, ◌%◌, ◌≡◌, ◌≢◌, ◌<◌, refl, ap, sym, ◌∙◌, true, List, [], ◌∷◌,
  ◌++◌, ltb, arith, Bool-cases, inl, inr,
}
use go_shortvideo.Bytes.{lacks}
use go_shortvideo.Strconv.{itoa, digits_of}

-- The number that digits stand for, after one that was read already.
abbrev horner : List ℕ → ℕ → ℕ
horner [] n = n
horner (c ∷ s) n = horner s (n * 10 + (c - b'0'))

horner-append : (s : List ℕ) (c n : ℕ) → horner (s ++ c ∷ []) n ≡ horner s n * 10 + (c - b'0')
horner-append [] c n = refl
horner-append (d ∷ s) c n = horner-append s c (n * 10 + (d - b'0'))

horner-digits_of : (rounds n : ℕ) → n < rounds → horner (digits_of rounds n) 0 ≡ n
unfolding digits_of
horner-digits_of zero n h = elim h [ ]
horner-digits_of (suc rounds) n h = elim (Bool-cases (ltb n 10)) [
  | inl t ↦ rw t (omega arith)
  | inr f ↦
      let ih = horner-digits_of rounds (n / 10) (ground arith) in
      rw f (rw horner-append (rw ih (omega arith)))
]

pub itoa_injective : (m n : ℕ) → itoa m ≡ itoa n → m ≡ n
unfolding itoa
itoa_injective m n h =
    sym (horner-digits_of (suc m) m (omega arith))
    ∙ ap (λ s. horner s 0) h
    ∙ horner-digits_of (suc n) n (omega arith)

lacks-append :
    (sep c : ℕ) (s : List ℕ) → lacks sep s ≡ true → sep ≢ c → lacks sep (s ++ c ∷ []) ≡ true
lacks-append sep c [] h k = ground arith
lacks-append sep c (d ∷ s) h k = ground (arith, lacks-append sep c s)

lacks-digits_of : (sep rounds n : ℕ) → sep < b'0' → lacks sep (digits_of rounds n) ≡ true
unfolding digits_of
lacks-digits_of sep zero n h = refl
lacks-digits_of sep (suc rounds) n h = elim (Bool-cases (ltb n 10)) [
  | inl t ↦ rw t (ground arith)
  | inr f ↦ rw f (
      lacks-append sep (n % 10 + b'0') (digits_of rounds (n / 10))
        (lacks-digits_of sep rounds (n / 10) h) (λ e. absurd (omega (arith, e))))
]

pub lacks-itoa : (sep n : ℕ) → sep < b'0' → lacks sep (itoa n) ≡ true
unfolding itoa
lacks-itoa sep n h = lacks-digits_of sep (suc n) n h

cons_snoc : (s : List ℕ) (d : ℕ) → (c : ℕ) × (t : List ℕ) × (s ++ d ∷ [] ≡ c ∷ t)
cons_snoc [] d = (d, [], refl)
cons_snoc (c ∷ s) d = (c, s ++ d ∷ [], refl)

digits_of-cons : (rounds n : ℕ) → (c : ℕ) × (s : List ℕ) × (digits_of (suc rounds) n ≡ c ∷ s)
unfolding digits_of
digits_of-cons rounds n = elim (Bool-cases (ltb n 10)) [
  | inl t ↦ (n + b'0', [], rw t)
  | inr f ↦ let (c, s, e) = cons_snoc (digits_of rounds (n / 10)) (n % 10 + b'0') in (c, s, rw f e)
]

pub itoa-cons : (n : ℕ) → (c : ℕ) × (s : List ℕ) × (itoa n ≡ c ∷ s)
unfolding itoa
itoa-cons n = digits_of-cons n n
