-- ===== src/Prelude/Decimal.antt =====
-- strconv.Itoa and strconv.Atoi.
pub mod RoundTrip
use api_poll.Prelude.{
  ℕ, zero, suc, ◌+◌, ◌-◌, ◌*◌, ◌/◌, ◌%◌, ◌<◌, ◌≡◌, ◌≢◌, refl, sym, ap, ◌∙◌, Bool, true, false, ◌&&◌,
  [], ◌∷◌, Option, none, some, Bytes, utf8, ◌^◌, ltb, leb, ◌==◌, if◌then◌else◌, arith, if_cases,
}
use api_poll.Prelude.Int.{ℤ, pos, negsuc}
use api_poll.Prelude.Split.{Lacks}

abbrev pub is_digit : ℕ → Bool
is_digit c = leb b'0' c && leb c b'9'

-- The digits of a number in front of a text, by as many rounds as there can be digits.
unfoldable pub digits : ℕ → ℕ → Bytes → Bytes
digits zero n rest = rest
digits (suc rounds) n rest =
    let front = digits rounds (n / 10) ((b'0' + n % 10) ∷ rest) in
    if ltb n 10 then (b'0' + n) ∷ rest else front

unfoldable pub itoa_nat : ℕ → Bytes
unfolding digits
itoa_nat n = digits (suc n) n []

unfoldable pub itoa : ℤ → Bytes
unfolding itoa_nat
itoa (pos n) = itoa_nat n
itoa (negsuc n) = b'-' ∷ itoa_nat (suc n)

-- The value of digits after the value `n`; `none` for any other byte.
unfoldable pub value_after : ℕ → Bytes → Option ℕ
value_after n [] = some n
value_after n (c ∷ s) =
    let rest = value_after (n * 10 + (c - b'0')) s in if is_digit c then rest else none

read_digit :
    (m d : ℕ) (rest : Bytes)
    → d < 10
    → value_after m ((b'0' + d) ∷ rest) ≡ value_after (m * 10 + d) rest
unfolding value_after
read_digit m d rest h =
    let e : is_digit (b'0' + d) ≡ true = ground arith in
    let f : (b'0' + d) - b'0' ≡ d = omega arith in
    simp e (ap (λ x. value_after (m * 10 + x) rest) f)

value_after-digits :
    (rounds n : ℕ) (rest : Bytes)
    → n < rounds
    → value_after 0 (digits rounds n rest) ≡ value_after n rest
unfolding digits
value_after-digits zero n rest h = let no : ⊥ = omega arith in elim no [ ]
value_after-digits (suc rounds) n rest h =
    if_cases {A = Bytes} (λ s. value_after 0 s ≡ value_after n rest) (ltb n 10) _ _
      (λ small.
        let l : n < 10 = ground arith in
        let e : 0 * 10 + n ≡ n = omega arith in
        read_digit 0 n rest l ∙ ap (λ x. value_after x rest) e)
      (λ large.
        let l : n / 10 < rounds = ground (arith, h, large) in
        let e : n / 10 * 10 + n % 10 ≡ n = omega arith in
        value_after-digits rounds (n / 10) ((b'0' + n % 10) ∷ rest) l
        ∙ read_digit (n / 10) (n % 10) rest (omega arith)
        ∙ ap (λ x. value_after x rest) e)

-- Digits, at least one.
unfoldable pub digits_value : Bytes → Option ℕ
unfolding value_after
digits_value [] = none
digits_value (c ∷ s) = value_after 0 (c ∷ s)

-- `Atoi`: a sign and digits, for a number of 64 bits.
unfoldable pub in_range : ℤ → Option ℤ
in_range (pos n) = if ltb n (2 ^ 63) then some (pos n) else none
in_range (negsuc n) = if ltb n (2 ^ 63) then some (negsuc n) else none

abbrev opposite : ℕ → ℤ
opposite zero = pos 0
opposite (suc n) = negsuc n

unfoldable pub atoi : Bytes → Option ℤ
unfolding digits_value in_range
atoi [] = none
atoi (c ∷ s) =
    if c == b'-'
    then elim (digits_value s) [ none ↦ none | some n ↦ in_range (opposite n) ]
    else elim (digits_value (if c == b'+' then s else c ∷ s)) [
      | none ↦ none
      | some n ↦ in_range (pos n)
    ]

reads_numbers :
    (atoi (utf8 "-12") ≡ some (negsuc 11))
    × (atoi (utf8 "407") ≡ some (pos 407))
    × (atoi (utf8 "4 7") ≡ none)
    × (itoa (pos 8080) ≡ utf8 "8080")
unfolding atoi itoa
reads_numbers = (refl, refl, refl, refl)

-- A number is read back from its print.
pub value_after-itoa : (n : ℕ) → value_after 0 (itoa_nat n) ≡ some n
unfolding itoa_nat value_after
value_after-itoa n = value_after-digits (suc n) n [] (omega arith)

-- No byte but a digit or a sign is in a print.
digits-Lacks :
    (b rounds n : ℕ) (rest : Bytes)
    → is_digit b ≡ false
    → Lacks b rest
    → Lacks b (digits rounds n rest)
unfolding digits
digits-Lacks b zero n rest h l = l
digits-Lacks b (suc rounds) n rest h l =
    if_cases (Lacks b) (ltb n 10) _ _ (λ small. (ground (arith, h, small), l))
      (λ large.
        digits-Lacks b rounds (n / 10) ((b'0' + n % 10) ∷ rest) h
          (digit_ne (n % 10) (omega arith), l))
  where
    digit_ne : (d : ℕ) → d < 10 → b'0' + d ≢ b
    digit_ne d k = ground (arith, h, k)

pub itoa-Lacks : (b : ℕ) (n : ℤ) → is_digit b ≡ false → b ≢ b'-' → Lacks b (itoa n)
unfolding itoa itoa_nat
itoa-Lacks b (pos n) h m = digits-Lacks b (suc n) n [] h tt
itoa-Lacks b (negsuc n) h m = (λ e. m (sym e), digits-Lacks b (suc (suc n)) (suc n) [] h tt)
