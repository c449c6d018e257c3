-- ===== src/Prelude/Decimal/RoundTrip.antt =====
-- A number of 64 bits that is printed and read.
use api_poll.Prelude.{
  ℕ, zero, suc, ◌+◌, ◌/◌, ◌%◌, ◌^◌, ◌<◌, ◌≡◌, refl, ap, ◌∙◌, true, false, [], ◌∷◌, Option, none,
  some, Bytes, bytes_eq, ltb, ◌==◌, arith, if_cases, if_true, if_false, lt→ltb,
}
use api_poll.Prelude.Int.{ℤ, pos}
use api_poll.Prelude.Decimal.{
  is_digit, digits, itoa_nat, itoa, value_after, digits_value, in_range, atoi, value_after-itoa,
}

abbrev StartsWithDigit : Bytes → Type 0
StartsWithDigit [] = ⊥
StartsWithDigit (c ∷ s) = is_digit c ≡ true

digits-StartsWithDigit :
    (rounds n : ℕ) (rest : Bytes) → n < rounds → StartsWithDigit (digits rounds n rest)
unfolding digits
digits-StartsWithDigit zero n rest h = let no : ⊥ = omega (arith, h) in elim no [ ]
digits-StartsWithDigit (suc rounds) n rest h =
    if_cases {A = Bytes} StartsWithDigit (ltb n 10) _ _
      (λ small. let e : is_digit (b'0' + n) ≡ true = ground (arith, small) in e)
      (λ large.
        digits-StartsWithDigit rounds (n / 10) ((b'0' + n % 10) ∷ rest) (ground (arith, h, large)))

abbrev after_digits : Option ℕ → Option ℤ
after_digits none = none
after_digits (some n) = in_range (pos n)

atoi_digits :
    (s : Bytes) (n : ℕ)
    → StartsWithDigit s
    → value_after 0 s ≡ some n
    → n < 2 ^ 63
    → atoi s ≡ some (pos n)
unfolding atoi digits_value in_range
atoi_digits [] n d e h = elim d [ ]
atoi_digits (c ∷ s) n d e h =
    let no_minus : (c == b'-') ≡ false = ground (arith, d) in
    let no_plus : (c == b'+') ≡ false = ground (arith, d) in
    if_false _ _ no_minus
    ∙ ap after_digits (ap digits_value (if_false s (c ∷ s) no_plus) ∙ e)
    ∙ if_true _ _ (lt→ltb n (2 ^ 63) h)

pub atoi-itoa : (n : ℕ) → n < 2 ^ 63 → atoi (itoa (pos n)) ≡ some (pos n)
unfolding itoa itoa_nat
atoi-itoa n h =
    atoi_digits (itoa_nat n) n (digits-StartsWithDigit (suc n) n [] (omega arith))
      (value_after-itoa n) h

starts_nonempty : (s : Bytes) → StartsWithDigit s → bytes_eq s [] ≡ false
unfolding bytes_eq
starts_nonempty [] d = elim d [ ]
starts_nonempty (c ∷ s) d = refl

pub itoa_nonempty : (n : ℕ) → bytes_eq (itoa (pos n)) [] ≡ false
unfolding itoa itoa_nat
itoa_nonempty n = starts_nonempty (itoa_nat n) (digits-StartsWithDigit (suc n) n [] (omega arith))
