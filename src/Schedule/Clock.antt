-- ===== src/Schedule/Clock.antt =====
-- time.Parse and Format for the layout "15:04": an hour of one or two digits, a colon, and a minute of
-- exactly two digits.
use api_poll.Prelude.{
  ℕ, ◌+◌, ◌-◌, ◌*◌, ◌/◌, ◌%◌, ◌<◌, ◌≡◌, Bool, ◌&&◌, [], ◌∷◌, Option, none, some, Bytes, ltb, leb,
  ◌==◌, if◌then◌else◌, arith,
}

abbrev is_digit : ℕ → Bool
is_digit c = leb b'0' c && leb c b'9'

-- Two digits as a number.
abbrev pair_value : ℕ → ℕ → ℕ
pair_value c d = (c - b'0') * 10 + (d - b'0')

-- `:mm` and no more.
unfoldable pub parse_minute : ℕ → Bytes → Option (ℕ × ℕ)
parse_minute h (s ∷ c ∷ d ∷ []) =
    if (s == b':') && (is_digit c && is_digit d) && ltb h 24 && ltb (pair_value c d) 60
    then some (h, pair_value c d)
    else none
parse_minute h s = none

unfoldable pub parse_clock : Bytes → Option (ℕ × ℕ)
unfolding parse_minute
parse_clock [] = none
parse_clock (c ∷ []) = none
parse_clock (c ∷ d ∷ rest) =
    if is_digit c
    then if is_digit d
      then parse_minute (pair_value c d) rest
      else parse_minute (c - b'0') (d ∷ rest)
    else none

abbrev two_digits : ℕ → Bytes → Bytes
two_digits n rest = (b'0' + n / 10) ∷ (b'0' + n % 10) ∷ rest

unfoldable pub format_clock : ℕ × ℕ → Bytes
format_clock (h, m) = two_digits h (b':' ∷ two_digits m [])

-- Every time of day is read back from its print.
pub parse_clock-format_clock :
    (h m : ℕ) → h < 24 → m < 60 → parse_clock (format_clock (h, m)) ≡ some (h, m)
unfolding parse_clock format_clock
parse_clock-format_clock h m p q = ground arith

-- What is read is a time of day.
pub parse_clock_bounds : (s : Bytes) (h m : ℕ) → parse_clock s ≡ some (h, m) → (h < 24) × (m < 60)
unfolding parse_clock
parse_clock_bounds [] h m e = cc
parse_clock_bounds (c ∷ []) h m e = cc
parse_clock_bounds (c ∷ d ∷ []) h m e = ground arith
parse_clock_bounds (c ∷ d ∷ x ∷ []) h m e = ground arith
parse_clock_bounds (c ∷ d ∷ x ∷ y ∷ []) h m e = ground arith
parse_clock_bounds (c ∷ d ∷ x ∷ y ∷ z ∷ []) h m e = ground arith
parse_clock_bounds (c ∷ d ∷ x ∷ y ∷ z ∷ w ∷ r) h m e = ground arith
