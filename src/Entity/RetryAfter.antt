-- ===== src/Entity/RetryAfter.antt =====
-- The method `RequestAfter` of pkg/httptools/response.go. A duration is an int64 of nanoseconds, which
-- wraps.
use api_poll.Prelude.{
  ℕ, ◌-◌, ◌*◌, ◌%◌, ◌^◌, ◌≤◌, ◌<◌, ◌≡◌, ap, ◌∙◌, List, [], ◌∷◌, Option, none, some, Bytes, utf8,
  bytes_eq, ltb, if◌then◌else◌, if_true, if_false, lt→ltb, arith,
}
use api_poll.Prelude.Int.{ℤ, pos, negsuc, ◌*ℤ◌}
use api_poll.Prelude.Decimal.{itoa, atoi}
use api_poll.Prelude.Decimal.RoundTrip.{atoi-itoa, itoa_nonempty}
use api_poll.Entity.{Header, Response}

-- `http.Header.Get` for a canonical name.
abbrev pub first_value : List Bytes → Bytes
first_value [] = []
first_value (v ∷ vs) = v

unfoldable pub header_get : Bytes → Header → Bytes
unfolding bytes_eq
header_get name [] = []
header_get name ((k, vs) ∷ h) = if bytes_eq k name then first_value vs else header_get name h

-- The integer of 64 bits with this word.
unfoldable pub of_word : ℕ → ℤ
of_word w = if ltb w (2 ^ 63) then pos w else negsuc (2 ^ 64 - 1 - w)

unfoldable pub wrap_int64 : ℤ → ℤ
unfolding of_word
wrap_int64 (pos n) = of_word (n % 2 ^ 64)
wrap_int64 (negsuc n) = of_word (2 ^ 64 - 1 - n % 2 ^ 64)

abbrev pub second : ℤ
second = pos 1_000_000_000

-- The duration for the text of the header.
unfoldable pub duration_of : Bytes → ℤ
unfolding bytes_eq atoi wrap_int64 ◌*ℤ◌
duration_of t =
    if bytes_eq t []
    then pos 0
    else elim (atoi t) [ none ↦ pos 0 | some n ↦ wrap_int64 (n *ℤ second) ]

unfoldable pub request_after : Response → ℤ
unfolding header_get duration_of
request_after r = duration_of (header_get (utf8 "Retry-After") r.headers)

abbrev after_atoi : Option ℤ → ℤ
after_atoi none = pos 0
after_atoi (some n) = wrap_int64 (n *ℤ second)

nanoseconds : (n : ℕ) → pos n *ℤ second ≡ pos (n * 1_000_000_000)
unfolding ◌*ℤ◌
nanoseconds n = ground arith

no_wrap : (n : ℕ) → n < 2 ^ 63 → wrap_int64 (pos n) ≡ pos n
unfolding wrap_int64
no_wrap n h =
    let same : n % 2 ^ 64 ≡ n = omega (arith, h) in
    ap of_word same ∙ if_true (pos n) _ (lt→ltb n (2 ^ 63) h)

in_seconds : (n : ℕ) → n ≤ 9_223_372_036 → wrap_int64 (pos n *ℤ second) ≡ pos (n * 1_000_000_000)
in_seconds n h = ap wrap_int64 (nanoseconds n) ∙ no_wrap (n * 1_000_000_000) (omega (arith, h))

-- Where the header is a number of seconds whose nanoseconds have 64 bits, these are the answer.
pub request_after-seconds :
    (r : Response) (n : ℕ)
    → header_get (utf8 "Retry-After") r.headers ≡ itoa (pos n)
    → n ≤ 9_223_372_036
    → request_after r ≡ pos (n * 1_000_000_000)
unfolding request_after duration_of
request_after-seconds r n e h =
    ap duration_of e
    ∙ if_false _ _ (itoa_nonempty n)
    ∙ ap after_atoi (atoi-itoa n (omega (arith, h)))
    ∙ in_seconds n h
