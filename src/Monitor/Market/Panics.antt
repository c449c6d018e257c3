-- ===== src/Monitor/Market/Panics.antt =====
-- When `ExtractTickers` panics, and what it returns otherwise.
use api_poll.Prelude.{
  ℕ, ◌+◌, ◌≤◌, ◌<◌, ◌≡◌, true, false, ◌&&◌, not, List, [], ◌∷◌, ◌++◌, Option, none, some, Bytes,
  utf8, bytes_eq, contains, length, length-drop, take, drop, ltb, ◌==◌, if◌then◌else◌, if_cases,
  arith,
}
use api_poll.Prelude.Trim.{trim_space}
use api_poll.Monitor.{market_support}
use api_poll.Monitor.Market.{
  skip_spaces, first_open, slice, Scan, with_ticker, with_part, close_ticker, end_part, scan_byte,
  scan, tickers_before, tickers_in, extract_tickers,
}

abbrev pub AllNonEmpty : List Bytes → Type 0
AllNonEmpty [] = Unit
AllNonEmpty (t ∷ ts) = (0 < length t) × AllNonEmpty ts

append-AllNonEmpty :
    (ts : List Bytes) (t : Bytes) → AllNonEmpty ts → 0 < length t → AllNonEmpty (ts ++ t ∷ [])
append-AllNonEmpty [] t h k = (k, tt)
append-AllNonEmpty (u ∷ ts) t (h, hs) k = (h, append-AllNonEmpty ts t hs k)

not_empty : (t : Bytes) → not (bytes_eq t []) ≡ true → 0 < length t
unfolding bytes_eq
not_empty [] h = let no : ⊥ = ground arith in elim no [ ]
not_empty (c ∷ cs) h = omega arith

with_ticker-AllNonEmpty :
    (t : Bytes) (ts : List Bytes) → AllNonEmpty ts → AllNonEmpty (with_ticker t ts)
unfolding with_ticker
with_ticker-AllNonEmpty t ts h =
    if_cases AllNonEmpty (not (bytes_eq t [])) _ _ (λ k. append-AllNonEmpty ts t h (not_empty t k))
      (λ k. h)

with_part-AllNonEmpty :
    (t : Bytes) (ts : List Bytes) → AllNonEmpty ts → AllNonEmpty (with_part t ts)
unfolding with_part
with_part-AllNonEmpty t ts h =
    if_cases AllNonEmpty (not (bytes_eq t []) && not (contains t (utf8 "("))) _ _
      (λ k. append-AllNonEmpty ts t h (not_empty t (ground (arith, k)))) (λ k. h)

abbrev IsClean : Scan → Type 0
IsClean s = AllNonEmpty s.tickers

close_ticker-IsClean : (m : Bytes) (i : ℕ) (s : Scan) → IsClean s → IsClean (close_ticker m i s)
unfolding close_ticker
close_ticker-IsClean m i s h =
    if_cases IsClean s.in_ticker _ _
      (λ k.
        if_cases AllNonEmpty (ltb s.ticker_start i) _ _
          (λ l. with_ticker-AllNonEmpty (trim_space (slice m s.ticker_start i)) s.tickers h)
          (λ l. h))
      (λ k. h)

end_part-IsClean : (m : Bytes) (i : ℕ) (s : Scan) → IsClean s → IsClean (end_part m i s)
unfolding end_part
end_part-IsClean m i s h =
    if_cases IsClean (not s.in_ticker) _ _
      (λ k. with_part-AllNonEmpty (trim_space (slice m s.start i)) s.tickers h) (λ k. h)

scan_byte-IsClean : (m : Bytes) (i c : ℕ) (s : Scan) → IsClean s → IsClean (scan_byte m i c s)
unfolding scan_byte
scan_byte-IsClean m i c s h =
    if_cases IsClean (c == b'(') _ _ (λ k. h)
      (λ k.
        if_cases IsClean (c == b')') _ _ (λ l. close_ticker-IsClean m i s h)
          (λ l. if_cases IsClean (c == b',') _ _ (λ n. end_part-IsClean m i s h) (λ n. h)))

scan-IsClean : (m : Bytes) (i : ℕ) (cs : Bytes) (s : Scan) → IsClean s → IsClean (scan m i cs s)
unfolding scan
scan-IsClean m i [] s h = h
scan-IsClean m i (c ∷ cs) s h =
    scan-IsClean m (i + 1) cs (scan_byte m i c s) (scan_byte-IsClean m i c s h)

tickers_before-AllNonEmpty : (m : Bytes) (stop : ℕ) → AllNonEmpty (tickers_before m stop)
unfolding tickers_before
tickers_before-AllNonEmpty m stop =
    let first : Scan = record { start = 0; ticker_start = 0; in_ticker = false; tickers = [] } in
    let last : Scan = scan m 0 (take stop m) first in
    let clean = scan-IsClean m 0 (take stop m) first tt in
    if_cases AllNonEmpty (not last.in_ticker && ltb last.start stop) _ _
      (λ k. with_part-AllNonEmpty (trim_space (slice m last.start stop)) last.tickers clean)
      (λ k. clean)

tickers_in-AllNonEmpty : (m : Bytes) → AllNonEmpty (tickers_in m)
unfolding tickers_in
tickers_in-AllNonEmpty m =
    let stop = first_open 0 m in tickers_before-AllNonEmpty m (if stop == 0 then length m else stop)

-- What the call gives for a text.
abbrev pub Given : Bytes → Option (List Bytes) → Type 0
Given message none = length message < 36
Given message (some ts) = (36 ≤ length message) × AllNonEmpty ts

-- The function panics just for the texts of fewer than 36 bytes, twice the length of "Market Support
-- for", and returns no empty ticker.
pub extract_tickers-Given : (message : Bytes) → Given message (extract_tickers message)
unfolding extract_tickers market_support
extract_tickers-Given message =
    if_cases (Given message) (ltb (length message) 18) _ _ (λ k. ground (arith, k))
      (λ k.
        if_cases (Given message) (ltb (length (drop 18 message)) 18) _ _
          (λ l. ground (arith, l, length-drop 18 message))
          (λ l. (
            ground (arith, k, l, length-drop 18 message),
            tickers_in-AllNonEmpty (skip_spaces (drop 18 (drop 18 message))),
          )))
