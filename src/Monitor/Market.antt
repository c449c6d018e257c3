-- ===== src/Monitor/Market.antt =====
-- `ExtractTickers` of internal/tickers/parser.go, which expects a text that starts with "Market Support
-- for". A slice that is out of range is a panic.
pub mod Panics
use api_poll.Prelude.{
  ℕ, zero, suc, ◌+◌, ◌-◌, ◌≤◌, ◌<◌, ◌≡◌, refl, ◌↔◌, Bool, true, false, ◌&&◌, ◌||◌, not, List, [],
  ◌∷◌, ◌++◌, Option, none, some, Bytes, utf8, bytes_eq, contains, length, length-drop, take, drop,
  leb, ltb, ◌==◌, if◌then◌else◌, if_cases, arith,
}
use api_poll.Prelude.Trim.{trim_space}
use api_poll.Monitor.{market_support}

-- `unicode.IsSpace` on one byte.
abbrev pub is_space_byte : ℕ → Bool
is_space_byte c = leb 9 c && leb c 13 || c == 32 || c == 0x85 || c == 0xa0

unfoldable pub skip_spaces : Bytes → Bytes
skip_spaces [] = []
skip_spaces (c ∷ cs) = let rest = skip_spaces cs in if is_space_byte c then rest else c ∷ cs

-- The place of the first parenthesis that opens, counted from `i`; 0 if there is none.
unfoldable pub first_open : ℕ → Bytes → ℕ
first_open i [] = 0
first_open i (c ∷ cs) = let rest = first_open (suc i) cs in if c == b'(' then i else rest

abbrev pub slice : Bytes → ℕ → ℕ → Bytes
slice m from to = take (to - from) (drop from m)

-- The variables of the loop; `tickerEnd` is read only where it is set.
pub record Scan : Type 0 where
  pub start : ℕ
  pub ticker_start : ℕ
  pub in_ticker : Bool
  pub tickers : List Bytes

-- The text between parentheses, if it is not empty.
unfoldable pub with_ticker : Bytes → List Bytes → List Bytes
unfolding bytes_eq
with_ticker ticker ts = if not (bytes_eq ticker []) then ts ++ ticker ∷ [] else ts

-- The text between commas, if it is not empty and has no parenthesis.
unfoldable pub with_part : Bytes → List Bytes → List Bytes
unfolding bytes_eq contains
with_part part ts =
    if not (bytes_eq part []) && not (contains part (utf8 "(")) then ts ++ part ∷ [] else ts

unfoldable pub close_ticker : Bytes → ℕ → Scan → Scan
unfolding trim_space with_ticker
close_ticker m i s =
    let ticker = trim_space (slice m s.ticker_start i) in
    if s.in_ticker
    then record s {
      tickers = if ltb s.ticker_start i then with_ticker ticker s.tickers else s.tickers;
      in_ticker = false;
    }
    else s

unfoldable pub end_part : Bytes → ℕ → Scan → Scan
unfolding trim_space with_part
end_part m i s =
    let part = trim_space (slice m s.start i) in
    if not s.in_ticker then record s { tickers = with_part part s.tickers; start = i + 1 } else s

-- One byte of the loop.
unfoldable pub scan_byte : Bytes → ℕ → ℕ → Scan → Scan
unfolding close_ticker end_part
scan_byte m i c s =
    if c == b'('
    then record s { ticker_start = i + 1; in_ticker = true }
    else if c == b')'
    then close_ticker m i s
    else if c == b','
    then end_part m i s
    else s

unfoldable pub scan : Bytes → ℕ → Bytes → Scan → Scan
unfolding scan_byte
scan m i [] s = s
scan m i (c ∷ cs) s = scan m (i + 1) cs (scan_byte m i c s)

-- The loop over the bytes before `stop`, and the last part.
unfoldable pub tickers_before : Bytes → ℕ → List Bytes
unfolding scan with_part trim_space
tickers_before m stop =
    let s =
      scan m 0 (take stop m)
        (record { start = 0; ticker_start = 0; in_ticker = false; tickers = [] }) in
    if not s.in_ticker && ltb s.start stop
    then with_part (trim_space (slice m s.start stop)) s.tickers
    else s.tickers

unfoldable pub tickers_in : Bytes → List Bytes
unfolding first_open tickers_before
tickers_in m = let stop = first_open 0 m in tickers_before m (if stop == 0 then length m else stop)

-- `pos` keeps its value after the first cut, so the second cut starts as far on again.
unfoldable pub extract_tickers : Bytes → Option (List Bytes)
unfolding market_support skip_spaces tickers_in
extract_tickers message =
    let pos = length market_support in
    let rest = drop pos message in
    if ltb (length message) pos
    then none
    else if ltb (length rest) pos
    then none
    else some (tickers_in (skip_spaces (drop pos rest)))
