-- ===== src/Monitor.antt =====
-- What becomes of the titles that a fetcher sends: the goroutine of `streamNews` in main.go passes them
-- on, and internal/core/news_monitor.go opens an order for a listing. The regular expression of
-- internal/tickers/parser.go is written out as a scanner over bytes.
pub mod Tickers
pub mod Market
pub mod Forward
mod Tests
use api_poll.Prelude.{
  ℕ, zero, suc, ◌+◌, Bool, true, false, ◌&&◌, ◌||◌, List, [], ◌∷◌, ◌++◌, Option, none, some, Bytes,
  utf8, bytes_eq, contains, length, leb, ◌==◌, if◌then◌else◌,
}

-- [A-Z0-9]
abbrev pub ticker_byte : ℕ → Bool
ticker_byte c = (leb b'A' c && leb c b'Z') || (leb b'0' c && leb c b'9')

-- The bytes of the class up to a closing parenthesis.
pub closes : Bytes → Option Bytes
closes [] = none
closes (c ∷ s) =
    let rest = closes s in
    if c == b')'
    then some []
    else if ticker_byte c
    then elim rest [ none ↦ none | some t ↦ some (c ∷ t) ]
    else none

-- `\(([A-Z0-9]{2,10})\)` right after an opening parenthesis: the group's text.
pub of_size : Option Bytes → Option Bytes
of_size none = none
of_size (some t) = if leb 2 (length t) && leb (length t) 10 then some t else none

-- `ExtractKoreanTickers`. A match has no second opening parenthesis, so the search for the next match
-- may go on right after the first one.
pub put_ticker : Option Bytes → List Bytes → List Bytes
put_ticker none ts = ts
put_ticker (some t) ts = t ∷ ts

pub extract_korean_tickers : Bytes → List Bytes
unfolding closes of_size put_ticker
extract_korean_tickers [] = []
extract_korean_tickers (c ∷ s) =
    let rest = extract_korean_tickers s in
    if c == b'(' then put_ticker (of_size (closes s)) rest else rest

unfoldable pub market_support : Bytes
market_support = utf8 "Market Support for"

unfoldable pub korean_listing_patterns : List Bytes
korean_listing_patterns = utf8 "신규 거래지원 안내" ∷ utf8 "디지털 자산 추가" ∷ utf8 "상장 안내" ∷ []

unfoldable pub contains_any : Bytes → List Bytes → Bool
contains_any news [] = false
contains_any news (p ∷ ps) = if contains news p then true else contains_any news ps

unfoldable pub contains_korean_listing_pattern : Bytes → Bool
unfolding contains_any
contains_korean_listing_pattern news = contains_any news korean_listing_patterns

-- The tickers of the orders that `StartMonitoring` starts for one title. Each is opened in a goroutine of
-- its own: the lists have the orders as they are started, and nothing is said of when, or in which order,
-- they reach the exchange.
abbrev pub first_of : List Bytes → List Bytes
first_of [] = []
first_of (t ∷ ts) = t ∷ []

pub orders_for : Bytes → List Bytes
unfolding extract_korean_tickers contains_korean_listing_pattern
orders_for news =
    if contains news market_support || contains_korean_listing_pattern news
    then first_of (extract_korean_tickers news)
    else []

-- What a loop over a channel of titles meets: a title, a closed channel, or a context that is done.
pub data Event : Type 0 where
  received : Bytes → Event
  closed : Event
  context_done : Event

-- `StartMonitoring`: the orders that it starts, in the order of their start. A closed channel gives the
-- empty title.
pub start_monitoring : List Event → List Bytes
unfolding orders_for
start_monitoring [] = []
start_monitoring (context_done ∷ es) = []
start_monitoring (closed ∷ es) = orders_for [] ++ start_monitoring es
start_monitoring (received news ∷ es) = orders_for news ++ start_monitoring es

-- The goroutine of `streamNews`: what it puts on `newsChan`, from the last title that it has put there.
pub forward : Bytes → List Event → List Bytes
forward last [] = []
forward last (context_done ∷ es) = []
forward last (closed ∷ es) = forward last es
forward last (received news ∷ es) =
    let same = forward last es in
    let new = forward news es in if bytes_eq news last then same else news ∷ new
