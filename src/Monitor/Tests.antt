-- ===== src/Monitor/Tests.antt =====
-- Runs of the monitor at concrete titles.
use api_poll.Prelude.{some, ◌≡◌, refl, contains, arith, [], ◌∷◌, ◌++◌, Bytes, utf8}
use api_poll.Monitor.{
  received, extract_korean_tickers, start_monitoring, market_support,
  contains_korean_listing_pattern,
}
use api_poll.Monitor.Market.{extract_tickers}
use api_poll.Monitor.Tickers.{start_monitoring_orders}

abbrev before : Bytes
before = utf8 "Market Support for Flock"

abbrev ticker : Bytes
ticker = utf8 "FLOCK"

abbrev after : Bytes
after = utf8 ", Forta(FORT)"

start_monitoring_orders_example :
    start_monitoring (received (before ++ b'(' ∷ (ticker ++ b')' ∷ after)) ∷ []) ≡ ticker ∷ []
unfolding start_monitoring extract_korean_tickers market_support contains_korean_listing_pattern
    contains
start_monitoring_orders_example =
    start_monitoring_orders before ticker after [] refl refl
      (refl, (refl, (refl, (refl, (refl, tt))))) (omega arith) (omega arith)

-- As many bytes are skipped again as the text has in front.
parts :
    extract_tickers (utf8 "Market Support for Alpha and others, B , C (D)")
    ≡ some (utf8 "B" ∷ utf8 "C" ∷ [])
unfolding extract_tickers
parts = refl
