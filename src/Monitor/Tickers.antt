-- ===== src/Monitor/Tickers.antt =====
-- The tickers in parentheses, and the orders for them.
use api_poll.Prelude.{
  ℕ, ◌≤◌, ◌≡◌, refl, Bool, true, false, ◌||◌, List, [], ◌∷◌, ◌++◌, Option, none, some, Bytes,
  contains, length, ◌==◌, arith, if◌then◌else◌, ap, ◌∙◌,
}
use api_poll.Monitor.{
  ticker_byte, closes, of_size, put_ticker, extract_korean_tickers, market_support,
  contains_korean_listing_pattern, first_of, orders_for, Event, received, start_monitoring,
}

-- Nothing after an opening parenthesis is of use to a ticker that began before it.
closes_open : (p s : Bytes) → closes (p ++ b'(' ∷ s) ≡ closes p
unfolding closes
closes_open [] s = refl
closes_open (c ∷ p) s =
    ap
      (λ (rest : Option Bytes).
        (if c == b')'
          then some []
          else if ticker_byte c
          then elim rest [ none ↦ none | some t ↦ some (c ∷ t) ]
          else none))
      (closes_open p s)

abbrev pub AllTickerBytes : Bytes → Type 0
AllTickerBytes [] = Unit
AllTickerBytes (c ∷ t) = (ticker_byte c ≡ true) × AllTickerBytes t

not_closing : (c : ℕ) → ticker_byte c ≡ true → (c == b')') ≡ false
not_closing c h = ground arith

closes_ticker : (t s : Bytes) → AllTickerBytes t → closes (t ++ b')' ∷ s) ≡ some t
unfolding closes
closes_ticker [] s h = refl
closes_ticker (c ∷ t) s (b, h) = ground (arith, closes_ticker t s h, not_closing c b)

put_ticker-append :
    (o : Option Bytes) (xs ys : List Bytes) → put_ticker o (xs ++ ys) ≡ put_ticker o xs ++ ys
unfolding put_ticker
put_ticker-append none xs ys = refl
put_ticker-append (some t) xs ys = refl

extract-append :
    (pre s : Bytes)
    → extract_korean_tickers (pre ++ b'(' ∷ s)
      ≡ extract_korean_tickers pre ++ put_ticker (of_size (closes s)) (extract_korean_tickers s)
unfolding extract_korean_tickers
extract-append [] s = refl
extract-append (c ∷ pre) s =
    choose_append (c == b'(') (extract_korean_tickers pre)
      (put_ticker (of_size (closes s)) (extract_korean_tickers s)) (closes_open pre s)
      (extract-append pre s)
  where
    choose_append :
        {o p : Option Bytes} {xs : List Bytes} (b : Bool) (ys zs : List Bytes)
        → o ≡ p
        → xs ≡ ys ++ zs
        → (if b then put_ticker (of_size o) xs else xs)
          ≡ (if b then put_ticker (of_size p) ys else ys) ++ zs
    choose_append {p = p} true ys zs e f =
        (λ i. put_ticker (of_size (e i)) (f i)) ∙ put_ticker-append (of_size p) ys zs
    choose_append false ys zs e f = f

not_opening : (c : ℕ) → ticker_byte c ≡ true → (c == b'(') ≡ false
not_opening c h = ground arith

-- No match begins inside a ticker.
extract_skip :
    (t post : Bytes)
    → AllTickerBytes t
    → extract_korean_tickers (t ++ b')' ∷ post) ≡ extract_korean_tickers post
unfolding extract_korean_tickers
extract_skip [] post h = refl
extract_skip (c ∷ t) post (b, h) = simp (not_opening c b) (extract_skip t post h)

of_size_fits : (t : Bytes) → 2 ≤ length t → length t ≤ 10 → of_size (some t) ≡ some t
unfolding of_size
of_size_fits t lo hi = ground arith

-- A ticker of two to ten capitals and digits in parentheses is found, whatever stands before it and
-- after it, after the tickers before it and before those after it.
pub extract_korean_tickers_lem :
    (pre t post : Bytes)
    → AllTickerBytes t
    → 2 ≤ length t
    → length t ≤ 10
    → extract_korean_tickers (pre ++ b'(' ∷ (t ++ b')' ∷ post))
      ≡ extract_korean_tickers pre ++ t ∷ extract_korean_tickers post
unfolding put_ticker
extract_korean_tickers_lem pre t post h lo hi =
    extract-append pre (t ++ b')' ∷ post)
    ∙ ap (λ ts. extract_korean_tickers pre ++ ts)
        (λ i.
          put_ticker ((ap of_size (closes_ticker t post h) ∙ of_size_fits t lo hi) i)
            (extract_skip t post h i))

-- For a title that has a listing pattern and a ticker in parentheses with no other ticker before it,
-- the monitor starts one order, for that ticker, and goes on.
pub start_monitoring_orders :
    (pre t post : Bytes) (es : List Event)
    → (contains (pre ++ b'(' ∷ (t ++ b')' ∷ post)) market_support
        || contains_korean_listing_pattern (pre ++ b'(' ∷ (t ++ b')' ∷ post)))
      ≡ true
    → extract_korean_tickers pre ≡ []
    → AllTickerBytes t
    → 2 ≤ length t
    → length t ≤ 10
    → start_monitoring (received (pre ++ b'(' ∷ (t ++ b')' ∷ post)) ∷ es) ≡ t ∷ start_monitoring es
unfolding start_monitoring orders_for
start_monitoring_orders pre t post es listing clean h lo hi = simp listing (
    ap (λ ts. first_of ts ++ start_monitoring es)
      (extract_korean_tickers_lem pre t post h lo hi
        ∙ ap (λ ts. ts ++ t ∷ extract_korean_tickers post) clean))
