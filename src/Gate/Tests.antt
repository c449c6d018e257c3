-- ===== src/Gate/Tests.antt =====
-- An exchange that makes every order, and rates in whole numbers.
use api_poll.Prelude.{ℕ, ◌-◌, ◌≡◌, refl, false, [], ◌∷◌, ◌++◌, some, utf8, length, ltb, ◌==◌}
use api_poll.Prelude.Int.{pos}
use api_poll.Gate.{Floats, Exchange, market_order, open_futures_order, creates_order}
use api_poll.Gate.Orders.{Accounted, questions, open_futures_order-Accounted}
use api_poll.Gate.Limits.{AllOrders, IsSound, open_futures_order-IsSound}

abbrev whole : Floats ℕ
whole = record {
  parse = λ s. (length s, false);
  is_zero = λ n. n == 0;
  is_positive = λ n. ltb 0 n;
  contracts = λ amount price multiplier. pos (amount - price);
}

abbrev generous : Exchange ℕ
generous = record {
  update_leverage = λ contract leverage. some 200;
  get_contract = λ contract.
      some
        (record { quanto_multiplier = utf8 "1"; order_size_min = pos 1; order_size_max = pos 9 });
  list_tickers = λ contract. some (utf8 "abc" ∷ []);
  create_order = λ order. some 7;
}

one_order :
    (open_futures_order whole generous 10 (utf8 "BTC") (utf8 "20")).1
    ≡ questions generous (utf8 "BTC_USDT") (utf8 "20")
      ++ creates_order (market_order (utf8 "BTC_USDT") (pos 7)) ∷ []
unfolding open_futures_order
one_order = refl

open_futures_order-Accounted_example :
    Accounted generous
      (utf8 "BTC" ++ utf8 "_USDT")
      (utf8 "20")
      (open_futures_order whole generous 10 (utf8 "BTC") (utf8 "20"))
open_futures_order-Accounted_example =
    open_futures_order-Accounted whole generous 10 (utf8 "BTC") (utf8 "20")

open_futures_order-IsSound_example :
    AllOrders
      (IsSound generous (utf8 "BTC" ++ utf8 "_USDT") false)
      (open_futures_order whole generous 10 (utf8 "BTC") (utf8 "20")).1
open_futures_order-IsSound_example =
    open_futures_order-IsSound whole generous 10 (utf8 "BTC") (utf8 "20")
