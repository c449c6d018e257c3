-- ===== src/Gate.antt =====
-- `OpenFuturesOrder` of pkg/gate/gate.go, which the news monitor calls.
-- The answers of the exchange are a parameter, and so are the uses of
-- floats. A call of the exchange is logged with its arguments. The duration that is observed, the
-- credentials and the texts of errors are left out.
pub mod Orders
pub mod Limits
pub mod Remote
mod Tests
use api_poll.Prelude.{
  ℕ, Bool, true, false, ◌&&◌, not, List, [], ◌∷◌, ◌++◌, Option, none, some, Bytes, utf8, leb,
  if◌then◌else◌,
}
use api_poll.Prelude.Int.{ℤ, pos, negsuc, eqb_ℤ, ltb_ℤ, ◌-ℤ◌}

-- The uses of floats: `ParseFloat` with whether it fails, the tests against zero, and
-- `int64(amount / (price * multiplier))`.
pub record Floats (F : Type 0) : Type 0 where
  pub parse : Bytes → F × Bool
  pub is_zero : F → Bool
  pub is_positive : F → Bool
  pub contracts : F → F → F → ℤ

pub record FuturesOrder : Type 0 where
  pub contract : Bytes
  pub size : ℤ
  pub price : Bytes
  pub tif : Bytes

-- The fields of a contract that are read.
pub record ContractInfo : Type 0 where
  pub quanto_multiplier : Bytes
  pub order_size_min : ℤ
  pub order_size_max : ℤ

-- What the exchange answers: the status for the leverage, if there is a response at all, the contract,
-- the last prices of the tickers, and the order that was made.
pub record Exchange (R : Type 0) : Type 0 where
  pub update_leverage : Bytes → Bytes → Option ℕ
  pub get_contract : Bytes → Option ContractInfo
  pub list_tickers : Bytes → Option (List Bytes)
  pub create_order : FuturesOrder → Option R

pub data Call : Type 0 where
  updates_leverage : Bytes → Bytes → Call
  gets_contract lists_tickers : Bytes → Call
  creates_order : FuturesOrder → Call

pub data OrderError : Type 0 where
  set_leverage_failed : ℕ → OrderError
  contract_info_failed ticker_failed quanto_multiplier_invalid : OrderError
  size_too_small size_too_large create_order_failed : OrderError

-- The map that is returned.
pub record Opened (F R : Type 0) : Type 0 where
  pub order : R
  pub usdt_amount : F
  pub contract_size : ℤ
  pub quanto_multiplier : F
  pub current_price : F

pub data OrderResult (F R : Type 0) : Type 0 where
  opened : Opened F R → OrderResult F R
  failed : OrderError → OrderResult F R

-- The result and the calls so far.
abbrev pub Outcome : Type 0 → Type 0 → Type 0
Outcome F R = OrderResult F R × List Call

abbrev pub after : {F R : Type 0} → Call → Outcome F R → Outcome F R
after c (r, cs) = (r, c ∷ cs)

abbrev pub stop : {F R : Type 0} → OrderError → Outcome F R
stop e = (failed e, [])

abbrev pub min_int64 : ℤ
min_int64 = negsuc 9_223_372_036_854_775_807

-- `abs` on int64: the least integer is its own negation.
unfoldable pub abs_int64 : ℤ → ℤ
abs_int64 x = if ltb_ℤ x (pos 0) then (if eqb_ℤ x min_int64 then x else pos 0 -ℤ x) else x

-- `httpResp != nil && httpResp.StatusCode >= 400`.
abbrev pub refused : Option ℕ → Bool
refused none = false
refused (some code) = leb 400 code

abbrev pub code_of : Option ℕ → ℕ
code_of none = 0
code_of (some code) = code

-- The checks of the size against the contract.
unfoldable pub too_small : ContractInfo → ℤ → Bool
unfolding abs_int64
too_small info size =
    ltb_ℤ (pos 0) info.order_size_min && ltb_ℤ (abs_int64 size) info.order_size_min

unfoldable pub too_large : ContractInfo → ℤ → Bool
unfolding abs_int64
too_large info size =
    ltb_ℤ (pos 0) info.order_size_max && ltb_ℤ info.order_size_max (abs_int64 size)

abbrev pub market_order : Bytes → ℤ → FuturesOrder
market_order contract size = record {
  contract = contract;
  size = size;
  price = utf8 "0";
  tif = utf8 "ioc";
}

module _ {F R : Type 0} (floats : Floats F) (exchange : Exchange R) (usdt_amount : F) where
  -- The whole number of contracts, at least one in either direction for an amount that is not zero.
  unfoldable pub contract_size : F → F → ℤ
  contract_size price multiplier =
      let size = floats.contracts usdt_amount price multiplier in
      if eqb_ℤ size (pos 0) && not (floats.is_zero usdt_amount)
      then (if floats.is_positive usdt_amount then pos 1 else negsuc 0)
      else size

  -- From the creation of the order on.
  unfoldable pub create : Bytes → F → F → ℤ → Outcome F R
  create contract price multiplier size =
      let order = market_order contract size in
      after (creates_order order) (elim (exchange.create_order order) [
        | none ↦ stop create_order_failed
        | some made ↦ (
          opened (record {
            order = made;
            usdt_amount = usdt_amount;
            contract_size = size;
            quanto_multiplier = multiplier;
            current_price = price;
          }),
          [],
        )
      ])

  -- From the last price on; that it could not be read is not looked at.
  unfoldable pub with_price : Bytes → ContractInfo → Bytes → Outcome F R
  unfolding contract_size too_small too_large create
  with_price contract info last =
      let price = (floats.parse last).0 in
      let multiplier = (floats.parse info.quanto_multiplier).0 in
      let size = contract_size price multiplier in
      if (floats.parse info.quanto_multiplier).1
      then stop quanto_multiplier_invalid
      else if too_small info size
      then stop size_too_small
      else if too_large info size
      then stop size_too_large
      else create contract price multiplier size

  unfoldable pub with_tickers : Bytes → ContractInfo → Option (List Bytes) → Outcome F R
  unfolding with_price
  with_tickers contract info none = stop ticker_failed
  with_tickers contract info (some []) = stop ticker_failed
  with_tickers contract info (some (last ∷ rest)) = with_price contract info last

  unfoldable pub with_info : Bytes → Option ContractInfo → Outcome F R
  unfolding with_tickers
  with_info contract none = stop contract_info_failed
  with_info contract (some info) =
      after (lists_tickers contract) (with_tickers contract info (exchange.list_tickers contract))

  pub open_futures_order : Bytes → Bytes → Outcome F R
  unfolding with_info
  open_futures_order token leverage =
      let contract = token ++ utf8 "_USDT" in
      let answer = exchange.update_leverage contract leverage in
      after (updates_leverage contract leverage) (
        if refused answer
        then stop (set_leverage_failed (code_of answer))
        else after (gets_contract contract) (with_info contract (exchange.get_contract contract)))
