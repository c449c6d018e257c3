-- ===== src/Gate/Orders.antt =====
-- The calls that an order takes.
use api_poll.Prelude.{
  ℕ, ◌≤◌, ◌≡◌, refl, ◌⊎◌, inl, inr, true, List, [], ◌∷◌, ◌++◌, Option, none, some, Bytes, utf8,
  arith, if_cases, option_cases,
}
use api_poll.Prelude.Int.{ℤ}
use api_poll.Gate.{
  Floats, Exchange, ContractInfo, Call, updates_leverage, gets_contract, lists_tickers,
  creates_order, opened, failed, set_leverage_failed, contract_info_failed, ticker_failed,
  quanto_multiplier_invalid, size_too_small, size_too_large, create_order_failed, Outcome, after,
  refused, code_of, too_small, too_large, market_order, contract_size, create, with_price,
  with_tickers, with_info, open_futures_order,
}

module _ {R : Type 0} (exchange : Exchange R) (contract leverage : Bytes) where
  abbrev pub questions : List Call
  questions =
      updates_leverage contract leverage ∷ gets_contract contract ∷ lists_tickers contract ∷ []

  -- Of a result: the calls that were made, and the answer that decided.
  abbrev pub Accounted : {F : Type 0} → Outcome F R → Type 0
  Accounted (opened o, cs) =
      (cs ≡ questions ++ creates_order (market_order contract o.contract_size) ∷ [])
      × (exchange.create_order (market_order contract o.contract_size) ≡ some o.order)
  Accounted (failed (set_leverage_failed n), cs) =
      (cs ≡ updates_leverage contract leverage ∷ [])
      × (exchange.update_leverage contract leverage ≡ some n)
      × (400 ≤ n)
  Accounted (failed contract_info_failed, cs) =
      (cs ≡ updates_leverage contract leverage ∷ gets_contract contract ∷ [])
      × (exchange.get_contract contract ≡ none)
  Accounted (failed ticker_failed, cs) =
      (cs ≡ questions)
      × ((exchange.list_tickers contract ≡ none) ⊎ (exchange.list_tickers contract ≡ some []))
  Accounted (failed quanto_multiplier_invalid, cs) = cs ≡ questions
  Accounted (failed size_too_small, cs) = cs ≡ questions
  Accounted (failed size_too_large, cs) = cs ≡ questions
  Accounted (failed create_order_failed, cs) =
      (size : ℤ) × (cs ≡ questions ++ creates_order (market_order contract size) ∷ [])
      × (exchange.create_order (market_order contract size) ≡ none)

module _ {F R : Type 0} (floats : Floats F) (exchange : Exchange R) (usdt_amount : F)
    (contract leverage : Bytes) where
  -- An outcome that comes after the questions.
  abbrev Asked : Outcome F R → Type 0
  Asked o = Accounted exchange contract leverage (
      after (updates_leverage contract leverage)
        (after (gets_contract contract) (after (lists_tickers contract) o)))

  create-Asked :
      (price multiplier : F) (size : ℤ)
      → Asked (create floats exchange usdt_amount contract price multiplier size)
  unfolding create
  create-Asked price multiplier size =
      option_cases (λ o. Asked (after (creates_order (market_order contract size)) o))
        (exchange.create_order (market_order contract size)) _ _ (λ no. (size, refl, no))
        (λ made yes. (refl, yes))

  with_price-Asked :
      (info : ContractInfo) (last : Bytes)
      → Asked (with_price floats exchange usdt_amount contract info last)
  unfolding with_price
  with_price-Asked info last =
      let price = (floats.parse last).0 in
      let multiplier = (floats.parse info.quanto_multiplier).0 in
      let size = contract_size floats exchange usdt_amount price multiplier in
      if_cases Asked (floats.parse info.quanto_multiplier).1 _ _ (λ bad. refl)
        (λ good.
          if_cases Asked (too_small info size) _ _ (λ small. refl)
            (λ enough.
              if_cases Asked (too_large info size) _ _ (λ large. refl)
                (λ fits. create-Asked price multiplier size)))

  with_tickers-Asked :
      (info : ContractInfo) (tickers : Option (List Bytes))
      → exchange.list_tickers contract ≡ tickers
      → Asked (with_tickers floats exchange usdt_amount contract info tickers)
  unfolding with_tickers
  with_tickers-Asked info none e = (refl, inl e)
  with_tickers-Asked info (some []) e = (refl, inr e)
  with_tickers-Asked info (some (last ∷ rest)) e = with_price-Asked info last

  with_info-Asked :
      (info : Option ContractInfo)
      → exchange.get_contract contract ≡ info
      → Accounted exchange contract leverage (
          after
            (updates_leverage contract leverage)
            (after (gets_contract contract) (with_info floats exchange usdt_amount contract info)))
  unfolding with_info
  with_info-Asked none e = (refl, e)
  with_info-Asked (some info) e = with_tickers-Asked info (exchange.list_tickers contract) refl

-- The status that stops an order is an answer of the exchange.
refused_lem : (a : Option ℕ) → refused a ≡ true → (a ≡ some (code_of a)) × (400 ≤ code_of a)
refused_lem none h = let no : ⊥ = ground arith in elim no [ ]
refused_lem (some code) h = (refl, ground arith)

-- Whatever the exchange answers, the calls are the leverage, the contract, the tickers and the order,
-- in this sequence and each at most once. An opened order is the one the exchange returned for the
-- size that is reported; of an error the calls end at the answer that it is about, and only an
-- order that the exchange refused has been sent in spite of an error.
pub open_futures_order-Accounted :
    {F R : Type 0} (floats : Floats F) (exchange : Exchange R) (usdt_amount : F)
    (token leverage : Bytes)
    → Accounted exchange
        (token ++ utf8 "_USDT")
        leverage
        (open_futures_order floats exchange usdt_amount token leverage)
unfolding open_futures_order
open_futures_order-Accounted {F} {R} floats exchange usdt_amount token leverage =
    let contract : Bytes = token ++ utf8 "_USDT" in
    let answer = exchange.update_leverage contract leverage in
    if_cases {A = Outcome F R}
      (λ o. Accounted exchange contract leverage (after (updates_leverage contract leverage) o))
      (refused answer) _ _ (λ no. let h = refused_lem answer no in (refl, h.0, h.1))
      (λ yes.
        with_info-Asked floats exchange usdt_amount contract leverage
          (exchange.get_contract contract) refl)
