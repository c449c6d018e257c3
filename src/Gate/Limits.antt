-- ===== src/Gate/Limits.antt =====
-- The size of an order.
use api_poll.Prelude.{
  ◌≡◌, refl, ap, ◌∙◌, ◌⊎◌, inl, inr, Bool, true, false, List, [], ◌∷◌, ◌++◌, Option, none, some,
  Bytes, utf8, arith, if_cases, Bool-cases, option_cases,
}
use api_poll.Prelude.Int.{ℤ, pos, negsuc, parts_of_eq, abs, eqb_ℤ, ◌≤ℤ◌}
use api_poll.Gate.{
  Floats, Exchange, ContractInfo, FuturesOrder, Call, updates_leverage, gets_contract,
  lists_tickers, creates_order, Outcome, after, min_int64, abs_int64, refused, too_small, too_large,
  market_order, contract_size, create, with_price, with_tickers, with_info, open_futures_order,
}

-- The limits of the contract that are positive, as the absolute value of the size meets them. The size
-- -2^63 has no absolute value in 64 bits: it is over no upper limit, and under every lower one.
abbrev pub Within : ContractInfo → ℤ → Type 0
Within info size =
    (pos 1 ≤ℤ info.order_size_min → info.order_size_min ≤ℤ abs size)
    × (pos 1 ≤ℤ info.order_size_max
        → (abs size ≤ℤ info.order_size_max) ⊎ ((size ≡ min_int64) × (info.order_size_min ≤ℤ pos 0)))

abs_int64_lem : (x : ℤ) → (abs_int64 x ≡ abs x) ⊎ ((x ≡ min_int64) × (abs_int64 x ≡ min_int64))
unfolding abs_int64 abs
abs_int64_lem (pos n) = inl refl
abs_int64_lem (negsuc n) = elim (Bool-cases (eqb_ℤ (negsuc n) min_int64)) [
  | inl same ↦ let e : negsuc n ≡ min_int64 = ground (arith, same) in inr (e, ap abs_int64 e ∙ refl)
  | inr other ↦ inl (simp other refl)
]

checked-Within :
    (info : ContractInfo) (size : ℤ)
    → too_small info size ≡ false
    → too_large info size ≡ false
    → Within info size
unfolding too_small too_large
checked-Within info size small large = elim (abs_int64_lem size) [
  | inl e ↦ (
    λ lo. ground (arith, small, parts_of_eq e, lo),
    λ hi. inl (ground (arith, large, parts_of_eq e, hi)),
  )
  | inr (e, f) ↦ (
    λ lo. let no : ⊥ = ground (arith, small, f, lo) in elim no [ ],
    λ hi. inr (e, ground (arith, small, f)),
  )
]

-- The order is a market order for the contract with a size within its limits, and its size is zero for
-- the amount zero only.
abbrev pub IsSound : {R : Type 0} → Exchange R → Bytes → Bool → FuturesOrder → Type 0
IsSound exchange contract nothing o =
    (o ≡ market_order contract o.size)
    × ((info : ContractInfo) × (exchange.get_contract contract ≡ some info) × Within info o.size)
    × (o.size ≡ pos 0 → nothing ≡ true)

abbrev pub AllOrders : (FuturesOrder → Type 0) → List Call → Type 0
AllOrders P [] = Unit
AllOrders P (updates_leverage c l ∷ cs) = AllOrders P cs
AllOrders P (gets_contract c ∷ cs) = AllOrders P cs
AllOrders P (lists_tickers c ∷ cs) = AllOrders P cs
AllOrders P (creates_order o ∷ cs) = P o × AllOrders P cs

module _ {F R : Type 0} (floats : Floats F) (exchange : Exchange R) (usdt_amount : F) where
  contract_size_zero :
      (price multiplier : F)
      → contract_size floats exchange usdt_amount price multiplier ≡ pos 0
      → floats.is_zero usdt_amount ≡ true
  unfolding contract_size
  contract_size_zero price multiplier h = ground (arith, h)

  abbrev Sound : Bytes → Outcome F R → Type 0
  Sound contract o = AllOrders (IsSound exchange contract (floats.is_zero usdt_amount)) o.1

  create-Sound :
      (contract : Bytes) (price multiplier : F) (size : ℤ)
      → IsSound exchange contract (floats.is_zero usdt_amount) (market_order contract size)
      → Sound contract (create floats exchange usdt_amount contract price multiplier size)
  unfolding create
  create-Sound contract price multiplier size h =
      option_cases (λ o. Sound contract (after (creates_order (market_order contract size)) o))
        (exchange.create_order (market_order contract size)) _ _ (λ no. (h, tt))
        (λ made yes. (h, tt))

  with_price-Sound :
      (contract : Bytes) (info : ContractInfo) (last : Bytes)
      → exchange.get_contract contract ≡ some info
      → Sound contract (with_price floats exchange usdt_amount contract info last)
  unfolding with_price
  with_price-Sound contract info last e =
      let price = (floats.parse last).0 in
      let multiplier = (floats.parse info.quanto_multiplier).0 in
      let size = contract_size floats exchange usdt_amount price multiplier in
      if_cases (Sound contract) (floats.parse info.quanto_multiplier).1 _ _ (λ bad. tt)
        (λ good.
          if_cases (Sound contract) (too_small info size) _ _ (λ small. tt)
            (λ enough.
              if_cases (Sound contract) (too_large info size) _ _ (λ large. tt)
                (λ fits. create-Sound contract price multiplier size (
                  refl,
                  (info, e, checked-Within info size enough fits),
                  contract_size_zero price multiplier,
                ))))

  with_tickers-Sound :
      (contract : Bytes) (info : ContractInfo) (tickers : Option (List Bytes))
      → exchange.get_contract contract ≡ some info
      → Sound contract (with_tickers floats exchange usdt_amount contract info tickers)
  unfolding with_tickers
  with_tickers-Sound contract info none e = tt
  with_tickers-Sound contract info (some []) e = tt
  with_tickers-Sound contract info (some (last ∷ rest)) e = with_price-Sound contract info last e

  with_info-Sound :
      (contract : Bytes) (info : Option ContractInfo)
      → exchange.get_contract contract ≡ info
      → Sound contract (with_info floats exchange usdt_amount contract info)
  unfolding with_info
  with_info-Sound contract none e = tt
  with_info-Sound contract (some info) e =
      with_tickers-Sound contract info (exchange.list_tickers contract) e

-- Every order that is sent to the exchange is a market order of the token's contract in USDT. Its size
-- is not zero unless the amount is. Its absolute value is within the limits of the contract as far as
-- these are positive; only the size -2^63 escapes the upper one, where there is no lower one.
pub open_futures_order-IsSound :
    {F R : Type 0} (floats : Floats F) (exchange : Exchange R) (usdt_amount : F)
    (token leverage : Bytes)
    → AllOrders
        (IsSound exchange (token ++ utf8 "_USDT") (floats.is_zero usdt_amount))
        (open_futures_order floats exchange usdt_amount token leverage).1
unfolding open_futures_order
open_futures_order-IsSound {F} {R} floats exchange usdt_amount token leverage =
    let contract : Bytes = token ++ utf8 "_USDT" in
    if_cases {A = Outcome F R}
      (λ o.
        Sound floats exchange usdt_amount contract (after (updates_leverage contract leverage) o))
      (refused (exchange.update_leverage contract leverage)) _ _ (λ no. tt)
      (λ yes.
        with_info-Sound floats exchange usdt_amount contract (exchange.get_contract contract) refl)
