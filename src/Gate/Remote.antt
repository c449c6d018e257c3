-- ===== src/Gate/Remote.antt =====
-- `OpenOrder` of pkg/gate/grpc/gate_client.go. The reply of the service, if the call succeeds, is a
-- parameter; the result is the error and the tickers that were sent.
use api_poll.Prelude.{
  ℕ, ◌≡◌, ◌↔◌, Bool, true, false, List, [], ◌∷◌, Option, none, some, Bytes, arith,
}

pub record Reply : Type 0 where
  pub success : Bool
  pub error : Bytes

pub data RemoteError : Type 0 where
  ticker_empty call_failed : RemoteError
  not_opened : Bytes → RemoteError

abbrev pub reply_error : Option Reply → Option RemoteError
reply_error none = some call_failed
reply_error (some r) = elim r.success [ true ↦ none | false ↦ some (not_opened r.error) ]

unfoldable pub open_order : (Bytes → Option Reply) → Bytes → Option RemoteError × List Bytes
open_order service [] = (some ticker_empty, [])
open_order service (c ∷ cs) = (reply_error (service (c ∷ cs)), (c ∷ cs) ∷ [])

abbrev pub Succeeded : Option Reply → Type 0
Succeeded none = ⊥
Succeeded (some r) = r.success ≡ true

reply_error_lem : (r : Option Reply) → (reply_error r ≡ none) ↔ Succeeded r
reply_error_lem none = ground arith
reply_error_lem (some r) = ground arith

-- An order for a ticker is opened without an error just when the service was asked and says so.
pub open_order_lem :
    (service : Bytes → Option Reply) (c : ℕ) (cs : Bytes)
    → ((open_order service (c ∷ cs)).0 ≡ none) ↔ Succeeded (service (c ∷ cs))
unfolding open_order
open_order_lem service c cs = reply_error_lem (service (c ∷ cs))
