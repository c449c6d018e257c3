-- ===== src/Poller/Deliver.antt =====
-- `fetchResponse`, the part of a worker that asks its client. What the workers then do with the counter
-- of failures that they share, and with the responses channel, is in Workers, in any order.
use api_poll.Prelude.{ℕ, suc, ◌+◌, List, [], ◌∷◌, Option, none, some}
use api_poll.Entity.{Response}

-- The three counters of the poller's metrics.
pub record Counters : Type 0 where
  pub requests_total : ℕ
  pub errors_total : ℕ
  pub fetched_total : ℕ

-- `fetchResponse` for the outcome of `client.Request`; a failure gives the zero response.
unfoldable pub fetch_response : Option Response → Counters → Counters × Option Response
fetch_response none c =
    (record c { requests_total = c.requests_total + 1; errors_total = c.errors_total + 1 }, none)
fetch_response (some r) c = (
  record c { requests_total = c.requests_total + 1; fetched_total = c.fetched_total + 1 },
  some r,
)

abbrev pub failures : List (Option Response) → ℕ
failures [] = 0
failures (none ∷ os) = suc (failures os)
failures (some r ∷ os) = failures os

-- The responses of the successful fetches, in order.
abbrev pub fetched : List (Option Response) → List Response
fetched [] = []
fetched (none ∷ os) = fetched os
fetched (some r ∷ os) = r ∷ fetched os
