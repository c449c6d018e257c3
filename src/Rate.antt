-- ===== src/Rate.antt =====
-- The rate tests: pkg/rps_runner.go counts the answers to a number of requests, and
-- cmd/test-rps/main.go looks for the highest rate that is not refused. The outcome of a request is a
-- parameter, and so are floats; the report of a run is printed.
pub mod Counts
mod Tests
use api_poll.Prelude.{ℕ, zero, suc, ◌+◌, ◌*◌, Bool, true, false, List, [], ◌∷◌, ◌==◌, if◌then◌else◌}
use api_poll.Prelude.Int.{ℤ, pos, ◌-ℤ◌}

-- The counters of `RequestStats`.
pub record RequestStats : Type 0 where
  pub total_requests : ℕ
  pub success_count : ℕ
  pub error_429_count : ℕ

pub data Outcome : Type 0 where
  not_created not_executed : Outcome
  answered : ℕ → Outcome

-- `makeRequest`; its additions are atomic.
unfoldable pub make_request : Outcome → RequestStats → RequestStats
make_request not_created s = record s { total_requests = s.total_requests + 1 }
make_request not_executed s = record s { total_requests = s.total_requests + 1 }
make_request (answered status) s =
    let counted : RequestStats = record s { total_requests = s.total_requests + 1 } in
    if status == 200
    then record counted { success_count = s.success_count + 1 }
    else if status == 429
    then record counted { error_429_count = s.error_429_count + 1 }
    else counted

-- The requests of a run, in the order in which they count.
unfoldable pub make_requests : List Outcome → RequestStats → RequestStats
unfolding make_request
make_requests [] s = s
make_requests (o ∷ os) s = make_requests os (make_request o s)

-- What the loop of `main` meets: a tick, or a context that is done. At most `max_requests` are started.
pub data Event : Type 0 where
  ticks context_done : Event

unfoldable pub requests_started : ℕ → List Event → ℕ
requests_started zero es = 0
requests_started (suc left) [] = 0
requests_started (suc left) (context_done ∷ es) = 0
requests_started (suc left) (ticks ∷ es) = suc (requests_started left es)

-- The "other errors" of the report.
abbrev pub other_errors : RequestStats → ℤ
other_errors s = pos s.total_requests -ℤ pos s.success_count -ℤ pos s.error_429_count

-- The variables of the search of cmd/test-rps.
pub record Search (F : Type 0) : Type 0 where
  pub current_rps : F
  pub delta : F
  pub first_knock : Bool

-- The uses of floats.
pub record Floats (F : Type 0) : Type 0 where
  pub half : F → F
  pub plus : F → F → F
  pub minus : F → F → F

-- A request fails, is refused with 429, or is answered otherwise, within an hour of the last change of
-- the rate or later.
pub data Answer : Type 0 where
  fails too_many_requests : Answer
  served : Bool → Answer

-- One round of the loop.
unfoldable pub round : {F : Type 0} → Floats F → Answer → Search F → Search F
round f fails s = s
round f too_many_requests s =
    let delta = if s.first_knock then f.half s.delta else s.delta in
    record { current_rps = f.minus s.current_rps delta; delta = delta; first_knock = false }
round f (served false) s = s
round f (served true) s = record s {
  current_rps = f.plus s.current_rps s.delta;
  first_knock = true;
}

unfoldable pub rounds : {F : Type 0} → Floats F → List Answer → Search F → Search F
unfolding round
rounds f [] s = s
rounds f (a ∷ as') s = rounds f as' (round f a s)
