-- ===== src/Rate/Counts.antt =====
-- The counters of a run, and the steps of the search.
use api_poll.Prelude.{
  ℕ, zero, suc, ◌+◌, ◌≤◌, ◌≡◌, refl, true, false, List, [], ◌∷◌, length, ◌==◌, if◌then◌else◌,
  replicate, sum_of, arith,
}
use api_poll.Prelude.Int.{pos, ◌≤ℤ◌, int_laws}
use api_poll.Rate.{
  RequestStats, Outcome, not_created, not_executed, answered, make_request, make_requests, Event,
  ticks, context_done, requests_started, other_errors, Floats, too_many_requests, round, rounds,
}

-- One for an answer with a status.
abbrev pub has_status : ℕ → Outcome → ℕ
has_status n not_created = 0
has_status n not_executed = 0
has_status n (answered status) = if status == n then 1 else 0

abbrev pub Counted : RequestStats → RequestStats → List Outcome → Type 0
Counted s t os =
    (t.total_requests ≡ s.total_requests + length os)
    × (t.success_count ≡ s.success_count + sum_of (has_status 200) os)
    × (t.error_429_count ≡ s.error_429_count + sum_of (has_status 429) os)

make_request-Counted : (o : Outcome) (s : RequestStats) → Counted s (make_request o s) (o ∷ [])
unfolding make_request sum_of
make_request-Counted not_created s = (omega arith, omega arith, omega arith)
make_request-Counted not_executed s = (omega arith, omega arith, omega arith)
make_request-Counted (answered status) s = (ground arith, ground arith, ground arith)

-- A run counts its requests, the answers with 200 and those with 429, each once, whatever the counters
-- were before.
pub make_requests-Counted :
    (os : List Outcome) (s : RequestStats) → Counted s (make_requests os s) os
unfolding make_requests sum_of
make_requests-Counted [] s = (omega arith, omega arith, omega arith)
make_requests-Counted (o ∷ os) s =
    let (a, b, c) = make_request-Counted o s in
    let (d, e, f) = make_requests-Counted os (make_request o s) in
    (omega (arith, a, d), omega (arith, b, e), omega (arith, c, f))

one_status : (o : Outcome) → has_status 200 o + has_status 429 o ≤ 1
one_status not_created = omega arith
one_status not_executed = omega arith
one_status (answered status) = ground arith

both_statuses :
    (os : List Outcome) → sum_of (has_status 200) os + sum_of (has_status 429) os ≤ length os
unfolding sum_of
both_statuses [] = omega arith
both_statuses (o ∷ os) = omega (arith, one_status o, both_statuses os)

abbrev pub no_requests : RequestStats
no_requests = record { total_requests = 0; success_count = 0; error_429_count = 0 }

-- The report of a run gives no negative number of other errors.
pub other_errors-make_requests :
    (os : List Outcome) → pos 0 ≤ℤ other_errors (make_requests os no_requests)
other_errors-make_requests os =
    let (a, b, c) = make_requests-Counted os no_requests in
    omega (int_laws, a, b, c, both_statuses os)

-- At most as many requests are started as allowed.
pub requests_started_le : (n : ℕ) (es : List Event) → requests_started n es ≤ n
unfolding requests_started
requests_started_le zero es = omega arith
requests_started_le (suc n) [] = omega arith
requests_started_le (suc n) (context_done ∷ es) = omega arith
requests_started_le (suc n) (ticks ∷ es) = omega (arith, requests_started_le n es)

-- Of refusals in a row only the first halves the step; every one takes the step off the rate.
abbrev pub lowered : {F : Type 0} → Floats F → F → ℕ → F → F
lowered f delta zero rate = rate
lowered f delta (suc n) rate = lowered f delta n (f.minus rate delta)

later_refusals :
    {F : Type 0} (f : Floats F) (n : ℕ) (rate delta : F)
    → rounds f
        (replicate n too_many_requests)
        (record { current_rps = rate; delta = delta; first_knock = false })
      ≡ record { current_rps = lowered f delta n rate; delta = delta; first_knock = false }
unfolding rounds round
later_refusals f zero rate delta = refl
later_refusals f (suc n) rate delta = later_refusals f n (f.minus rate delta) delta

pub rounds-refused :
    {F : Type 0} (f : Floats F) (n : ℕ) (rate delta : F)
    → rounds f
        (replicate (suc n) too_many_requests)
        (record { current_rps = rate; delta = delta; first_knock = true })
      ≡ record {
        current_rps = lowered f (f.half delta) (suc n) rate;
        delta = f.half delta;
        first_knock = false;
      }
unfolding rounds round
rounds-refused f n rate delta = later_refusals f n (f.minus rate (f.half delta)) (f.half delta)
