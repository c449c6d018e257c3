-- ===== src/Metrics/Tests.antt =====
-- A registry that refuses what it has, and some calls.
use api_poll.Prelude.{true, not, List, [], ◌∷◌, Bytes, utf8, arith, ℕ, Bool}
use api_poll.Metrics.{State, new_service, increments_counter, increments_gauge, Call, run}
use api_poll.Metrics.Vectors.{has_name, RefusesRepeats, IsConsistent}
use api_poll.Metrics.Consistent.{run-IsConsistent}

abbrev distinct_names : List Bytes → Bytes → List Bytes → Bool
unfolding has_name
distinct_names names n labels = not (has_name n names)

distinct_names-RefusesRepeats : RefusesRepeats distinct_names
unfolding has_name
distinct_names-RefusesRepeats names n labels h = ground (arith, h)

abbrev calls : List (Call ℕ)
calls =
    increments_counter (utf8 "a") (utf8 "k" ∷ utf8 "v" ∷ [])
    ∷ increments_gauge (utf8 "a") []
    ∷ increments_counter (utf8 "a") []
    ∷ []

run-IsConsistent_example : IsConsistent (
    run
      (λ v. true)
      distinct_names
      calls
      (record { service = new_service; registered = []; log = [] }))
run-IsConsistent_example =
    run-IsConsistent (λ v. true) distinct_names [] calls distinct_names-RefusesRepeats

abbrev empty : State ℕ
empty = record { service = new_service; registered = []; log = [] }
