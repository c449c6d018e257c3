-- ===== src/Sucker/Locks/Hanging.antt =====
-- What the moves of a stream can lead to.
use api_poll.Prelude.{
  ◌≡◌, ◌⊎◌, Bool, true, List, [], ◌∷◌, Option, none, some, arith, option_cases, subst,
}
use api_poll.Sucker.Locks.{
  Main, returned, closed, Pinger, waiting, pinging, ended, Mutex, by_reading, by_handing_over,
  by_ping, State, Move, start, step, run,
}

-- A property of the state that a move leads to, if it can be made.
abbrev pub After : (State → Type 0) → Option State → Type 0
After P none = Unit
After P (some s) = P s

run-After :
    (P : State → Type 0)
    → ((m : Move) (s : State) → P s → After P (step m s))
    → (ms : List Move) (s : State) → P s
    → After P (run ms s)
unfolding run
run-After P kept [] s h = h
run-After P kept (m ∷ ms) s h =
    option_cases (After P) (step m s) _ _ (λ e. tt)
      (λ t e. run-After P kept ms t (subst (After P) e (kept m s h)))

-- `ping` is pinging just when it has the mutex; `read` returns and `ping` returns only when the context
-- is done, and the channel is closed only after both.
abbrev pub PingHolds : Pinger → Mutex → Type 0
PingHolds pinging by_ping = Unit
PingHolds pinging _ = ⊥
PingHolds _ by_ping = ⊥
PingHolds _ _ = Unit

abbrev pub MainDone : Main → Pinger → Bool → Type 0
MainDone closed ended true = Unit
MainDone closed _ _ = ⊥
MainDone returned _ done = done ≡ true
MainDone _ _ _ = Unit

abbrev pub PingDone : Pinger → Bool → Type 0
PingDone ended done = done ≡ true
PingDone _ done = Unit

abbrev pub IsOrderly : State → Type 0
IsOrderly s =
    PingHolds s.pinger s.mutex × MainDone s.main s.pinger s.done × PingDone s.pinger s.done

step-IsOrderly : (m : Move) (s : State) → IsOrderly s → After IsOrderly (step m s)
unfolding step
step-IsOrderly m s h = ground (arith, h)

-- The context is done and `read` has returned, while a reader has the mutex and `ping` waits for it.
abbrev pub IsHung : State → Type 0
IsHung s =
    (s.main ≡ returned)
    × (s.pinger ≡ waiting)
    × ((s.mutex ≡ by_reading) ⊎ (s.mutex ≡ by_handing_over))

-- Whatever the goroutines do from the start of a stream: `ping` pings just when it has the mutex, and
-- the channel of news is closed only after `read` and `ping` have returned, which they do only when
-- the context is done.
pub run-IsOrderly : (ms : List Move) → After IsOrderly (run ms start)
run-IsOrderly ms = run-After IsOrderly step-IsOrderly ms start (tt, tt, tt)
