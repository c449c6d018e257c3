-- ===== src/Poller.antt =====
-- pkg/httptools/proxy_rotating_poller.go. The goroutine of `StartPolling` is a fold over what it reads
-- at each turn of its loop: the schedule's answers, whether the context is done, and the time since
-- the last poll started. Durations are nanoseconds in ℤ, and the polling interval is a parameter, since
-- it is the quotient of a float. The goroutines that a turn starts are in `Deliver`.
pub mod Pace
pub mod Loop
pub mod Deliver
pub mod Workers
pub mod Urls
mod Tests
use api_poll.Prelude.{
  Bool, true, false, Option, none, some, Bytes, List, [], ◌∷◌, ◌++◌, if◌then◌else◌,
}
use api_poll.Prelude.Int.{ℤ, pos, ◌+ℤ◌, ◌-ℤ◌, ltb_ℤ}

-- `timeToSleepBeforeNextPoll` and `workDebt` for the next turn, from the time since the last start and
-- the debt of the last turn.
unfoldable pub pace : ℤ → ℤ → ℤ → ℤ × ℤ
pace interval elapsed debt =
    let t = interval -ℤ elapsed -ℤ debt in
    if ltb_ℤ t (pos 0) then (pos 0, pos 0 -ℤ t) else (t, pos 0)

-- What one turn reads. A method of the schedule may panic.
pub data Reading : Type 0 where
  reads : Bool → Option ℤ → Bool → ℤ → Reading
  panics : Reading

-- What a turn does, as far as others see it.
pub data Action : Type 0 where
  announces_pause : ℤ → Action
  sleeps : ℤ → Action
  announces_resumption : Action
  waits_for_workers : Action
  polls : Action

-- How a turn ends: the next one with a debt, a return of nil, or a panic.
pub data Turn : Type 0 where
  goes_on : ℤ → Turn
  returns_nil : Turn
  panicked : Turn

-- The `if !WorkNow()` block; `none` is its return.
abbrev pub pause : Bool → Option ℤ → Option (List Action)
pause true session = some []
pause false none = none
pause false (some d) = some (announces_pause d ∷ sleeps d ∷ announces_resumption ∷ [])

-- One turn of the loop of `populateWithResponses`.
unfoldable pub turn : ℤ → ℤ → Reading → List Action × Turn
unfolding pace
turn interval debt panics = ([], panicked)
turn interval debt (reads working session cancelled elapsed) = elim (pause working session) [
  | none ↦ ([], returns_nil)
  | some actions ↦ if cancelled then (actions ++ waits_for_workers ∷ [], returns_nil) else (
    actions ++ (polls ∷ sleeps (pace interval elapsed debt).0 ∷ []),
    goes_on (pace interval elapsed debt).1,
  )
]

-- The end of a call of `populateWithResponses`: an error of a context, another error or nil, or a
-- panic.
pub data Attempt : Type 0 where
  context_error : Attempt
  returned : Attempt
  recovered : Attempt

-- `executePollingWithRecovery`: `shouldContinue` for the call's end.
unfoldable pub should_continue : Attempt → Bool
should_continue context_error = false
should_continue returned = true
should_continue recovered = true

-- The state of the polling goroutine.
pub data Status : Type 0 where
  in_turn : ℤ → Status
  finished : Status

-- What a turn's end means for the goroutine: `doPollingWithRecovery` calls again, with no debt, as long
-- as it should continue, and its return closes the responses channel.
abbrev pub next_call : Attempt → Status
next_call a = if should_continue a then in_turn (pos 0) else finished

abbrev pub after_turn : Turn → Status
after_turn (goes_on debt) = in_turn debt
after_turn returns_nil = next_call returned
after_turn panicked = next_call recovered

-- The goroutine over the readings so far: what it did and where it is.
unfoldable pub do_polling : ℤ → Status → List Reading → List Action × Status
unfolding turn should_continue
do_polling interval finished rs = ([], finished)
do_polling interval (in_turn debt) [] = ([], in_turn debt)
do_polling interval (in_turn debt) (r ∷ rs) =
    let t = turn interval debt r in
    let rest = do_polling interval (after_turn t.1) rs in (t.0 ++ rest.0, rest.1)

-- `StartPolling`: the flag is set once and never cleared.
pub data StartError : Type 0 where
  already_polling : StartError

unfoldable pub start_polling : Bool → Bool × Option StartError
start_polling true = (true, some already_polling)
start_polling false = (true, none)

-- The stream methods of the fetchers: their own flag first, then the poller's.
pub record Session : Type 0 where
  pub streaming : Bool
  pub polling : Bool

pub data StreamError : Type 0 where
  already_streaming : StreamError
  start_failed : StartError → StreamError

unfoldable pub start_streaming : Session → Session × Option StreamError
unfolding start_polling
start_streaming s =
    if s.streaming
    then (s, some already_streaming)
    else let p = start_polling s.polling in
      (
        record { streaming = true; polling = p.0 },
        elim p.1 [ none ↦ none | some e ↦ some (start_failed e) ],
      )
