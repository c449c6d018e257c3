-- ===== src/Poller/Tests.antt =====
-- Runs of the poller at concrete readings.
use api_poll.Prelude.{
  ℕ, utf8, refl, Bool, ltb, ◌≡◌, arith, true, false, List, [], ◌∷◌, Option, none, some, length,
}
use api_poll.Prelude.Int.{ℤ, pos, ◌+ℤ◌, ◌≤ℤ◌}
use api_poll.Entity.{Response, zero_response}
use api_poll.Poller.{Reading, reads, panics, Session, in_turn, do_polling}
use api_poll.Poller.Pace.{never_too_fast, spent}
use api_poll.Poller.Loop.{do_polling-continues, is_finished, do_polling-polls, poll_count}
use api_poll.Poller.Urls.{
  Move, request_begins, request_ends, sets_url, move_all, open_for, call_returns, call_holds_up,
}
use api_poll.Poller.Workers.{interleave, start_workers}
use api_poll.Poller.Workers.Accounts.{count, interleave-delivers, interleave-counts}

abbrev elapsed_times : List ℤ
elapsed_times = pos 130 ∷ pos 40 ∷ pos 90 ∷ []

never_too_fast_example :
    (pos 300 ≤ℤ (spent (pos 100) (pos 0) elapsed_times).0)
    × ((spent (pos 100) (pos 0) elapsed_times).0
        ≡ pos 300 +ℤ (spent (pos 100) (pos 0) elapsed_times).1)
unfolding ◌+ℤ◌
never_too_fast_example = never_too_fast (pos 100) elapsed_times

abbrev readings : List Reading
readings =
    reads true none false (pos 5)
    ∷ reads false (some (pos 60)) false (pos 5)
    ∷ panics
    ∷ reads false none false (pos 5)
    ∷ reads true none true (pos 5)
    ∷ []

do_polling-continues_example :
    is_finished (do_polling (pos 100) (in_turn (pos 0)) readings).1 ≡ false
do_polling-continues_example = do_polling-continues (pos 100) (pos 0) readings

do_polling-polls_example : poll_count (do_polling (pos 100) (in_turn (pos 0)) readings).0 ≡ 2
do_polling-polls_example = do_polling-polls (pos 100) (pos 0) readings

abbrev fresh : Session
fresh = record { streaming = false; polling = true }

abbrev page : Response
page = record zero_response { status_code = 200 }

abbrev outcomes : List (Option Response)
outcomes = some page ∷ none ∷ none ∷ some page ∷ []

is_served : Response → Bool
is_served r = ltb 0 r.status_code

-- The second worker sends before the others have fetched.
abbrev moves : List ℕ
moves = 2 ∷ 1 ∷ 1 ∷ 1 ∷ 2 ∷ 3 ∷ 1 ∷ 0 ∷ 2 ∷ 3 ∷ 2 ∷ 0 ∷ []

interleave-delivers_example : count is_served (interleave moves (start_workers outcomes) 0).2 ≡ 2
unfolding interleave is_served
interleave-delivers_example = interleave-delivers is_served refl moves outcomes 0 tt

interleave-counts_example :
    (length (interleave moves (start_workers outcomes) 247).2 ≡ 4)
    × ((interleave moves (start_workers outcomes) 247).1 ≡ 249)
unfolding interleave
interleave-counts_example = interleave-counts moves outcomes 247 (omega arith) tt

-- Two failures that are counted before either is loaded are both suppressed.
both_suppressed :
    (interleave (0 ∷ 0 ∷ 1 ∷ 1 ∷ 0 ∷ 1 ∷ 0 ∷ 1 ∷ []) (start_workers (none ∷ none ∷ [])) 248).2 ≡ []
unfolding interleave
both_suppressed = refl

-- Two requests are in flight when the call comes; a third one begins meanwhile.
abbrev requests : List Move
requests = request_begins ∷ request_ends ∷ request_begins ∷ []

call_returns_example :
    (move_all (sets_url (utf8 "b") ∷ request_ends ∷ requests) (open_for (utf8 "a") 2 0 [])).url
    ≡ utf8 "b"
call_returns_example =
    call_returns (utf8 "b") (request_ends ∷ requests) (utf8 "a") 2 0 [] tt (omega arith)

call_holds_up_example :
    ((move_all (sets_url (utf8 "b") ∷ requests) (open_for (utf8 "a") 2 0 [])).url ≡ utf8 "a")
    × ((move_all (sets_url (utf8 "b") ∷ requests) (open_for (utf8 "a") 2 0 [])).requested ≡ [])
call_holds_up_example = call_holds_up (utf8 "b") requests (utf8 "a") 2 0 [] tt (omega arith)

gone_out :
    (move_all
      (sets_url (utf8 "b") ∷ request_ends ∷ requests)
      (open_for (utf8 "a") 2 0 [])).requested
    ≡ utf8 "b" ∷ utf8 "b" ∷ []
unfolding move_all
gone_out = refl
