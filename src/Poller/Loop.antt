-- ===== src/Poller/Loop.antt =====
-- What the polling goroutine does over its turns, and when polling can be started.
use api_poll.Prelude.{
  ℕ, suc, ◌≡◌, refl, ap, ◌∙◌, Bool, true, false, List, [], ◌∷◌, ◌++◌, Option, none, some, if_cases,
}
use api_poll.Prelude.Int.{ℤ, pos}
use api_poll.Poller.{
  Status, in_turn, finished, Reading, reads, panics, Action, announces_pause, sleeps,
  announces_resumption, waits_for_workers, polls, turn, Turn, goes_on, returns_nil, panicked,
  after_turn, do_polling, start_streaming, Session, StreamError, already_streaming, should_continue,
}

abbrev pub is_finished : Status → Bool
is_finished finished = true
is_finished (in_turn debt) = false

-- Every turn's end leads to another turn.
next_debt : Turn → ℤ
next_debt (goes_on debt) = debt
next_debt returns_nil = pos 0
next_debt panicked = pos 0

after_turn-next : (t : Turn) → after_turn t ≡ in_turn (next_debt t)
unfolding next_debt should_continue
after_turn-next (goes_on debt) = refl
after_turn-next returns_nil = refl
after_turn-next panicked = refl

-- The goroutine never ends, whatever it reads, a cancelled context included: the call that the context
-- ends returns no error, and is made again.
pub do_polling-continues :
    (interval debt : ℤ) (rs : List Reading)
    → is_finished (do_polling interval (in_turn debt) rs).1 ≡ false
unfolding do_polling
do_polling-continues interval debt [] = refl
do_polling-continues interval debt (r ∷ rs) =
    let t = (turn interval debt r).1 in
    ap (λ s. is_finished (do_polling interval s rs).1) (after_turn-next t)
    ∙ do_polling-continues interval (next_debt t) rs

abbrev pub is_poll : Action → Bool
is_poll polls = true
is_poll (announces_pause d) = false
is_poll (sleeps d) = false
is_poll announces_resumption = false
is_poll waits_for_workers = false

abbrev count_if : Bool → ℕ → ℕ
count_if true n = suc n
count_if false n = n

abbrev pub poll_count : List Action → ℕ
poll_count [] = 0
poll_count (a ∷ acts) = count_if (is_poll a) (poll_count acts)

-- Whether a reading lets its turn poll: no panic, a context that is not done, and either working hours
-- or a next session.
abbrev pub lets_poll : Reading → Bool
lets_poll panics = false
lets_poll (reads working session true elapsed) = false
lets_poll (reads true session false elapsed) = true
lets_poll (reads false none false elapsed) = false
lets_poll (reads false (some d) false elapsed) = true

abbrev pub reading_count : List Reading → ℕ
reading_count [] = 0
reading_count (r ∷ rs) = count_if (lets_poll r) (reading_count rs)

poll_count-turn :
    (interval debt : ℤ) (r : Reading) (acts : List Action)
    → poll_count ((turn interval debt r).0 ++ acts) ≡ count_if (lets_poll r) (poll_count acts)
unfolding turn
poll_count-turn interval debt panics acts = refl
poll_count-turn interval debt (reads true session true elapsed) acts = refl
poll_count-turn interval debt (reads true session false elapsed) acts = refl
poll_count-turn interval debt (reads false none true elapsed) acts = refl
poll_count-turn interval debt (reads false none false elapsed) acts = refl
poll_count-turn interval debt (reads false (some d) true elapsed) acts = refl
poll_count-turn interval debt (reads false (some d) false elapsed) acts = refl

-- The goroutine polls once in each turn whose readings let it, and in no other turn: a panic or a
-- failing schedule costs only its own turn.
pub do_polling-polls :
    (interval debt : ℤ) (rs : List Reading)
    → poll_count (do_polling interval (in_turn debt) rs).0 ≡ reading_count rs
unfolding do_polling
do_polling-polls interval debt [] = refl
do_polling-polls interval debt (r ∷ rs) =
    let t = (turn interval debt r).1 in
    poll_count-turn interval debt r (do_polling interval (after_turn t) rs).0
    ∙ ap (count_if (lets_poll r)) (
        ap (λ s. poll_count (do_polling interval s rs).0) (after_turn-next t)
        ∙ do_polling-polls interval (next_debt t) rs)

-- A stream can be started once: whatever the first start answered, a second one is refused and changes
-- nothing.
pub start_streaming_twice :
    (s : Session)
    → ((start_streaming (start_streaming s).0).1 ≡ some already_streaming)
      × ((start_streaming (start_streaming s).0).0 ≡ (start_streaming s).0)
unfolding start_streaming
start_streaming_twice s =
    if_cases {A = Session × Option StreamError}
      (λ p. ((start_streaming p.0).1 ≡ some already_streaming) × ((start_streaming p.0).0 ≡ p.0))
      s.streaming _ _ (λ on. (simp on refl, simp on refl)) (λ off. (refl, refl))
