-- ===== src/Poller/Workers/Accounts.antt =====
-- What the workers send, in whatever order they move.
use api_poll.Prelude.{
  ℕ, zero, suc, ◌+◌, ◌<◌, ◌≡◌, refl, ap, Bool, true, false, List, [], ◌∷◌, ◌++◌, Option, none, some,
  ltb, arith, length, if_cases, length-append,
}
use api_poll.Entity.{Response, zero_response}
use api_poll.Poller.Deliver.{failures, fetched}
use api_poll.Poller.Workers.{
  Worker, fetching, adding, loading, storing, sending, finished, advance, advance_at, interleave,
  start_workers,
}

abbrev pub one_if : Bool → ℕ
one_if true = 1
one_if false = 0

abbrev pub count : (Response → Bool) → List Response → ℕ
count test [] = 0
count test (r ∷ rs) = one_if (test r) + count test rs

count-append :
    (test : Response → Bool) (rs qs : List Response)
    → count test (rs ++ qs) ≡ count test rs + count test qs
count-append test [] qs = omega arith
count-append test (r ∷ rs) qs = omega (arith, count-append test rs qs)

abbrev pub AllFinished : List Worker → Type 0
AllFinished [] = Unit
AllFinished (finished ∷ ws) = AllFinished ws
AllFinished (_ ∷ ws) = ⊥

-- The responses that a worker has fetched or will fetch, and has not sent.
abbrev held_by : (Response → Bool) → Worker → ℕ
held_by test (fetching (some r)) = one_if (test r)
held_by test (sending r) = one_if (test r)
held_by test _ = 0

abbrev held : (Response → Bool) → List Worker → ℕ
held test [] = 0
held test (w ∷ ws) = held_by test w + held test ws

module _ (test : Response → Bool) (no_zero : test zero_response ≡ false) where
  no_one : one_if (test zero_response) ≡ 0
  no_one = ap one_if no_zero

  advance-keeps :
      (w : Worker) (failed : ℕ)
      → held_by test (advance w failed).0 + count test (advance w failed).2 ≡ held_by test w
  unfolding advance
  advance-keeps (fetching none) failed = refl
  advance-keeps (fetching (some r)) failed = omega arith
  advance-keeps adding failed = refl
  advance-keeps loading failed =
      if_cases (λ w. held_by test w + 0 ≡ 0) (ltb 249 failed) storing (sending zero_response)
        (λ full. refl) (λ room. omega (arith, no_one))
  advance-keeps storing failed = refl
  advance-keeps (sending r) failed = omega arith
  advance-keeps finished failed = refl

  advance_at-keeps :
      (i : ℕ) (ws : List Worker) (failed : ℕ)
      → held test (advance_at i ws failed).0 + count test (advance_at i ws failed).2 ≡ held test ws
  unfolding advance_at
  advance_at-keeps i [] failed = refl
  advance_at-keeps zero (w ∷ ws) failed = omega (arith, advance-keeps w failed)
  advance_at-keeps (suc i) (w ∷ ws) failed = omega (arith, advance_at-keeps i ws failed)

  interleave-keeps :
      (moves : List ℕ) (ws : List Worker) (failed : ℕ)
      → held test (interleave moves ws failed).0 + count test (interleave moves ws failed).2
        ≡ held test ws
  unfolding interleave
  interleave-keeps [] ws failed = omega arith
  interleave-keeps (i ∷ moves) ws failed =
      let next = advance_at i ws failed in
      omega (
        arith,
        advance_at-keeps i ws failed,
        interleave-keeps moves next.0 next.1,
        count-append test next.2 (interleave moves next.0 next.1).2,
      )

  held_start :
      (os : List (Option Response)) → held test (start_workers os) ≡ count test (fetched os)
  held_start [] = refl
  held_start (none ∷ os) = omega (arith, held_start os)
  held_start (some r ∷ os) = omega (arith, held_start os)

  held_finished : (ws : List Worker) → AllFinished ws → held test ws ≡ 0
  held_finished [] h = refl
  held_finished (finished ∷ ws) h = omega (arith, held_finished ws h)
  held_finished (fetching o ∷ ws) h = elim h [ ]
  held_finished (adding ∷ ws) h = elim h [ ]
  held_finished (loading ∷ ws) h = elim h [ ]
  held_finished (storing ∷ ws) h = elim h [ ]
  held_finished (sending r ∷ ws) h = elim h [ ]

  -- In whatever order the workers move, once all have finished, as many sent messages pass a test as
  -- fetched responses do, for each test that the zero response of a failure does not pass.
  pub interleave-delivers :
      (moves : List ℕ) (os : List (Option Response)) (failed : ℕ)
      → AllFinished (interleave moves (start_workers os) failed).0
      → count test (interleave moves (start_workers os) failed).2 ≡ count test (fetched os)
  interleave-delivers moves os failed all = omega (
    arith,
    interleave-keeps moves (start_workers os) failed,
    held_start os,
    held_finished (interleave moves (start_workers os) failed).0 all,
  )

-- The failures that the counter does not count yet.
abbrev uncounted_by : Worker → ℕ
uncounted_by (fetching none) = 1
uncounted_by adding = 1
uncounted_by _ = 0

abbrev uncounted : List Worker → ℕ
uncounted [] = 0
uncounted (w ∷ ws) = uncounted_by w + uncounted ws

-- The messages that a worker will send, if it is not at its reset.
abbrev unsent_by : Worker → ℕ
unsent_by finished = 0
unsent_by _ = 1

abbrev unsent : List Worker → ℕ
unsent [] = 0
unsent (w ∷ ws) = unsent_by w + unsent ws

abbrev resets_by : Worker → ℕ
resets_by storing = 1
resets_by _ = 0

abbrev resets : List Worker → ℕ
resets [] = 0
resets (w ∷ ws) = resets_by w + resets ws

-- No worker is at its reset, and none gets there while this many failures are counted.
abbrev IsQuiet : Worker → Worker × ℕ × List Response → ℕ → Type 0
IsQuiet w (v, n, rs) failed =
    (n + uncounted_by v ≡ failed + uncounted_by w)
    × (unsent_by v + length rs ≡ unsent_by w)
    × (resets_by v ≡ 0)

advance-IsQuiet :
    (w : Worker) (failed : ℕ) → failed < 250 → resets_by w ≡ 0 → IsQuiet w (advance w failed) failed
unfolding advance
advance-IsQuiet (fetching none) failed h q = ground arith
advance-IsQuiet (fetching (some r)) failed h q = ground arith
advance-IsQuiet adding failed h q = ground arith
advance-IsQuiet loading failed h q =
    if_cases (λ w. IsQuiet loading (w, failed, []) failed) (ltb 249 failed) storing
      (sending zero_response) (λ full. let no : ⊥ = ground (arith, full, h) in elim no [ ])
      (λ room. ground arith)
advance-IsQuiet storing failed h q = let no : ⊥ = ground (arith, q) in elim no [ ]
advance-IsQuiet (sending r) failed h q = ground arith
advance-IsQuiet finished failed h q = ground arith

advance_at-quiet :
    (i : ℕ) (ws : List Worker) (failed : ℕ)
    → failed < 250
    → resets ws ≡ 0
    → ((advance_at i ws failed).1 + uncounted (advance_at i ws failed).0 ≡ failed + uncounted ws)
      × (unsent (advance_at i ws failed).0 + length (advance_at i ws failed).2 ≡ unsent ws)
      × (resets (advance_at i ws failed).0 ≡ 0)
unfolding advance_at
advance_at-quiet i [] failed h q = ground arith
advance_at-quiet zero (w ∷ ws) failed h q =
    let step = advance-IsQuiet w failed h (omega (arith, q)) in
    (omega (arith, step.0), omega (arith, step.1), omega (arith, step.2, q))
advance_at-quiet (suc i) (w ∷ ws) failed h q =
    let ih = advance_at-quiet i ws failed h (omega (arith, q)) in
    (omega (arith, ih.0), omega (arith, ih.1), omega (arith, ih.2, q))

interleave-quiet :
    (moves : List ℕ) (ws : List Worker) (failed : ℕ)
    → failed + uncounted ws < 250
    → resets ws ≡ 0
    → ((interleave moves ws failed).1 + uncounted (interleave moves ws failed).0
        ≡ failed + uncounted ws)
      × (unsent (interleave moves ws failed).0 + length (interleave moves ws failed).2 ≡ unsent ws)
unfolding interleave
interleave-quiet [] ws failed h q = (refl, omega arith)
interleave-quiet (i ∷ moves) ws failed h q =
    let next = advance_at i ws failed in
    let (e, sent, q') = advance_at-quiet i ws failed (omega (arith, h)) q in
    let ih = interleave-quiet moves next.0 next.1 (omega (arith, e, h)) q' in
    (
      omega (arith, e, ih.0),
      omega (arith, sent, ih.1, length-append next.2 (interleave moves next.0 next.1).2),
    )

start_lem :
    (os : List (Option Response))
    → (uncounted (start_workers os) ≡ failures os)
      × (unsent (start_workers os) ≡ length os)
      × (resets (start_workers os) ≡ 0)
start_lem [] = (refl, refl, refl)
start_lem (none ∷ os) =
    let ih = start_lem os in (omega (arith, ih.0), omega (arith, ih.1), omega (arith, ih.2))
start_lem (some r ∷ os) =
    let ih = start_lem os in (omega (arith, ih.0), omega (arith, ih.1), omega (arith, ih.2))

finished_lem : (ws : List Worker) → AllFinished ws → (uncounted ws ≡ 0) × (unsent ws ≡ 0)
finished_lem [] h = (refl, refl)
finished_lem (finished ∷ ws) h =
    let ih = finished_lem ws h in (omega (arith, ih.0), omega (arith, ih.1))
finished_lem (fetching o ∷ ws) h = elim h [ ]
finished_lem (adding ∷ ws) h = elim h [ ]
finished_lem (loading ∷ ws) h = elim h [ ]
finished_lem (storing ∷ ws) h = elim h [ ]
finished_lem (sending r ∷ ws) h = elim h [ ]

-- Where the counter and the failures of the workers together stay under 250, nothing is suppressed in
-- whatever order the workers move: once all have finished, each has sent one message, and the counter
-- has grown by the failures.
pub interleave-counts :
    (moves : List ℕ) (os : List (Option Response)) (failed : ℕ)
    → failed + failures os < 250
    → AllFinished (interleave moves (start_workers os) failed).0
    → (length (interleave moves (start_workers os) failed).2 ≡ length os)
      × ((interleave moves (start_workers os) failed).1 ≡ failed + failures os)
interleave-counts moves os failed h all =
    let (uncounted_start, unsent_start, quiet) = start_lem os in
    let (counted, sent) =
      interleave-quiet moves (start_workers os) failed (omega (arith, uncounted_start, h)) quiet in
    let (none_uncounted, none_unsent) =
      finished_lem (interleave moves (start_workers os) failed).0 all in
    (
      omega (arith, sent, unsent_start, none_unsent),
      omega (arith, counted, uncounted_start, none_uncounted),
    )
