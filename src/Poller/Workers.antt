-- ===== src/Poller/Workers.antt =====
-- The goroutines of `populateWithResponses` at once: a worker for each client of each turn, which share
-- the counter of failures. A move lets one worker do its next access to the counter or the channel. A
-- worker that waits for room on the channel is one that does not move.
pub mod Accounts
use api_poll.Prelude.{
  ℕ, zero, suc, ◌+◌, List, [], ◌∷◌, ◌++◌, Option, none, some, ltb, if◌then◌else◌,
}
use api_poll.Entity.{Response, zero_response}

-- What a worker does next: fetch, with this outcome, add to the counter, load it, store zero in it, or
-- send.
pub data Worker : Type 0 where
  fetching : Option Response → Worker
  adding loading storing : Worker
  sending : Response → Worker
  finished : Worker

-- The worker, the counter and what is put on the channel after its next step.
unfoldable pub advance : Worker → ℕ → Worker × ℕ × List Response
advance (fetching none) failed = (adding, failed, [])
advance (fetching (some r)) failed = (sending r, failed, [])
advance adding failed = (loading, failed + 1, [])
advance loading failed = (if ltb 249 failed then storing else sending zero_response, failed, [])
advance storing failed = (finished, 0, [])
advance (sending r) failed = (finished, failed, r ∷ [])
advance finished failed = (finished, failed, [])

-- The worker at an index moves.
unfoldable pub advance_at : ℕ → List Worker → ℕ → List Worker × ℕ × List Response
unfolding advance
advance_at i [] failed = ([], failed, [])
advance_at zero (w ∷ ws) failed = let (v, n, rs) = advance w failed in (v ∷ ws, n, rs)
advance_at (suc i) (w ∷ ws) failed = let (vs, n, rs) = advance_at i ws failed in (w ∷ vs, n, rs)

-- The moves one after another.
unfoldable pub interleave : List ℕ → List Worker → ℕ → List Worker × ℕ × List Response
unfolding advance_at
interleave [] ws failed = (ws, failed, [])
interleave (i ∷ is) ws failed =
    let (vs, n, rs) = advance_at i ws failed in
    let (us, m, qs) = interleave is vs n in (us, m, rs ++ qs)

abbrev pub start_workers : List (Option Response) → List Worker
start_workers [] = []
start_workers (o ∷ os) = fetching o ∷ start_workers os
