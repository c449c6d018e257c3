-- ===== src/Broadcast/Invariant.antt =====
-- What holds of a `Broadcast` between calls, and the calls that a program can make.
pub mod Preserved
use api_poll.Prelude.{
  ℕ, zero, suc, ◌+◌, ◌-◌, ◌≤◌, ◌<◌, ◌≡◌, refl, ◌≢◌, Bool, true, false, List, [], ◌∷◌, ◌++◌, Option,
  none, some, arith, length, get_elem?, set, inl, inr, ltb, subst, sym, ◌∙◌, ◌==◌, ◌⊎◌,
  Option-cases, Bool-cases, if◌then◌else◌,
}
use api_poll.Broadcast.{
  Broadcast, Reply, returns, fails, new_broadcast, follow_with, follow, follow_with_memory,
  send_all, send, close_all, close, unfollow, find_follower, drop_follower, fill, fill_memory,
  memory_capacity,
}
use api_poll.Broadcast.Channel.{
  Chan, Heap, Outcome, done, waits, panicked, ◌>>=◌, fresh, pushed, send_on, close_on,
}
use api_poll.Broadcast.Channels.{
  count, count-append, IsOpen, get_elem?-append_left, get_elem?-append_last, get_elem?-append_one,
  get_elem?-lt, get_elem?-set-some,
}
use api_poll.Broadcast.Safe.{
  Ends, >>=-Ends, Ends-map, IsBounded, Keeps, send_all-Keeps, fill-Keeps, Closes, close_on-Closes,
  close_all-IsBounded, set-IsBounded,
}
use api_poll.Broadcast.Unfollow.{count-drop_follower, find_follower-pos}

-- The followers are distinct open channels, no buffer is over-full, and a closed broadcast has none.
pub record IsValid {A : Type 0} (b : Broadcast A) : Type 0 where
  pub room : 0 < b.capacity
  pub distinct : (f : ℕ) → count f b.followers ≤ 1
  pub opened : (f : ℕ) → 0 < count f b.followers → IsOpen b.heap f
  pub bounded : IsBounded b.heap
  pub ended : b.closed ≡ true → b.followers ≡ []

-- What the program may do to a broadcast: its methods, and a receive by the holder of a channel.
pub data Call (A : Type 0) : Type 0 where
  follows : Call A
  follows_with : List A → Call A
  unfollows : ℕ → Call A
  sends : A → Call A
  closes : Call A
  receives : ℕ → Call A

module _ {A : Type 0} where
  abbrev popped : Chan A → Chan A
  popped c = record c { buffer = elim c.buffer [ [] ↦ [] | v ∷ vs ↦ vs ] }

  -- A receive takes the oldest value; on an empty channel it changes nothing.
  receive : ℕ → Broadcast A → Broadcast A
  receive ch b = elim (get_elem? b.heap ch) [
    | none ↦ b
    | some c ↦ record b { heap = set b.heap ch (popped c) }
  ]

  abbrev state_of : {R : Type 0} → Outcome (Broadcast A × R) → Outcome (Broadcast A)
  state_of m = m >>= λ p. done p.0

  pub step : Call A → Broadcast A → Outcome (Broadcast A)
  unfolding receive
  step follows b = done (follow b).0
  step (follows_with memory) b = state_of (follow_with_memory memory b)
  step (unfollows ch) b = state_of (unfollow ch b)
  step (sends v) b = state_of (send v b)
  step closes b = close b
  step (receives ch) b = done (receive ch b)

  pub run : List (Call A) → Broadcast A → Outcome (Broadcast A)
  run [] b = done b
  run (c ∷ cs) b = do b' ← step c b; run cs b'
