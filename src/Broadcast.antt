-- ===== src/Broadcast.antt =====
-- pkg/channel/broadcast.go: one sender, many followers. A Go channel is an entry of a heap of
-- channels, and its number is its identity, so that the receiver's end and the entry of `followers`
-- are the same channel. A call runs under the mutex, so it is one step; the exception is
-- `FollowWithMemory`, which gives the mutex back before it fills the new channel.
pub mod Channel
pub mod Channels
pub mod Safe
pub mod Invariant
pub mod Delivery
pub mod Unfollow
pub mod Leave
pub mod Memory
mod Tests
use api_poll.Prelude.{
  ℕ, zero, suc, ◌+◌, ◌-◌, ◌/◌, max, Bool, true, false, List, [], ◌∷◌, ◌++◌, Option, none, some,
  length, set, take, get_or, ◌==◌, if◌then◌else◌,
}
use Channel.{Heap, Outcome, done, waits, panicked, ◌>>=◌, fresh, send_on, close_on}

abbrev pub broadcast_default_capacity : ℕ
broadcast_default_capacity = 16

pub data Error : Type 0 where
  broadcast_closed follower_not_found : Error

-- The mutable part of `Broadcast`, with the channels that it made.
pub record Broadcast {ℓ} (A : Type ℓ) : Type ℓ where
  pub followers : List ℕ
  pub capacity : ℕ
  pub closed : Bool
  pub heap : Heap A

-- A call's result: `nil` or an error.
pub data Reply {ℓ} (R : Type ℓ) : Type ℓ where
  returns : R → Reply R
  fails : Error → Reply R

pub find_follower : ℕ → List ℕ → Option ℕ
find_follower ch [] = none
find_follower ch (f ∷ fs) =
    if f == ch then some 0 else elim (find_follower ch fs) [ none ↦ none | some i ↦ some (suc i) ]

-- `followers[i] = followers[len-1]; followers = followers[:len-1]`.
pub drop_follower : ℕ → List ℕ → List ℕ
drop_follower i fs = take (length fs - 1) (set fs i (get_or fs (length fs - 1) 0))

module _ {ℓ} {A : Type ℓ} where
  pub new_broadcast : ℕ → Broadcast A
  new_broadcast capacity = record {
    followers = [];
    capacity = if capacity == 0 then broadcast_default_capacity else capacity;
    closed = false;
    heap = [];
  }

  -- The method `follow`: a new channel with room for `min_required` values.
  pub follow_with : ℕ → Broadcast A → Broadcast A × Reply ℕ
  follow_with min_required b = if b.closed then (b, fails broadcast_closed) else (
    record b {
      followers = b.followers ++ length b.heap ∷ [];
      heap = b.heap ++ fresh min_required ∷ [];
    },
    returns (length b.heap),
  )

  pub follow : Broadcast A → Broadcast A × Reply ℕ
  unfolding follow_with
  follow b = follow_with b.capacity b

  -- The loop of `Send`, and that of `FollowWithMemory` over one channel.
  pub send_all : List ℕ → A → Heap A → Outcome (Heap A)
  send_all [] v h = done h
  send_all (f ∷ fs) v h = do h' ← send_on f v h; send_all fs v h'

  pub fill : ℕ → List A → Heap A → Outcome (Heap A)
  fill f [] h = done h
  fill f (v ∷ vs) h = do h' ← send_on f v h; fill f vs h'

  -- `len(memory)+len(memory)>>3+1`, where `>>` binds tighter than `+`.
  pub memory_capacity : Broadcast A → List A → ℕ
  memory_capacity b memory = max b.capacity (length memory + length memory / 8 + 1)

  -- The second half of `FollowWithMemory`, outside the mutex.
  pub fill_memory : ℕ → List A → Broadcast A → Outcome (Broadcast A)
  unfolding fill
  fill_memory ch memory b = do h ← fill ch memory b.heap; done (record b { heap = h })

  -- What `FollowWithMemory` does with the result of `follow`.
  pub after_follow : List A → Broadcast A × Reply ℕ → Outcome (Broadcast A × Reply ℕ)
  unfolding fill_memory
  after_follow memory (b, fails e) = done (b, fails e)
  after_follow memory (b, returns ch) = fill_memory ch memory b >>= λ b'. done (b', returns ch)

  -- `FollowWithMemory` when no other call comes between its two halves.
  pub follow_with_memory : List A → Broadcast A → Outcome (Broadcast A × Reply ℕ)
  unfolding follow_with memory_capacity after_follow
  follow_with_memory memory b = after_follow memory (follow_with (memory_capacity b memory) b)

  pub unfollow : ℕ → Broadcast A → Outcome (Broadcast A × Reply (Unit {0}))
  unfolding find_follower drop_follower
  unfollow ch b = elim (find_follower ch b.followers) [
    | none ↦ done (b, fails follower_not_found)
    | some i ↦ close_on ch b.heap >>= λ h.
        done (record b { followers = drop_follower i b.followers; heap = h }, returns tt)
  ]

  pub send : A → Broadcast A → Outcome (Broadcast A × Reply (Unit {0}))
  unfolding send_all
  send v b =
      if b.closed
      then done (b, fails broadcast_closed)
      else send_all b.followers v b.heap >>= λ h. done (record b { heap = h }, returns tt)

  pub close_all : List ℕ → Heap A → Outcome (Heap A)
  close_all [] h = done h
  close_all (f ∷ fs) h = do h' ← close_on f h; close_all fs h'

  pub close : Broadcast A → Outcome (Broadcast A)
  unfolding close_all
  close b =
      if b.closed
      then done b
      else close_all b.followers b.heap >>= λ h.
          done (record b { closed = true; followers = []; heap = h })

  pub len : Broadcast A → ℕ
  len b = length b.followers

  -- The goroutine of `NewBroadcastAdapter` over the values of a channel that is then closed. It drops
  -- the error of a `Send`.
  pub relay : List A → Broadcast A → Outcome (Broadcast A)
  unfolding send close
  relay [] b = close b
  relay (v ∷ vs) b = send v b >>= λ r. relay vs r.0
