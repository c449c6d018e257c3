-- ===== src/Queue.antt =====
-- pkg/httptools/clients_queue.go: the clients in groups of different locations, and the queue of the
-- groups. Go ranges over a map in an order of its own, which is the parameter `order`; the location
-- service of pkg/ipscrap is the parameter `locate`. Instants and durations are nanoseconds.
pub mod Groups
pub mod Rest
mod Tests
use api_poll.Prelude.{
  ℕ, zero, suc, ◌+◌, ◌-◌, ◌*◌, Bool, List, [], ◌∷◌, ◌++◌, Option, none, some, Bytes, map, utf8,
  bytes_eq, length, ltb, if◌then◌else◌,
}

-- An entry of `clientsByLocation`, and the map as a list of entries with different keys.
abbrev pub Entry : Type 0 → Type 0
Entry A = Bytes × List A

abbrev pub ByLocation : Type 0 → Type 0
ByLocation A = List (Entry A)

abbrev unknown : Bytes
unknown = utf8 "unknown"

module _ {A : Type 0} where
  -- `clientsByLocation[location] = append(clientsByLocation[location], client)`.
  pub add_client : Bytes → A → ByLocation A → ByLocation A
  add_client l c [] = (l, c ∷ []) ∷ []
  add_client l c ((k, cs) ∷ m) =
      if bytes_eq k l then (k, cs ++ c ∷ []) ∷ m else (k, cs) ∷ add_client l c m

  -- What one `range` over the map takes out of it, and what it leaves: an entry with no clients is
  -- deleted, of any other the first client is taken.
  pub taken : ByLocation A → List A
  taken [] = []
  taken ((l, []) ∷ m) = taken m
  taken ((l, c ∷ cs) ∷ m) = c ∷ taken m

  pub left : ByLocation A → ByLocation A
  left [] = []
  left ((l, []) ∷ m) = left m
  left ((l, c ∷ cs) ∷ m) = (l, cs) ∷ left m

  -- The loop that fills the queue, by the rounds that are left; `none` is a lack of rounds.
  abbrev pub put_group : List A → Option (List (List A)) → Option (List (List A))
  put_group group none = none
  put_group [] (some groups) = some groups
  put_group (c ∷ cs) (some groups) = some ((c ∷ cs) ∷ groups)

  pub groups_of : (ℕ → ByLocation A → ByLocation A) → ℕ → ByLocation A → Option (List (List A))
  unfolding taken left
  groups_of order rounds [] = some []
  groups_of order zero (e ∷ m) = none
  groups_of order (suc rounds) (e ∷ m) =
      let visited = order rounds (e ∷ m) in
      put_group (taken visited) (groups_of order rounds (left visited))

-- The location of a client, by its address.
module _ {A : Type 0} (address : A → Bytes) (locate : Bytes → Option Bytes) where
  pub location_of : A → Bytes
  location_of c = elim (locate (address c)) [ none ↦ unknown | some l ↦ l ]

  pub by_location : List A → ByLocation A → ByLocation A
  unfolding add_client location_of
  by_location [] m = m
  by_location (c ∷ cs) m = by_location cs (add_client (location_of c) c m)

  -- The groups that `NewClientsQueuePool` puts into its queue.
  unfoldable pub new_groups : (ℕ → ByLocation A → ByLocation A) → List A → Option (List (List A))
  unfolding groups_of by_location
  new_groups order clients = groups_of order (2 * length clients) (by_location clients [])

-- A member of the queue, and the pool. The queue is a channel with room for every group.
pub record Member (A : Type 0) : Type 0 where
  pub clients : List A
  pub last_acquired_at : ℕ

pub record Pool (A : Type 0) : Type 0 where
  pub members : List (Member A)
  pub client_rest_interval : ℕ

-- What `Acquire` gives: the clients, how long it has slept, and the time that its release function
-- stores.
pub record Acquired (A : Type 0) : Type 0 where
  pub clients : List A
  pub slept : ℕ
  pub acquired_at : ℕ

module _ {A : Type 0} where
  -- The queue that `NewClientsQueuePool` fills with its groups, at the instant `now`.
  unfoldable pub new_pool : ℕ → ℕ → List (List A) → Pool A
  new_pool now interval groups = record {
    members = map (λ (g : List A). record { clients = g; last_acquired_at = now }) groups;
    client_rest_interval = interval;
  }

  -- `Acquire` at the instant `now`; on an empty queue it waits.
  pub acquire : ℕ → Pool A → Option (Acquired A × Pool A)
  acquire now q = elim q.members [
    | [] ↦ none
    | m ∷ ms ↦
        let elapsed = now - m.last_acquired_at in
        some (
          record {
            clients = m.clients;
            slept =
                if ltb elapsed q.client_rest_interval then q.client_rest_interval - elapsed else 0;
            acquired_at = now;
          },
          record q { members = ms },
        )
  ]

  -- The release function that `Acquire` has returned.
  pub release : Acquired A → Pool A → Pool A
  release a q = record q {
    members = q.members ++ record { clients = a.clients; last_acquired_at = a.acquired_at } ∷ [];
  }

  unfoldable pub len : Pool A → ℕ
  len q = length q.members
