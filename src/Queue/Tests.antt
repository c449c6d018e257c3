-- ===== src/Queue/Tests.antt =====
-- Runs of the clients queue on five clients at three locations, one of which the service does not know.
use api_poll.Prelude.{
  sum_of, concat, ℕ, ◌≡◌, refl, List, [], ◌∷◌, Option, none, some, Bytes, ltb, if◌then◌else◌,
  bytes_eq,
}
use api_poll.Queue.{Member, Pool, new_groups, location_of}
use api_poll.Queue.Groups.{Order, Visits, new_groups_keeps}
use api_poll.Queue.Groups.Locations.{Spread, new_groups-Spread}

abbrev address : ℕ → Bytes
address n = n ∷ []

-- Below 3 one location, 3 another.
abbrev locate : Bytes → Option Bytes
locate [] = none
locate (n ∷ ns) = if ltb n 3 then some (7 ∷ []) else if ltb n 4 then some (8 ∷ []) else none

abbrev as_listed : Order ℕ
as_listed k m = m

as_listed-Visits : Visits as_listed
unfolding Visits
as_listed-Visits k w m = refl

abbrev five : List ℕ
five = 1 ∷ 2 ∷ 3 ∷ 4 ∷ 5 ∷ []

two_groups : new_groups address locate as_listed five ≡ some ((1 ∷ 3 ∷ 4 ∷ []) ∷ (2 ∷ 5 ∷ []) ∷ [])
unfolding new_groups bytes_eq
two_groups = refl

new_groups_keeps_example :
    (gs : List (List ℕ)) × (new_groups address locate as_listed five ≡ some gs)
    × ((w : ℕ → ℕ) → sum_of w (concat gs) ≡ sum_of w five)
new_groups_keeps_example = new_groups_keeps address locate as_listed five as_listed-Visits

new_groups-Spread_example :
    Spread (location_of address locate) ((1 ∷ 3 ∷ 4 ∷ []) ∷ (2 ∷ 5 ∷ []) ∷ [])
new_groups-Spread_example =
    new_groups-Spread address locate as_listed five ((1 ∷ 3 ∷ 4 ∷ []) ∷ (2 ∷ 5 ∷ []) ∷ [])
      as_listed-Visits two_groups

abbrev member : Member ℕ
member = record { clients = 1 ∷ 3 ∷ []; last_acquired_at = 100 }

abbrev pool : Pool ℕ
pool = record { members = member ∷ []; client_rest_interval = 50 }
