-- ===== src/Poller/Urls.antt =====
-- `SetURL` and the requests of `fetchResponse`, which share the lock of the URL: a request holds it for
-- reading until it ends, and a call of `SetURL` that waits for it keeps later requests out. Only the
-- goroutine of a fetcher calls `SetURL`, and it makes no other call before this one returns.
use api_poll.Prelude.{
  ℕ, zero, suc, ◌+◌, ◌≤◌, ◌<◌, ◌≡◌, refl, List, [], ◌∷◌, ◌++◌, Option, none, some, Bytes, replicate,
  arith,
}

-- The requests in flight and those that wait for the lock are counted. `pending` is the URL of a call
-- that waits, and `requested` has the URL of each request that went out.
pub record State : Type 0 where
  pub url : Bytes
  pub in_flight : ℕ
  pub waiting : ℕ
  pub pending : Option Bytes
  pub requested : List Bytes

pub data Move : Type 0 where
  request_begins request_ends : Move
  sets_url : Bytes → Move

-- A call that waits gets the lock when no request is in flight; then the requests that wait go out.
unfoldable pub grant : ℕ → State → State
grant zero s = elim s.pending [
  | none ↦ record s { in_flight = 0 }
  | some u ↦ record {
    url = u;
    in_flight = s.waiting;
    waiting = 0;
    pending = none;
    requested = s.requested ++ replicate s.waiting u;
  }
]
grant (suc n) s = record s { in_flight = suc n }

-- A move that can not be made changes nothing.
unfoldable pub move : Move → State → State
unfolding grant
move request_begins s = elim s.pending [
  | none ↦ record s { in_flight = s.in_flight + 1; requested = s.requested ++ s.url ∷ [] }
  | some u ↦ record s { waiting = s.waiting + 1 }
]
move request_ends s = elim s.in_flight [ zero ↦ s | suc n ↦ grant n s ]
move (sets_url u) s = elim s.pending [
  | none ↦ grant s.in_flight (record s { pending = some u })
  | some v ↦ s
]

unfoldable pub move_all : List Move → State → State
unfolding move
move_all [] s = s
move_all (m ∷ ms) s = move_all ms (move m s)

abbrev pub ends_in : List Move → ℕ
ends_in [] = 0
ends_in (request_ends ∷ ms) = suc (ends_in ms)
ends_in (_ ∷ ms) = ends_in ms

abbrev pub NoCall : List Move → Type 0
NoCall [] = Unit
NoCall (sets_url u ∷ ms) = ⊥
NoCall (_ ∷ ms) = NoCall ms

abbrev pub open_for : Bytes → ℕ → ℕ → List Bytes → State
open_for url n w rs = record {
  url = url;
  in_flight = n;
  waiting = w;
  pending = none;
  requested = rs;
}

-- A call for `u` waits for one more than `n` requests.
abbrev held_up : Bytes → ℕ → ℕ → Bytes → List Bytes → State
held_up url n w u rs = record {
  url = url;
  in_flight = suc n;
  waiting = w;
  pending = some u;
  requested = rs;
}

-- Without a call the URL stays.
url_stays :
    (ms : List Move) (url : Bytes) (n w : ℕ) (rs : List Bytes)
    → NoCall ms
    → (move_all ms (open_for url n w rs)).url ≡ url
unfolding move_all
url_stays [] url n w rs h = refl
url_stays (request_begins ∷ ms) url n w rs h = url_stays ms url (n + 1) w (rs ++ url ∷ []) h
url_stays (request_ends ∷ ms) url zero w rs h = url_stays ms url zero w rs h
url_stays (request_ends ∷ ms) url (suc zero) w rs h = url_stays ms url zero w rs h
url_stays (request_ends ∷ ms) url (suc (suc n)) w rs h = url_stays ms url (suc n) w rs h
url_stays (sets_url u ∷ ms) url n w rs h = elim h [ ]

held_up-waits :
    (ms : List Move) (url : Bytes) (n w : ℕ) (u : Bytes) (rs : List Bytes)
    → NoCall ms
    → ends_in ms < suc n
    → ((move_all ms (held_up url n w u rs)).url ≡ url)
      × ((move_all ms (held_up url n w u rs)).requested ≡ rs)
unfolding move_all
held_up-waits [] url n w u rs h few = (refl, refl)
held_up-waits (request_begins ∷ ms) url n w u rs h few = held_up-waits ms url n (w + 1) u rs h few
held_up-waits (request_ends ∷ ms) url zero w u rs h few =
    let no : ⊥ = omega (arith, few) in elim no [ ]
held_up-waits (request_ends ∷ ms) url (suc n) w u rs h few =
    held_up-waits ms url n w u rs h (omega (arith, few))
held_up-waits (sets_url v ∷ ms) url n w u rs h few = elim h [ ]

held_up-sets :
    (ms : List Move) (url : Bytes) (n w : ℕ) (u : Bytes) (rs : List Bytes)
    → NoCall ms
    → suc n ≤ ends_in ms
    → (move_all ms (held_up url n w u rs)).url ≡ u
unfolding move_all
held_up-sets [] url n w u rs h many = let no : ⊥ = omega (arith, many) in elim no [ ]
held_up-sets (request_begins ∷ ms) url n w u rs h many = held_up-sets ms url n (w + 1) u rs h many
held_up-sets (request_ends ∷ ms) url zero w u rs h many = url_stays ms u w 0 (rs ++ replicate w u) h
held_up-sets (request_ends ∷ ms) url (suc n) w u rs h many =
    held_up-sets ms url n w u rs h (omega (arith, many))
held_up-sets (sets_url v ∷ ms) url n w u rs h many = elim h [ ]

-- A call of `SetURL`, with `n` requests in flight and no other call, sets the URL once `n` requests have
-- ended, whatever requests begin in between.
pub call_returns :
    (u : Bytes) (ms : List Move) (url : Bytes) (n w : ℕ) (rs : List Bytes)
    → NoCall ms
    → n ≤ ends_in ms
    → (move_all (sets_url u ∷ ms) (open_for url n w rs)).url ≡ u
unfolding move_all
call_returns u ms url zero w rs h many = url_stays ms u w 0 (rs ++ replicate w u) h
call_returns u ms url (suc n) w rs h many = held_up-sets ms url n w u rs h many

-- Before the `n` requests that are in flight at a call of `SetURL` have ended, the URL is the old one, and no request goes out, whatever
-- requests begin.
pub call_holds_up :
    (u : Bytes) (ms : List Move) (url : Bytes) (n w : ℕ) (rs : List Bytes)
    → NoCall ms
    → ends_in ms < n
    → ((move_all (sets_url u ∷ ms) (open_for url n w rs)).url ≡ url)
      × ((move_all (sets_url u ∷ ms) (open_for url n w rs)).requested ≡ rs)
unfolding move_all
call_holds_up u ms url zero w rs h few = let no : ⊥ = omega (arith, few) in elim no [ ]
call_holds_up u ms url (suc n) w rs h few = held_up-waits ms url n w u rs h few
