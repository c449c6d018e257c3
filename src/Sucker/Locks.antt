-- ===== src/Sucker/Locks.antt =====
-- The goroutines of a stream of the websocket sucker: `read` with the readers that it starts, and
-- `ping`, which share the mutex of the connection. A move is what one of them does next.
pub mod Hanging
use api_poll.Prelude.{ℕ, zero, suc, Bool, true, false, List, [], ◌∷◌, Option, none, some}

-- `read`: before it starts a reader, at its select, returned; and the channel of news closed.
pub data Main : Type 0 where
  looping selecting returned closed : Main

-- `ping`: at its select, before the mutex, with it, and returned.
pub data Pinger : Type 0 where
  idle waiting pinging ended : Pinger

-- The mutex: free, or held by a reader that reads, hands a text over or returns, or by `ping`.
pub data Mutex : Type 0 where
  free by_reading by_handing_over by_leaving by_ping : Mutex

pub record State : Type 0 where
  pub main : Main
  pub pinger : Pinger
  pub mutex : Mutex
  pub queued : ℕ
  pub done : Bool

pub data Move : Type 0 where
  starts_reader cancels reader_locks text_arrives reading_fails hands_over reader_unlocks : Move
  read_returns ticks ping_locks ping_unlocks ping_returns closes_news : Move

abbrev pub start : State
start = record { main = looping; pinger = idle; mutex = free; queued = 0; done = false }

-- What a move makes of the state, if it can be made.
unfoldable pub step : Move → State → Option State
step starts_reader s = elim s.main [
  | looping ↦ some (record s { main = selecting; queued = suc s.queued })
  | _ ↦ none
]
step cancels s = some (record s { done = true })
step reader_locks s = elim s.mutex [
  | free ↦ elim s.queued [
    | zero ↦ none
    | suc n ↦ some (record s { mutex = by_reading; queued = n })
  ]
  | _ ↦ none
]
step text_arrives s = elim s.mutex [
  | by_reading ↦ some (record s { mutex = by_handing_over })
  | _ ↦ none
]
step reading_fails s = elim s.mutex [ by_reading ↦ some s | _ ↦ none ]
step hands_over s = elim s.mutex [
  | by_handing_over ↦ elim s.main [
    | selecting ↦ some (record s { main = looping; mutex = by_leaving })
    | _ ↦ none
  ]
  | _ ↦ none
]
step reader_unlocks s = elim s.mutex [ by_leaving ↦ some (record s { mutex = free }) | _ ↦ none ]
step read_returns s = elim s.done [
  | true ↦ elim s.main [ selecting ↦ some (record s { main = returned }) | _ ↦ none ]
  | false ↦ none
]
step ticks s = elim s.pinger [ idle ↦ some (record s { pinger = waiting }) | _ ↦ none ]
step ping_locks s = elim s.pinger [
  | waiting ↦ elim s.mutex [
    | free ↦ some (record s { pinger = pinging; mutex = by_ping })
    | _ ↦ none
  ]
  | _ ↦ none
]
step ping_unlocks s = elim s.pinger [
  | pinging ↦ some (record s { pinger = idle; mutex = free })
  | _ ↦ none
]
step ping_returns s = elim s.done [
  | true ↦ elim s.pinger [ idle ↦ some (record s { pinger = ended }) | _ ↦ none ]
  | false ↦ none
]
step closes_news s = elim s.main [
  | returned ↦ elim s.pinger [ ended ↦ some (record s { main = closed }) | _ ↦ none ]
  | _ ↦ none
]

-- Moves one after another, if each can be made.
unfoldable pub run : List Move → State → Option State
unfolding step
run [] s = some s
run (m ∷ ms) s = elim (step m s) [ none ↦ none | some t ↦ run ms t ]
