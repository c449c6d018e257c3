-- ===== src/Sucker.antt =====
-- internal/core/websocket_sucker.go: titles that a websocket delivers. The outcomes of the connection
-- and the decoder of a payload are parameters; the texts of messages and logs are left out. Locks has
-- the goroutines of a stream with the mutex of the connection, Codec the JSON of a payload.
pub mod Reading
pub mod Locks
mod Codec
mod Tests
use api_poll.Prelude.{
  ℕ, zero, suc, Bool, true, false, List, [], ◌∷◌, ◌++◌, Option, none, some, Bytes, utf8, bytes_eq,
  if◌then◌else◌,
}
use api_poll.Prelude.Int.{ℤ}

-- The structs of internal/entity/sucker_payload.go.
pub record Detection : Type 0 where
  pub ticker : Bytes

pub record SuckerPayload : Type 0 where
  pub id : ℤ
  pub time : ℤ
  pub announcement : Bytes
  pub original_title : Bytes
  pub url : Bytes
  pub exchange : Bytes
  pub type : Bytes
  pub detections : List Detection

-- `formatDetections`.
unfoldable pub tickers_of : List Detection → List Bytes
tickers_of [] = []
tickers_of (d ∷ ds) = d.ticker ∷ tickers_of ds

unfoldable pub join_texts : Bytes → List Bytes → Bytes
join_texts sep [] = []
join_texts sep (t ∷ []) = t
join_texts sep (t ∷ u ∷ ts) = t ++ sep ++ join_texts sep (u ∷ ts)

unfoldable pub format_detections : List Detection → Bytes
unfolding tickers_of join_texts
format_detections [] = utf8 "None"
format_detections (d ∷ ds) = join_texts (utf8 ", ") (tickers_of (d ∷ ds))

-- `connectTillEstablished` for as many attempts as the fuel: the sleeps, if one of them succeeds.
-- `longer` is the product of a delay with the float e.
module _ (dial : ℕ → Bool) (longer : ℕ → ℕ) where
  unfoldable pub connect_from : ℕ → ℕ → ℕ → Option (List ℕ)
  connect_from zero i delay = none
  connect_from (suc fuel) i delay =
      let rest = connect_from fuel (suc i) (longer delay) in
      if dial i then some [] else elim rest [ none ↦ none | some sleeps ↦ some (delay ∷ sleeps) ]

  pub connect_till_established : ℕ → Option (List ℕ)
  unfolding connect_from
  connect_till_established fuel = connect_from fuel 0 1_000_000_000

-- What the loop of `read` and its reader meet: a text that is read, an error of reading, after which
-- the reader connects anew and goes on, and a context that is done.
pub data Event : Type 0 where
  arrives : Bytes → Event
  read_fails context_done : Event

-- What `read` does: the titles on the channel of news with a message for each, of which the title, the
-- time before its format and the other texts are kept, and the connections that are made anew.
pub data Act : Type 0 where
  sends_title : Bytes → Act
  sends_message : Bytes → ℤ → List Bytes → Act
  connects : Act

module _ (unmarshal : Bytes → Option SuckerPayload) where
  -- One payload.
  abbrev pub handle_payload : Option SuckerPayload → List Act
  handle_payload none = []
  handle_payload (some p) =
      if bytes_eq p.exchange (utf8 "upbit")
      then sends_title p.original_title
        ∷ sends_message p.original_title p.time
            (p.exchange ∷ p.url ∷ format_detections p.detections ∷ [])
        ∷ []
      else []

  pub read : List Event → List Act
  unfolding bytes_eq format_detections
  read [] = []
  read (context_done ∷ es) = []
  read (read_fails ∷ es) = connects ∷ read es
  read (arrives text ∷ es) = handle_payload (unmarshal text) ++ read es

-- `StreamNews`: the streaming flag; an error if there is a stream already.
unfoldable pub stream_news : Bool → Bool × Bool
stream_news streaming = (true, streaming)
